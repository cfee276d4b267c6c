-- ===== src/Agent/EventBus/Tests.antt =====
-- Witnesses and tests of the event bus. A text is its own object here: its bytes but the first are events of
-- the name `a` or `b`, with the byte as payload.
use mu5250_open_ui.Base.{ℕ, ◌≡◌, refl, true, Option, none, some, List, [], ◌∷◌, map, zero, suc}
use mu5250_open_ui.Base.Results.{Result, ok, err}
use mu5250_open_ui.Base.Strings.{str_eq}
use mu5250_open_ui.Base.Texts.{codes}
use mu5250_open_ui.Agent.EventBus.{Subscriber, Schedule, takes, hangs_up, subscribe, read_events}

abbrev trim : List ℕ → List ℕ
trim s = s

abbrev members : List ℕ → Option (List (List ℕ × ℕ))
members [] = none
members (b ∷ bs) = some (map (λ c. (b ∷ [], c)) bs)

abbrev two : List (Subscriber ℕ)
two =
    record {
      event = codes "a";
      tx = record { taken = []; queue = 7 ∷ []; connected = true };
      dropped = 0;
    }
    ∷ (record {
      event = codes "b";
      tx = record { taken = []; queue = []; connected = true };
      dropped = 0;
    }
        ∷ [])

abbrev lines : List (Result (List ℕ) (List ℕ))
lines =
    ok (codes "a12")
    ∷ (ok []
        ∷ (ok (codes "b3") ∷ (ok (codes "a4") ∷ (err (codes "pipe") ∷ (ok (codes "a5") ∷ [])))))

-- The first receiver takes one payload before the second event, and the second is dropped before the third.
abbrev schedule : Schedule
schedule zero i = []
schedule (suc zero) zero = takes ∷ []
schedule (suc zero) (suc i) = []
schedule (suc (suc zero)) zero = []
schedule (suc (suc zero)) (suc i) = hangs_up ∷ []
schedule (suc (suc (suc k))) i = []

channels_read :
    map {B = List ℕ × List ℕ × ℕ}
      (λ s. (s.tx.taken, s.tx.queue, s.dropped))
      (read_events trim members schedule lines two)
    ≡ (7 ∷ [], b'1' ∷ (b'2' ∷ (b'4' ∷ [])), 0) ∷ (([], [], 1) ∷ [])
unfolding read_events str_eq
channels_read = refl

subscribed :
    subscribe {V = ℕ} (codes "b") []
    ≡ record {
      event = codes "b";
      tx = record { taken = []; queue = []; connected = true };
      dropped = 0;
    }
      ∷ []
unfolding subscribe
subscribed = refl
