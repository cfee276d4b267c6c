-- ===== src/Agent/EventBus/Delivery.antt =====
-- What the bus delivers to each listener while the receivers take from their channels.
use mu5250_open_ui.Base.{ℕ, ◌^◌, ◌<◌, ◌≤◌, ◌≡◌, Option, List, [], ◌∷◌, ◌++◌, length, if◌then◌else◌}
use mu5250_open_ui.Base.Results.{Result, ok, err}
use mu5250_open_ui.Base.Strings.{str_eq}
use mu5250_open_ui.Agent.EventBus.{Subscriber, ignored_events, is_ignored, object_of}
use mu5250_open_ui.Agent.EventBus.Served.{IsServed}

-- The payloads of the events with a name, of those that are not ignored.
pub offered : {V : Type 0} → List ℕ → List (List ℕ × V) → List V
offered event [] = []
offered event ((event_name, payload) ∷ obj) =
    let rest = offered event obj in
    if is_ignored ignored_events event_name
    then rest
    else if str_eq event event_name
    then payload ∷ rest
    else rest

-- The listeners, each with what it was at first.
abbrev pub Each :
    {V : Type 0}
    → (Subscriber V → Subscriber V → Type 0)
    → List (Subscriber V)
    → List (Subscriber V)
    → Type 0
Each R [] [] = Unit
Each R [] (s ∷ subs) = ⊥
Each R (s ∷ subs) [] = ⊥
Each R (s ∷ subs) (s' ∷ subs') = R s s' × Each R subs subs'

module _ {V : Type 0} where
  -- A listener behind some payloads, beginning with those that it had at first.
  abbrev pub Follows : List V → Subscriber V → Subscriber V → Type 0
  Follows all s s' = (s'.event ≡ s.event) × IsServed all s.dropped s'.tx s'.dropped

  -- The payload of an event, if it is for the listener.
  part : List ℕ → V → Subscriber V → List V
  part name payload s = offered s.event ((name, payload) ∷ [])

  -- The payloads of the events behind others.
  abbrev grown : (Subscriber V → List V) → List (List ℕ × V) → Subscriber V → List V
  grown total [] s = total s
  grown total ((name, payload) ∷ events) s = grown (λ s'. total s' ++ part name payload s') events s

  -- A count of 64 bits, and a queue within its capacity.
  abbrev pub IsReady : Subscriber V → Type 0
  IsReady s = (s.dropped < 2 ^ 64) × (length s.tx.queue ≤ 64)

module _ {V : Type 0} (trim : List ℕ → List ℕ) (members : List ℕ → Option (List (List ℕ × V))) where
  -- The events of the lines before the first one that cannot be read.
  pub events_of : List (Result (List ℕ) (List ℕ)) → List (List ℕ × V)
  events_of [] = []
  events_of (err e ∷ lines) = []
  events_of (ok line ∷ lines) = object_of trim members line ++ events_of lines
