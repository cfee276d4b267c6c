-- ===== src/Agent/UciTransaction/Tests.antt =====
-- Transactions on a configuration in memory whose first reload may fail, and the theorems on it.
use mu5250_open_ui.Base.{
  ℕ, ◌≡◌, refl, Bool, true, false, ◌&&◌, Option, none, some, List, [], ◌∷◌, String, if◌then◌else◌,
}
use mu5250_open_ui.Base.Results.{Result, ok, err}
use mu5250_open_ui.Base.Strings.{str_eq}
use mu5250_open_ui.Agent.UciTransaction.{
  Change, Backend, config, configs, set_insert, str_ltb, set_all, commit_all, reload, settle,
  committed, staged_then, checked, execute,
}
use mu5250_open_ui.Agent.UciTransaction.Staging.{or_else}

record World : Type 0 where
  live : List ℕ → Option (List ℕ)
  staged : List ℕ → Option (List ℕ)
  broken : Bool

unfoldable holds : Option (List ℕ) → List ℕ → Bool
holds none v = false
holds (some u) v = str_eq u v

unfoldable all_hold : List Change → World → Bool
all_hold [] w = true
all_hold (c ∷ cs) w = holds (w.live c.key) c.before && all_hold cs w

unfoldable check_all : Bool → Result String (Unit {0})
check_all true = ok tt
check_all false = err "changed during this request"

abbrev memory : Backend World
memory = record {
  check = λ cs w. check_all (all_hold cs w);
  set = λ k v w. (ok tt, record w { staged = λ j. if str_eq k j then some v else w.staged j });
  commit = λ c w. (
    ok tt,
    record w {
      live = λ j. if str_eq (config j) c then or_else (w.staged j) (w.live j) else w.live j;
      staged = λ j. if str_eq (config j) c then none else w.staged j;
    },
  );
  apply = λ w. if w.broken then (err "reload failed", record w { broken = false }) else (ok tt, w);
}

-- wireless.ssid and mbb.onoff
abbrev ssid : List ℕ
ssid = b'w' ∷ b'.' ∷ b's' ∷ []

abbrev onoff : List ℕ
onoff = b'm' ∷ b'.' ∷ b'o' ∷ []

abbrev changes : List Change
changes =
    record { key = ssid; before = b'0' ∷ []; after = b'n' ∷ [] }
    ∷ (record { key = onoff; before = b'0' ∷ []; after = b'1' ∷ [] } ∷ [])

abbrev world : Bool → World
world broken = record { live = λ j. some (b'0' ∷ []); staged = λ j. none; broken = broken }

succeeds : (execute memory changes (world false)).0 ≡ ok tt
unfolding execute checked staged_then committed settle reload set_all commit_all check_all all_hold
    holds configs config set_insert str_ltb str_eq
succeeds = refl
