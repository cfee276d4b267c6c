-- ===== src/Agent/Lan.antt =====
-- agent/src/lan.rs: confirmed changes of the LAN settings, over the trait `Backend` of the firmware
-- and the recovery record. One lock guards the state, so the methods run one at a time, but for `recover`, which
-- takes the lock only at its end and runs before the listener starts; the thread
-- that `begin` starts calls `apply_pending` once and `expire` repeatedly. `now` is `Instant::now()`
-- in nanoseconds. Error texts are values, with the errors of the backend as texts within them.
pub mod Settings
mod Begin
mod Confirm
mod Rollback
mod Recovery
mod Tests
use mu5250_open_ui.Base.{
  ℕ, ◌+◌, ◌-◌, ◌*◌, ◌/◌, ◌%◌, ◌^◌, Bool, true, false, not, ◌&&◌, ◌||◌, Option, none, some, List, [],
  ◌∷◌, ◌++◌, String, ltb, leb, if◌then◌else◌,
}
use mu5250_open_ui.Base.Results.{Result, ok, err, error_of, and_then, map_err}
use mu5250_open_ui.Base.Strings.{str_eq}
use mu5250_open_ui.Agent.Auth.{hex_encode}
use mu5250_open_ui.Agent.Router.{LanError, validate_lan_settings}
use mu5250_open_ui.Agent.Lan.Settings.{LanSettings, settings_eq}

abbrev pub confirm_seconds : ℕ
confirm_seconds = 120

abbrev pub nanos : ℕ
nanos = 1_000_000_000

pub record Binding : Type 0 where
  pub address : List ℕ
  pub generation : ℕ
  pub fixed : Bool

-- `format!("{ip}:9090")`
abbrev pub listen_address : List ℕ → List ℕ
listen_address ip = ip ++ (b':' ∷ b'9' ∷ b'0' ∷ b'9' ∷ b'0' ∷ [])

-- `Binding::set`
unfoldable pub set_binding : List ℕ → Binding → Binding
set_binding ip b =
    if b.fixed
    then b
    else if str_eq b.address (listen_address ip)
    then b
    else record b { address = listen_address ip; generation = (b.generation + 1) % 2 ^ 64 }

pub record Journal : Type 0 where
  pub previous : LanSettings
  pub proposed : LanSettings
  pub token : List ℕ

pub record Pending : Type 0 where
  pub journal : Journal
  pub deadline : ℕ
  pub applied : Bool

pub data Error : Type 0 where
  backend creating_token not_cleared restoration_failed : String → Error
  busy address_fixed not_confirmed nothing_pending invalid_or_expired no_match : Error
  invalid : LanError → Error

-- `State`, with the binding that the manager shares with the listener.
pub record Manager : Type 0 where
  pub pending : Option Pending
  pub confirmed : Option Journal
  pub error : Option Error
  pub binding : Binding

-- The trait: what it does to the world `W` behind it.
pub record Backend (W : Type 0) : Type 0 where
  pub read : W → Result String LanSettings
  pub apply : LanSettings → W → Result String (Unit {0}) × W
  pub load : W → Result String (Option Journal)
  pub save : Journal → W → Result String (Unit {0}) × W
  pub clear : W → Result String (Unit {0}) × W

-- What `begin` answers.
pub data Response : Type 0 where
  unchanged : Response
  changed : List ℕ → List ℕ → ℕ → Response

abbrev pub is_some {ℓ} : {A : Type ℓ} → Option A → Bool
is_some none = false
is_some (some a) = true

-- `Err(e)` unless the test holds.
abbrev pub require : Bool → Error → Result Error (Unit {0})
require true e = ok tt
require false e = err e

abbrev pub rebind : List ℕ → Manager → Manager
rebind ip m = record m { binding = set_binding ip m.binding }

abbrev pub with_error : Error → Manager → Manager
with_error e m = record m { error = some e }

abbrev pub begun : ℕ → Journal → Manager → Manager
begun now j m = record m {
  confirmed = none;
  pending =
      some (record { journal = j; deadline = now + confirm_seconds * nanos; applied = false });
}

abbrev pub finished : Journal → Manager → Manager
finished j m = record m { confirmed = some j; pending = none; error = none }

-- The end of `begin` up to the recovery record: none if nothing would change.
unfoldable pub new_journal :
    Result String (List ℕ) → LanSettings → Binding → LanSettings → Result Error (Option Journal)
new_journal random proposed bound previous =
    if settings_eq previous proposed
    then ok none
    else and_then
        (require (not (bound.fixed && not (str_eq previous.ipaddr proposed.ipaddr))) address_fixed)
        (λ _. and_then (map_err creating_token random) (λ bytes.
          ok
            (some (record { previous = previous; proposed = proposed; token = hex_encode bytes }))))

module _ {W : Type 0} (b : Backend W) where
  -- `recover`, call by call: the result of the closure, with the binding and the world it leaves.
  unfoldable pub recovered : Manager → Result Error (Unit {0}) → Manager
  recovered m (ok _) = record m { pending = none; error = none }
  recovered m (err e) = record m { error = some e }

  unfoldable pub recover_clear : Journal → Manager → Result String (Unit {0}) × W → Manager × W
  recover_clear j m (err e, w) = (recovered m (err (backend e)), w)
  recover_clear j m (ok _, w) =
      let (r, w') = b.clear w in (recovered (rebind j.previous.ipaddr m) (map_err backend r), w')

  unfoldable pub recover_from : Result String (Option Journal) → Manager → W → Manager × W
  recover_from (err e) m w = (recovered m (err (backend e)), w)
  recover_from (ok none) m w = (recovered m (ok tt), w)
  recover_from (ok (some j)) m w = elim (validate_lan_settings j.previous) [
    | err e ↦ (recovered m (err (invalid e)), w)
    | ok _ ↦ recover_clear j m (b.apply j.previous w)
  ]

  unfoldable pub recover : Manager → W → Manager × W
  recover m w = recover_from (b.load w) m w

  -- The tests of `begin`, in their order.
  unfoldable pub prepare :
      Result String (List ℕ) → LanSettings → Manager → W → Result Error (Option Journal)
  prepare random proposed m w = and_then (require (not (is_some m.pending)) busy) (λ _.
      and_then (map_err backend (b.load w)) (λ found.
        and_then (require (not (is_some found)) busy) (λ _.
          and_then (map_err invalid (validate_lan_settings proposed)) (λ _.
            and_then (map_err backend (b.read w)) (λ previous.
              and_then (map_err invalid (validate_lan_settings previous))
                (λ _. new_journal random proposed m.binding previous))))))

  unfoldable pub save_record :
      ℕ → Journal → Manager → Result String (Unit {0}) × W → (Manager × Result Error Response) × W
  save_record now j m (err e, w) = ((m, err (backend e)), w)
  save_record now j m (ok _, w) =
      ((begun now j m, ok (changed j.proposed.ipaddr j.token confirm_seconds)), w)

  unfoldable pub start :
      ℕ → Result Error (Option Journal) → Manager → W → (Manager × Result Error Response) × W
  start now (err e) m w = ((m, err e), w)
  start now (ok none) m w = ((m, ok unchanged), w)
  start now (ok (some j)) m w = save_record now j m (b.save j w)

  unfoldable pub begin :
      ℕ → Result String (List ℕ) → LanSettings → Manager → W → (Manager × Result Error Response) × W
  begin now random proposed m w = start now (prepare random proposed m w) m w

  -- `rollback_locked`, after the previous settings were applied, or not.
  unfoldable pub restored : Journal → Manager → Result String (Unit {0}) × W → Manager × W
  restored j m (err e, w) = (with_error (restoration_failed e) m, w)
  restored j m (ok _, w) =
      let m1 = rebind j.previous.ipaddr m in
      let (r, w') = b.clear w in
      (elim r [ ok _ ↦ record m1 { pending = none } | err e ↦ with_error (not_cleared e) m1 ], w')

  unfoldable pub rollback_of : Option Pending → Manager → W → Manager × W
  rollback_of none m w = (m, w)
  rollback_of (some p) m w = restored p.journal m (b.apply p.journal.previous w)

  unfoldable pub rollback_locked : Manager → W → Manager × W
  rollback_locked m w = rollback_of m.pending m w

  unfoldable pub apply_done : Pending → Manager → Result String (Unit {0}) × W → Manager × W
  apply_done p m (ok _, w) = (
    record (rebind p.journal.proposed.ipaddr m) { pending = some (record p { applied = true }) },
    w,
  )
  apply_done p m (err e, w) = rollback_locked (with_error (backend e) m) w

  unfoldable pub apply_of : Option Pending → Manager → W → Manager × W
  apply_of none m w = (m, w)
  apply_of (some p) m w = apply_done p m (b.apply p.journal.proposed w)

  unfoldable pub apply_pending : Manager → W → Manager × W
  apply_pending m w = apply_of m.pending m w

  -- The answer is whether the thread goes on waiting.
  unfoldable pub expire_of : ℕ → Option Pending → Manager → W → (Manager × Bool) × W
  expire_of now none m w = ((m, false), w)
  expire_of now (some p) m w =
      let (m', w') = rollback_locked (with_error not_confirmed m) w in
      if leb p.deadline now then ((m', false), w') else ((m, true), w)

  unfoldable pub expire : ℕ → Manager → W → (Manager × Bool) × W
  expire now m w = expire_of now m.pending m w

  -- The retry after a lost acknowledgement: `Ok(true)` answers at once.
  unfoldable pub confirmed_before : List ℕ → Option Pending → Option Journal → W → Result Error Bool
  confirmed_before token (some p) confirmed w = ok false
  confirmed_before token none none w = ok false
  confirmed_before token none (some j) w =
      if str_eq token j.token
      then and_then (map_err backend (b.read w)) (λ s. ok (settings_eq s j.proposed))
      else ok false

  -- The pending change that may be confirmed.
  unfoldable pub confirmable : List ℕ → ℕ → Option Pending → W → Result Error Pending
  confirmable token now none w = err nothing_pending
  confirmable token now (some p) w =
      if not p.applied || (leb p.deadline now || not (str_eq token p.journal.token))
      then err invalid_or_expired
      else and_then (map_err backend (b.read w))
          (λ s. if settings_eq s p.journal.proposed then ok p else err no_match)

  unfoldable pub confirm_clear :
      Journal → Manager → Result String (Unit {0}) × W → (Manager × Result Error (Unit {0})) × W
  confirm_clear j m (err e, w) = ((m, err (backend e)), w)
  confirm_clear j m (ok _, w) = ((finished j m, ok tt), w)

  unfoldable pub confirm_of :
      Result Error Pending → Manager → W → (Manager × Result Error (Unit {0})) × W
  confirm_of (err e) m w = ((m, err e), w)
  confirm_of (ok p) m w = confirm_clear p.journal m (b.clear w)

  unfoldable pub confirm_next :
      List ℕ → ℕ → Result Error Bool → Manager → W → (Manager × Result Error (Unit {0})) × W
  confirm_next token now (err e) m w = ((m, err e), w)
  confirm_next token now (ok true) m w = ((m, ok tt), w)
  confirm_next token now (ok false) m w = confirm_of (confirmable token now m.pending w) m w

  unfoldable pub confirm : List ℕ → ℕ → Manager → W → (Manager × Result Error (Unit {0})) × W
  confirm token now m w =
      confirm_next token now (confirmed_before token m.pending m.confirmed w) m w

-- The fields of `status`.
pub record Status : Type 0 where
  pub pending : Bool
  pub last_error : Option Error
  pub remaining_secs : Option ℕ

unfoldable pub remaining : ℕ → Option Pending → Option ℕ
remaining now none = none
remaining now (some p) = some ((p.deadline - now) / nanos)

pub status : ℕ → Manager → Status
status now m = record {
  pending = is_some m.pending;
  last_error = m.error;
  remaining_secs = remaining now m.pending;
}
