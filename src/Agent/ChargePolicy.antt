-- ===== src/Agent/ChargePolicy.antt =====
-- agent/src/charge_policy.rs: the charge-limit enforcer, over the trait `Charger`.
-- One lock guards every change, so the methods run one at a time: each takes the enforcer's state and
-- the world behind the trait, and returns both. Error texts are values, with the errors of the trait
-- as texts within them.
mod Desired
mod Update
mod Reconcile
pub mod Hardware
mod Tests
use mu5250_open_ui.Base.{
  ℕ, ◌-◌, Bool, true, false, not, ◌&&◌, ◌||◌, Option, none, some, String, leb, ◌==◌, if◌then◌else◌,
}
use mu5250_open_ui.Base.Results.{Result, ok, err, error_of}

pub record Persisted : Type 0 where
  pub enabled : Bool
  pub limit : ℕ
  pub hysteresis : ℕ

pub record ChargeUpdate : Type 0 where
  pub charging_stopped : Option Bool
  pub charge_limit_enabled : Option Bool
  pub charge_limit : Option ℕ
  pub hysteresis : Option ℕ

pub record Snapshot : Type 0 where
  pub stopped : Bool
  pub capacity : ℕ
  pub discharging : Bool

-- The texts of the errors, with the results that they quote.
pub data Error : Type 0 where
  hardware : String → Error
  not_applied : String → Result String (Unit {0}) → Error
  not_saved : String → Result String (Unit {0}) → Result String (Unit {0}) → Error
  field_required out_of_range invalid_saved : Error
  reading_policy : String → Error

pub record LimitState : Type 0 where
  pub policy : Persisted
  pub manual_override : Bool
  pub last_error : Option Error

-- The trait: what it does to the world `W` behind it.
pub record Charger (W : Type 0) : Type 0 where
  pub snapshot : W → Result String Snapshot
  pub set_stopped : Bool → W → Result String (Unit {0}) × W
  pub persist : Persisted → W → Result String (Unit {0}) × W

unfoldable pub desired : Persisted → Snapshot → Bool
desired policy snapshot =
    if not policy.enabled
    then false
    else if snapshot.discharging && not snapshot.stopped
    then false
    else if leb policy.limit snapshot.capacity
    then true
    else if leb snapshot.capacity (policy.limit - policy.hysteresis)
    then false
    else snapshot.stopped

-- `(50..=100).contains(&limit) && (1..=20).contains(&hysteresis)`
unfoldable pub in_range : Persisted → Bool
in_range p = (leb 50 p.limit && leb p.limit 100) && (leb 1 p.hysteresis && leb p.hysteresis 20)

-- What `new` found at the storage path: `NotFound`, another read error, text that is no policy, or a
-- policy.
pub data Stored : Type 0 where
  not_found malformed : Stored
  unreadable : String → Stored
  parsed : Persisted → Stored

abbrev pub disabled_policy : Persisted
disabled_policy = record { enabled = false; limit = 100; hysteresis = 5 }

unfoldable pub load : Stored → Persisted × Option Error
load (parsed p) = if in_range p then (p, none) else (disabled_policy, some invalid_saved)
load malformed = (disabled_policy, some invalid_saved)
load not_found = (disabled_policy, none)
load (unreadable e) = (disabled_policy, some (reading_policy e))

unfoldable pub new : Stored → LimitState
new stored =
    let (policy, last_error) = load stored in
    record { policy = policy; manual_override = false; last_error = last_error }

abbrev pub poll_active_secs : ℕ
poll_active_secs = 60

abbrev pub poll_idle_secs : ℕ
poll_idle_secs = 300

-- The interval of the loop in `start`.
unfoldable pub interval : LimitState → ℕ
interval s = if s.policy.enabled && not s.manual_override then poll_active_secs else poll_idle_secs

abbrev pub unwrap_or {ℓ} : {A : Type ℓ} → Option A → A → A
unwrap_or none d = d
unwrap_or (some a) d = a

abbrev pub is_some {ℓ} : {A : Type ℓ} → Option A → Bool
is_some none = false
is_some (some a) = true

unfoldable pub bool_eq : Bool → Bool → Bool
bool_eq true b = b
bool_eq false b = not b

abbrev pub policy_changed : ChargeUpdate → Bool
policy_changed u = is_some u.charge_limit_enabled || is_some u.charge_limit || is_some u.hysteresis

abbrev pub merged : ChargeUpdate → Persisted → Persisted
merged u p = record {
  enabled = unwrap_or u.charge_limit_enabled p.enabled;
  limit = unwrap_or u.charge_limit p.limit;
  hysteresis = unwrap_or u.hysteresis p.hysteresis;
}

-- The state after a successful update.
abbrev pub updated : ChargeUpdate → LimitState → LimitState
updated u s = record {
  policy = merged u s.policy;
  manual_override =
      unwrap_or u.charging_stopped (if policy_changed u then false else s.manual_override);
  last_error = none;
}

abbrev pub failed : Error → LimitState → LimitState
failed e s = record s { last_error = some e }

module _ {W : Type 0} (c : Charger W) where
  -- The end of the closure in `reconcile`, after the charger was left or set as desired.
  unfoldable pub reconciled : Bool → LimitState → Result String (Unit {0}) × W → LimitState × W
  reconciled unplugged s (ok u, w) = (
    record s {
      manual_override = if unplugged then false else s.manual_override;
      last_error = none;
    },
    w,
  )
  reconciled unplugged s (err e, w) = (record s { last_error = some (hardware e) }, w)

  unfoldable pub enforce : Bool → Result String Snapshot → LimitState → W → LimitState × W
  enforce unplugged (err e) s w = (record s { last_error = some (hardware e) }, w)
  enforce unplugged (ok snap) s w =
      let stopped = not unplugged && desired s.policy snap in
      reconciled unplugged s
        (if bool_eq stopped snap.stopped then (ok tt, w) else c.set_stopped stopped w)

  unfoldable pub reconcile : Bool → LimitState → W → LimitState × W
  reconcile unplugged s w =
      if not unplugged && (not s.policy.enabled || s.manual_override)
      then (s, w)
      else enforce unplugged (c.snapshot w) s w

  -- After the policy was saved, or not: a failure restores the charger and the saved policy.
  unfoldable pub saved :
      ChargeUpdate
      → Snapshot
      → LimitState
      → Result String (Unit {0}) × W
      → (LimitState × Result Error (Unit {0})) × W
  saved u before s (ok _, w) = ((updated u s, ok tt), w)
  saved u before s (err e, w) =
      let (hardware_restore, w1) = c.set_stopped before.stopped w in
      let (storage_restore, w2) = c.persist s.policy w1 in
      let error = not_saved e hardware_restore storage_restore in ((failed error s, err error), w2)

  -- After the charger was set, or not: a failure tries to set it back.
  unfoldable pub applied :
      ChargeUpdate
      → Snapshot
      → LimitState
      → Result String (Unit {0}) × W
      → (LimitState × Result Error (Unit {0})) × W
  applied u before s (err e, w) =
      let (rollback, w1) = c.set_stopped before.stopped w in
      ((failed (not_applied e rollback) s, err (not_applied e rollback)), w1)
  applied u before s (ok _, w) =
      if policy_changed u
      then saved u before s (c.persist (merged u s.policy) w)
      else ((updated u s, ok tt), w)

  unfoldable pub change :
      ChargeUpdate
      → Result String Snapshot
      → LimitState
      → W
      → (LimitState × Result Error (Unit {0})) × W
  change u (err e) s w = ((failed (hardware e) s, err (hardware e)), w)
  change u (ok before) s w =
      let stopped = unwrap_or u.charging_stopped (desired (merged u s.policy) before) in
      applied u before s (c.set_stopped stopped w)

  unfoldable pub update : ChargeUpdate → LimitState → W → (LimitState × Result Error (Unit {0})) × W
  update u s w =
      if not (policy_changed u) && not (is_some u.charging_stopped)
      then ((s, err field_required), w)
      else if not (in_range (merged u s.policy))
      then ((s, err out_of_range), w)
      else change u (c.snapshot w) s w
