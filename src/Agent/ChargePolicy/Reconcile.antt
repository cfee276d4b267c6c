-- ===== src/Agent/ChargePolicy/Reconcile.antt =====
-- `reconcile`, the periodic enforcement, and what any sequence of calls keeps.
use mu5250_open_ui.Base.{◌≡◌, refl, Bool, true, false, none, arith, inl, inr}
use mu5250_open_ui.Base.Results.{ok, Result-cases}
use mu5250_open_ui.Agent.ChargePolicy.{
  ChargeUpdate, Snapshot, LimitState, Charger, Stored, desired, in_range, reconciled, enforce,
  reconcile, bool_eq, update, new, load,
}
use mu5250_open_ui.Agent.ChargePolicy.Desired.{desired_stable}
use mu5250_open_ui.Agent.ChargePolicy.Update.{IsFaithful, update_success, update_failure_keeps}

loaded : (stored : Stored) → in_range (new stored).policy ≡ true
unfolding new load in_range
loaded (Stored.parsed p) = ground arith
loaded _ = refl

module _ {W : Type 0} (c : Charger W) where
  bool_eq_sound : (a b : Bool) → bool_eq a b ≡ true → a ≡ b
  unfolding bool_eq
  bool_eq_sound a b h = ground arith

  -- A round with the limit enabled, no manual override and the charger connected that reports no error
  -- leaves the charger as the policy decides for the battery that it read, for hardware that does what
  -- it confirms.
  pub reconcile_enforces :
      IsFaithful c
      → (s : LimitState) (w : W) (snap after : Snapshot) → s.policy.enabled ≡ true
      → s.manual_override ≡ false
      → c.snapshot w ≡ ok snap
      → (reconcile c false s w).0.last_error ≡ none
      → c.snapshot (reconcile c false s w).1 ≡ ok after
      → after.stopped ≡ desired s.policy snap
  unfolding reconcile enforce reconciled bool_eq
  reconcile_enforces f s w snap after on auto x quiet k =
      ground (arith, f.read_back (desired s.policy snap) w after)

  -- Unplugging the charger ends a stop and a manual override, whatever the policy is, when the
  -- round reports no error, for hardware that does what it confirms.
  pub reconcile_unplugged :
      IsFaithful c
      → (s : LimitState) (w : W) (after : Snapshot) → (reconcile c true s w).0.last_error ≡ none
      → c.snapshot (reconcile c true s w).1 ≡ ok after
      → (after.stopped ≡ false) × ((reconcile c true s w).0.manual_override ≡ false)
  unfolding reconcile enforce reconciled bool_eq
  reconcile_unplugged f s w after quiet k = elim (Result-cases (c.snapshot w)) [
    | inr (e, x) ↦ absurd (ground arith)
    | inl (snap, x) ↦ (ground (arith, f.read_back false w after), ground arith)
  ]

  -- After a round that reports no error, a second one on an unchanged battery, with the charger
  -- as the first one decided, changes nothing: neither the state nor the world.
  pub reconcile_stable :
      (s : LimitState) (w : W) (snap : Snapshot)
      → c.snapshot w ≡ ok snap
      → (reconcile c false s w).0.last_error ≡ none
      → c.snapshot (reconcile c false s w).1 ≡ ok (record snap { stopped = desired s.policy snap })
      → reconcile c false (reconcile c false s w).0 (reconcile c false s w).1
        ≡ reconcile c false s w
  unfolding reconcile enforce reconciled bool_eq
  reconcile_stable s w snap x quiet k = ground (arith, desired_stable s.policy snap)

  -- One call of a method that changes the enforcer, on any hardware.
  pub data Step : LimitState × W → LimitState × W → Type 0 where
    tick : (unplugged : Bool) (s : LimitState) (w : W) → Step (s, w) (reconcile c unplugged s w)
    change_policy :
        (u : ChargeUpdate) (s : LimitState) (w : W)
        → Step (s, w) ((update c u s w).0.0, (update c u s w).1)

  pub data Reach (start : LimitState × W) : LimitState × W → Type 0 where
    here : Reach start start
    then_step : {x y : LimitState × W} → Reach start x → Step x y → Reach start y

  policy-reconcile :
      (unplugged : Bool) (s : LimitState) (w : W) → (reconcile c unplugged s w).0.policy ≡ s.policy
  unfolding reconcile enforce reconciled
  policy-reconcile unplugged s w = ground arith

  in_range-update :
      (u : ChargeUpdate) (s : LimitState) (w : W)
      → in_range s.policy ≡ true
      → in_range (update c u s w).0.0.policy ≡ true
  in_range-update u s w h = elim (Result-cases (update c u s w).0.1) [
    | inl (_, e) ↦ let (new_state, ok_range, _) = update_success c u s w e in rw new_state ok_range
    | inr (x, e) ↦ rw (update_failure_keeps c u s w e).0 h
  ]

  Step-in_range :
      {x y : LimitState × W} → Step x y → in_range x.0.policy ≡ true → in_range y.0.policy ≡ true
  Step-in_range (tick unplugged s w) h = rw (policy-reconcile unplugged s w) h
  Step-in_range (change_policy u s w) h = in_range-update u s w h

  Reach-in_range :
      {x y : LimitState × W} → Reach x y → in_range x.0.policy ≡ true → in_range y.0.policy ≡ true
  Reach-in_range here h = h
  Reach-in_range (then_step r st) h = Step-in_range st (Reach-in_range r h)

  -- From whatever was stored at boot and after any calls, the policy in force is in range: a limit of
  -- 50 to 100 percent and a hysteresis of 1 to 20.
  pub policy_in_range :
      (stored : Stored) (w : W) {y : LimitState × W}
      → Reach (new stored, w) y
      → in_range y.0.policy ≡ true
  policy_in_range stored w r = Reach-in_range r (loaded stored)
