-- ===== src/Agent/ChargePolicy/Update.antt =====
-- `update`: what a successful and what a failed change leave.
use mu5250_open_ui.Base.{◌≡◌, Bool, true, false, String, arith, inl, inr}
use mu5250_open_ui.Base.Results.{Result, ok, err, Result-cases}
use mu5250_open_ui.Agent.ChargePolicy.{
  Persisted, ChargeUpdate, Snapshot, Error, not_applied, not_saved, LimitState, Charger, desired,
  in_range, merged, updated, saved, applied, change, update, unwrap_or,
}

-- What the code relies on of the hardware behind the trait: a charger that confirms a command is then
-- read as commanded, and saving the policy does not switch it.
pub record IsFaithful {W : Type 0} (c : Charger W) : Type 0 where
  pub read_back :
      (b : Bool) (w : W) (snap : Snapshot)
      → (c.set_stopped b w).0 ≡ ok tt
      → c.snapshot (c.set_stopped b w).1 ≡ ok snap
      → snap.stopped ≡ b
  pub saving : (p : Persisted) (w : W) → c.snapshot (c.persist p w).1 ≡ c.snapshot w

module _ {W : Type 0} (c : Charger W) (u : ChargeUpdate) (s : LimitState) (w : W) where
  -- A change that fails, whatever step failed, leaves the policy and the manual override as they were.
  pub update_failure_keeps :
      {e : Error}
      → (update c u s w).0.1 ≡ err e
      → ((update c u s w).0.0.policy ≡ s.policy)
        × ((update c u s w).0.0.manual_override ≡ s.manual_override)
  unfolding update change applied saved
  update_failure_keeps h = ground arith

  -- A change that succeeds has the merged policy, in range and with no error left; and the charger
  -- has confirmed what the user asked, or else what the new policy wants.
  pub update_success :
      (update c u s w).0.1 ≡ ok tt
      → ((update c u s w).0.0 ≡ updated u s)
        × (in_range (merged u s.policy) ≡ true)
        × ((before : Snapshot) × (c.snapshot w ≡ ok before)
            × ((c.set_stopped
                  (unwrap_or u.charging_stopped (desired (merged u s.policy) before))
                  w).0
                ≡ ok tt))
  unfolding update change applied saved
  update_success h = elim (Result-cases (c.snapshot w)) [
    | inr (e, x) ↦ absurd (ground arith)
    | inl (before, x) ↦ (ground arith, ground arith, (before, x, ground arith))
  ]

-- The error says that the charger was set back.
abbrev pub says_restored : Error → Bool
says_restored (not_applied e (ok u)) = true
says_restored (not_saved e (ok u) storage) = true
says_restored _ = false

module _ {W : Type 0} (c : Charger W) (f : IsFaithful c) (u : ChargeUpdate) (s : LimitState) where
  applied_restores :
      (before snap : Snapshot) (r : Result String (Unit {0}) × W) {e : Error}
      → (applied c u before s r).0.1 ≡ err e
      → says_restored e ≡ true
      → c.snapshot (applied c u before s r).1 ≡ ok snap
      → snap.stopped ≡ before.stopped
  unfolding applied saved
  applied_restores before snap (err e0, w) h t k =
      f.read_back before.stopped w snap (ground arith) (ground arith)
  applied_restores before snap (ok _, w) h t k =
      let w1 = (c.persist (merged u s.policy) w).1 in
      let w2 = (c.set_stopped before.stopped w1).1 in
      f.read_back before.stopped w1 snap (ground arith) (ground (arith, f.saving s.policy w2))

  -- Where a change fails after the charger was touched, and the error says that the charger was
  -- set back, the charger is read as it was before, for hardware that does what it confirms and
  -- that saving a policy does not switch.
  pub update_restores :
      (w : W) (before snap : Snapshot) {e : Error}
      → c.snapshot w ≡ ok before
      → (update c u s w).0.1 ≡ err e
      → says_restored e ≡ true
      → c.snapshot (update c u s w).1 ≡ ok snap
      → snap.stopped ≡ before.stopped
  unfolding update change
  update_restores w before snap {e} x h t k =
      let r = c.set_stopped (unwrap_or u.charging_stopped (desired (merged u s.policy) before)) w in
      ground (arith, applied_restores before snap r {e = e})
