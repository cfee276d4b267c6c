-- ===== src/Agent/ChargePolicy/Desired.antt =====
-- The charging decision on its own: hysteresis without oscillation.
use mu5250_open_ui.Base.{
  ℕ, ◌-◌, ◌≤◌, ◌<◌, ◌≡◌, true, false, arith, leb, leb→le, leb_false→lt, Bool-cases, inl, inr, ◌⊎◌,
}
use mu5250_open_ui.Agent.ChargePolicy.{Persisted, Snapshot, desired}

-- The decision is stable: once the charger is as decided, the same battery reading gives the same
-- decision again, so enforcement does not oscillate.
pub desired_stable :
    (p : Persisted) (snap : Snapshot)
    → desired p (record snap { stopped = desired p snap }) ≡ desired p snap
unfolding desired
desired_stable p snap = ground arith

-- A decision to stop stays one for a fuller battery, all else being equal.
pub desired_mono :
    (p : Persisted) (snap : Snapshot) (more : ℕ)
    → snap.capacity ≤ more
    → desired p snap ≡ true
    → desired p (record snap { capacity = more }) ≡ true
unfolding desired
desired_mono p snap more h e = ground arith

-- With enforcement on and a battery that is not discharging: at the limit the decision is to
-- stop, `hysteresis` below the limit it is to charge, and in between it leaves the charger as it
-- is.
pub desired_bands :
    (p : Persisted) (snap : Snapshot)
    → p.enabled ≡ true
    → snap.discharging ≡ false
    → ((p.limit ≤ snap.capacity) × (desired p snap ≡ true))
      ⊎ (((snap.capacity < p.limit)
            × (snap.capacity ≤ p.limit - p.hysteresis)
            × (desired p snap ≡ false))
          ⊎ ((snap.capacity < p.limit)
              × (p.limit - p.hysteresis < snap.capacity)
              × (desired p snap ≡ snap.stopped)))
unfolding desired
desired_bands p snap on d = elim (Bool-cases (leb p.limit snap.capacity)) [
  | inl x ↦ let h = leb→le p.limit snap.capacity x in inl (h, ground arith)
  | inr x ↦
      let h = leb_false→lt p.limit snap.capacity x in
      elim (Bool-cases (leb snap.capacity (p.limit - p.hysteresis))) [
        | inl y ↦
            let k = leb→le snap.capacity (p.limit - p.hysteresis) y in
            inr (inl (h, k, ground arith))
        | inr y ↦
            let k = leb_false→lt snap.capacity (p.limit - p.hysteresis) y in
            inr (inr (h, k, ground arith))
      ]
]
