-- ===== src/Agent/ChargePolicy/Tests.antt =====
-- The enforcer on a charger that does what it is told, as the source's own tests set it up, and on
-- one that cannot save its policy; and the theorems at them.
use mu5250_open_ui.Base.{ℕ, ◌≡◌, refl, Bool, true, false, none, some, arith}
use mu5250_open_ui.Base.Results.{ok, err}
use mu5250_open_ui.Agent.ChargePolicy.{
  Persisted, ChargeUpdate, Snapshot, LimitState, Charger, Stored, desired, in_range, update,
  reconcile, not_saved, new, reconciled, enforce, change, applied, saved, bool_eq,
}
use mu5250_open_ui.Agent.ChargePolicy.Update.{IsFaithful, update_restores}
use mu5250_open_ui.Agent.ChargePolicy.Reconcile.{
  reconcile_enforces, policy_in_range, here, then_step, tick,
}
use mu5250_open_ui.Agent.ChargePolicy.Hardware.{Ubus, Mode}

abbrev good : Charger Snapshot
good = record {
  snapshot = λ w. ok w;
  set_stopped = λ b w. (ok tt, record w { stopped = b });
  persist = λ p w. (ok tt, w);
}

abbrev full_disk : Charger Snapshot
full_disk = record {
  snapshot = λ w. ok w;
  set_stopped = λ b w. (ok tt, record w { stopped = b });
  persist = λ p w. (err "storage full", w);
}

good-IsFaithful : IsFaithful good
good-IsFaithful = record { read_back = λ b w snap h k. ground arith; saving = λ p w. refl }

full_disk-IsFaithful : IsFaithful full_disk
full_disk-IsFaithful = record { read_back = λ b w snap h k. ground arith; saving = λ p w. refl }

abbrev policy : Persisted
policy = record { enabled = true; limit = 80; hysteresis = 5 }

abbrev battery : ℕ → Bool → Snapshot
battery capacity stopped = record { stopped = stopped; capacity = capacity; discharging = false }

abbrev state : LimitState
state = record { policy = policy; manual_override = false; last_error = none }

abbrev lower : ChargeUpdate
lower = record {
  charging_stopped = none;
  charge_limit_enabled = none;
  charge_limit = some 70;
  hysteresis = none;
}

save_fails :
    (update full_disk lower state (battery 90 false)).0.1
    ≡ err (not_saved "storage full" (ok tt) (err "storage full"))
unfolding update change applied saved in_range
save_fails = refl

update_restores_example : false ≡ (battery 90 false).stopped
update_restores_example =
    update_restores full_disk full_disk-IsFaithful lower state (battery 90 false) (battery 90 false)
      (battery 90 false) refl save_fails refl (unfold update change applied saved in_range in refl)

reconcile_enforces_example : true ≡ desired policy (battery 90 false)
reconcile_enforces_example =
    reconcile_enforces good good-IsFaithful state (battery 90 false) (battery 90 false)
      (battery 90 true) refl refl refl (unfold reconcile enforce reconciled desired bool_eq in refl)
      (unfold reconcile enforce desired reconciled bool_eq in refl)

policy_in_range_example :
    in_range (reconcile good true (new (Stored.parsed policy)) (battery 90 true)).0.policy ≡ true
policy_in_range_example =
    policy_in_range good (Stored.parsed policy) (battery 90 true)
      (then_step here (tick true (new (Stored.parsed policy)) (battery 90 true)))

abbrev bus : Ubus Mode
bus = record { list = λ w. (ok w, w); set = λ m w. (ok tt, m); sleep = λ w. w }
