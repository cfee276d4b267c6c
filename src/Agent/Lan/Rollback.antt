-- ===== src/Agent/Lan/Rollback.antt =====
-- Applying, rolling back and expiring: what the firmware, the listener and the record are left with.
use mu5250_open_ui.Base.{
  ap, Bool-cases, leb, leb→le, leb_false→lt, ℕ, ◌<◌, ◌≤◌, ◌≡◌, refl, ◌∙◌, true, false, none, some,
  String, arith, inl, inr, ◌⊎◌,
}
use mu5250_open_ui.Base.Results.{ok, err, Result-cases}
use mu5250_open_ui.Agent.Lan.Settings.{LanSettings}
use mu5250_open_ui.Agent.Lan.{
  Manager, Binding, Backend, Pending, Journal, backend, not_cleared, restoration_failed,
  not_confirmed, restored, rollback_of, rollback_locked, apply_done, apply_of, apply_pending,
  expire_of, expire, rebind, set_binding, with_error,
}

-- What the code relies on of the firmware and of the file system: applied settings are read back,
-- a saved record is loaded again, and the two do not touch each other. Of a removal that fails nothing is
-- assumed: the record may be there or gone.
pub record IsFaithful {W : Type 0} (b : Backend W) : Type 0 where
  pub read-apply :
      (s : LanSettings) (w : W) → (b.apply s w).0 ≡ ok tt → b.read (b.apply s w).1 ≡ ok s
  pub read-clear : (w : W) → b.read (b.clear w).1 ≡ b.read w
  pub load-save :
      (j : Journal) (w : W) → (b.save j w).0 ≡ ok tt → b.load (b.save j w).1 ≡ ok (some j)
  pub load-apply : (s : LanSettings) (w : W) → b.load (b.apply s w).1 ≡ b.load w

-- The change is over: the previous settings are in force and the listener follows them.
pub record IsRestored {W : Type 0} (b : Backend W) (j : Journal) (bound : Binding) (m' : Manager)
    (w : W) : Type 0 where
  pub ended : m'.pending ≡ none
  pub in_force : b.read w ≡ ok j.previous
  pub listens : m'.binding ≡ set_binding j.previous.ipaddr bound

-- The change is still pending, and the error says why. Either the previous settings could not be applied at
-- `w`, and the record is still saved; or they are in force and the listener follows them, and the record
-- could not be removed.
pub record IsKept {W : Type 0} (b : Backend W) (p : Pending) (bound : Binding) (at : W)
    (m' : Manager) (w : W) : Type 0 where
  pub still_pending : m'.pending ≡ some p
  pub cause :
      ((e : String) × ((b.apply p.journal.previous at).0 ≡ err e)
        × (m'.error ≡ some (restoration_failed e))
        × (b.load w ≡ ok (some p.journal)))
      ⊎ ((e : String) × ((b.clear (b.apply p.journal.previous at).1).0 ≡ err e)
          × (m'.error ≡ some (not_cleared e))
          × (b.read w ≡ ok p.journal.previous)
          × (m'.binding ≡ set_binding p.journal.previous.ipaddr bound))

-- The change is in force: the settings are the proposed ones, the listener follows them, and the
-- record of the previous ones is still saved.
pub record IsApplied {W : Type 0} (b : Backend W) (p : Pending) (bound : Binding) (m' : Manager)
    (w : W) : Type 0 where
  pub waits : m'.pending ≡ some (record p { applied = true })
  pub in_force : b.read w ≡ ok p.journal.proposed
  pub listens : m'.binding ≡ set_binding p.journal.proposed.ipaddr bound
  pub recorded : b.load w ≡ ok (some p.journal)

module _ {W : Type 0} (b : Backend W) (f : IsFaithful b) (p : Pending) where
  pub rollback_sound :
      (m : Manager) (w : W)
      → m.pending ≡ some p
      → b.load w ≡ ok (some p.journal)
      → IsRestored b p.journal m.binding (rollback_locked b m w).0 (rollback_locked b m w).1
        ⊎ IsKept b p m.binding w (rollback_locked b m w).0 (rollback_locked b m w).1
  unfolding rollback_locked rollback_of restored
  rollback_sound m w h l =
      let j = p.journal in
      let w1 = (b.apply j.previous w).1 in
      elim (Result-cases (b.apply j.previous w).0) [
        | inr (e, x) ↦ inr (record {
          still_pending = ground arith;
          cause = inl (e, x, ground arith, ground (arith, f.load-apply j.previous w));
        })
        | inl (_, x) ↦ elim (Result-cases (b.clear w1).0) [
          | inr (e, y) ↦ inr (record {
            still_pending = ground arith;
            cause = inr (
              e,
              y,
              ground arith,
              ground (arith, f.read-clear w1, f.read-apply j.previous w),
              ground arith,
            );
          })
          | inl (_, y) ↦ inl (record {
            ended = ground arith;
            in_force = ground (arith, f.read-clear w1, f.read-apply j.previous w);
            listens = ground arith;
          })
        ]
      ]

  apply_accepted :
      (m : Manager) (w : W)
      → m.pending ≡ some p
      → (b.apply p.journal.proposed w).0 ≡ ok tt
      → apply_pending b m w ≡ (
        record (rebind p.journal.proposed.ipaddr m) {
          pending = some (record p { applied = true });
        },
        (b.apply p.journal.proposed w).1,
      )
  unfolding apply_pending apply_of apply_done
  apply_accepted m w h x = ground arith

  apply_refused :
      (m : Manager) (w : W) (e : String)
      → m.pending ≡ some p
      → (b.apply p.journal.proposed w).0 ≡ err e
      → apply_pending b m w
        ≡ rollback_locked b (with_error (backend e) m) (b.apply p.journal.proposed w).1
  unfolding apply_pending apply_of apply_done
  apply_refused m w e h x = ground arith

  expire_due :
      (now : ℕ) (m : Manager) (w : W)
      → m.pending ≡ some p
      → p.deadline ≤ now
      → expire b now m w ≡ (
        ((rollback_locked b (with_error not_confirmed m) w).0, false),
        (rollback_locked b (with_error not_confirmed m) w).1,
      )
  unfolding expire expire_of
  expire_due now m w h late = ground arith

  expire_early :
      (now : ℕ) (m : Manager) (w : W)
      → m.pending ≡ some p
      → now < p.deadline
      → expire b now m w ≡ ((m, true), w)
  unfolding expire expire_of
  expire_early now m w h early = ground arith

  -- On a faithful backend, applying a pending change whose record is saved has one of three ends:
  -- the change is in force, the binding is set to its address, and it waits for its confirmation;
  -- or the firmware refused it, the previous settings are in force again and nothing is pending;
  -- or the change is still pending, with the cause reported: the previous settings could not be restored,
  -- and the record is still saved, or they are in force, and the record could not be removed.
  pub apply_outcome :
      (m : Manager) (w : W)
      → m.pending ≡ some p
      → b.load w ≡ ok (some p.journal)
      → IsApplied b p m.binding (apply_pending b m w).0 (apply_pending b m w).1
        ⊎ (IsRestored b p.journal m.binding (apply_pending b m w).0 (apply_pending b m w).1
            ⊎ IsKept b p m.binding
                (b.apply p.journal.proposed w).1
                (apply_pending b m w).0
                (apply_pending b m w).1)
  apply_outcome m w h l =
      let j = p.journal in
      let w1 = (b.apply j.proposed w).1 in
      elim (Result-cases (b.apply j.proposed w).0) [
        | inl (_, x) ↦ rw (apply_accepted m w h x) (
            inl (record {
              waits = refl;
              in_force = f.read-apply j.proposed w x;
              listens = refl;
              recorded = f.load-apply j.proposed w ∙ l;
            }))
        | inr (e, x) ↦
            rw (apply_refused m w e h x)
              (inr (rollback_sound (with_error (backend e) m) w1 h (f.load-apply j.proposed w ∙ l)))
      ]

  -- On a faithful backend, a pending change whose record is saved waits, untouched, until its
  -- deadline. From then on it is rolled back, and the thread stops: either the previous settings
  -- are in force, the binding is set to their address and nothing is pending, or the change is
  -- still pending, with the cause reported: they could not be restored, and the record is still saved,
  -- or they are in force, and the record could not be removed.
  pub expire_outcome :
      (now : ℕ) (m : Manager) (w : W)
      → m.pending ≡ some p
      → b.load w ≡ ok (some p.journal)
      → ((now < p.deadline) × (expire b now m w ≡ ((m, true), w)))
        ⊎ ((p.deadline ≤ now)
            × ((expire b now m w).0.1 ≡ false)
            × (IsRestored b p.journal m.binding (expire b now m w).0.0 (expire b now m w).1
                ⊎ IsKept b p m.binding w (expire b now m w).0.0 (expire b now m w).1))
  expire_outcome now m w h l = elim (Bool-cases (leb p.deadline now)) [
    | inr x ↦ let early = leb_false→lt p.deadline now x in inl (early, expire_early now m w h early)
    | inl x ↦
        let late = leb→le p.deadline now x in
        let due = expire_due now m w h late in
        inr (late, ap (λ r. r.0.1) due, rw due (rollback_sound (with_error not_confirmed m) w h l))
  ]
