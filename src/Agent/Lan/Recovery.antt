-- ===== src/Agent/Lan/Recovery.antt =====
-- What any run of the manager keeps, and what a restart in the middle of it recovers.
use mu5250_open_ui.Base.{
  ℕ, ◌≡◌, refl, Bool, true, false, Option, none, some, List, String, arith, inl, inr, ◌⊎◌,
  Option-cases,
}
use mu5250_open_ui.Base.Results.{Result, ok, err, Result-cases}
use mu5250_open_ui.Agent.Lan.Settings.{LanSettings}
use mu5250_open_ui.Agent.Router.{validate_lan_settings}
use mu5250_open_ui.Agent.Lan.{
  Manager, Backend, Pending, Journal, Error, backend, not_cleared, begin, start, save_record,
  apply_pending, apply_of, expire, expire_of, confirm, confirm_next, confirm_of, confirm_clear,
  confirmable, confirmed_before, recover, recover_from, recover_clear, recovered, set_binding,
  prepare,
}
use mu5250_open_ui.Agent.Lan.Rollback.{IsFaithful, apply_outcome, expire_outcome}

module _ {W : Type 0} (b : Backend W) where
  -- One call of a method, at any time, with any arguments and random bytes.
  pub data Step : Manager × W → Manager × W → Type 0 where
    begins :
        (now : ℕ) (random : Result String (List ℕ)) (proposed : LanSettings) (m : Manager) (w : W)
        → Step (m, w) ((begin b now random proposed m w).0.0, (begin b now random proposed m w).1)
    applies : (m : Manager) (w : W) → Step (m, w) (apply_pending b m w)
    expires :
        (now : ℕ) (m : Manager) (w : W) → Step (m, w) ((expire b now m w).0.0, (expire b now m w).1)
    confirms :
        (token : List ℕ) (now : ℕ) (m : Manager) (w : W)
        → Step (m, w) ((confirm b token now m w).0.0, (confirm b token now m w).1)

  pub data Reach (first : Manager × W) : Manager × W → Type 0 where
    here : Reach first first
    then_step : {x y : Manager × W} → Reach first x → Step x y → Reach first y

  -- The call reported that the record could not be removed.
  abbrev pub Fails : {x y : Manager × W} → Step x y → Type 0
  Fails (begins now random proposed m w) = ⊥
  Fails (applies m w) = (e : String) × ((apply_pending b m w).0.error ≡ some (not_cleared e))
  Fails (expires now m w) = (e : String) × ((expire b now m w).0.0.error ≡ some (not_cleared e))
  Fails (confirms token now m w) =
      (e : String) × ((b.clear w).0 ≡ err e) × ((confirm b token now m w).0.1 ≡ err (backend e))

  -- One of the calls did.
  abbrev pub HasFailed : {x y : Manager × W} → Reach x y → Type 0
  HasFailed here = ⊥
  HasFailed (then_step r s) = HasFailed r ⊎ Fails s

  -- While a change is pending, its record is saved.
  abbrev pub IsRecorded : Manager × W → Type 0
  IsRecorded x = (p : Pending) → x.0.pending ≡ some p → b.load x.1 ≡ ok (some p.journal)

  prepare-none :
      (random : Result String (List ℕ)) (proposed : LanSettings) (m : Manager) (w : W) {j : Journal}
      → prepare b random proposed m w ≡ ok (some j)
      → m.pending ≡ none
  unfolding prepare
  prepare-none random proposed m w h = elim (Option-cases m.pending) [
    | inl x ↦ x
    | inr (p, x) ↦ absurd (ground arith)
  ]

  module _ (f : IsFaithful b) where
    start-IsRecorded :
        (now : ℕ) (r : Result Error (Option Journal)) (m : Manager) (w : W)
        → ((j : Journal) → r ≡ ok (some j) → m.pending ≡ none)
        → IsRecorded (m, w)
        → IsRecorded ((start b now r m w).0.0, (start b now r m w).1)
    unfolding start save_record
    start-IsRecorded now (err e) m w free h p k = h p k
    start-IsRecorded now (ok none) m w free h p k = h p k
    start-IsRecorded now (ok (some j)) m w free h p k = ground (arith, free j refl, f.load-save j w)

    begin-IsRecorded :
        (now : ℕ) (random : Result String (List ℕ)) (proposed : LanSettings) (m : Manager) (w : W)
        → IsRecorded (m, w)
        → IsRecorded ((begin b now random proposed m w).0.0, (begin b now random proposed m w).1)
    unfolding begin
    begin-IsRecorded now random proposed m w h =
        start-IsRecorded now (prepare b random proposed m w) m w
          (λ j e. prepare-none random proposed m w e) h

    apply-IsRecorded :
        (m : Manager) (w : W)
        → IsRecorded (m, w)
        → IsRecorded (apply_pending b m w) ⊎ Fails (applies m w)
    apply-IsRecorded m w h = elim (Option-cases m.pending) [
      | inl x ↦ inl (λ p k. absurd (unfold apply_pending apply_of in ground arith))
      | inr (q, x) ↦ elim (apply_outcome b f q m w x (h q x)) [
        | inl a ↦ inl (λ p k. ground (arith, a.waits, a.recorded, k))
        | inr (inl a) ↦ inl (λ p k. absurd (ground (arith, a.ended, k)))
        | inr (inr a) ↦ elim a.cause [
          | inl (e, _, _, l) ↦ inl (λ p k. ground (arith, a.still_pending, l, k))
          | inr (e, _, failed, _, _) ↦ inr (e, failed)
        ]
      ]
    ]

    expire-IsRecorded :
        (now : ℕ) (m : Manager) (w : W)
        → IsRecorded (m, w)
        → IsRecorded ((expire b now m w).0.0, (expire b now m w).1) ⊎ Fails (expires now m w)
    expire-IsRecorded now m w h = elim (Option-cases m.pending) [
      | inl x ↦ inl (λ p k. absurd (unfold expire expire_of in ground arith))
      | inr (q, x) ↦ elim (expire_outcome b f q now m w x (h q x)) [
        | inl (_, e) ↦ inl (λ p k. ground (arith, e, h q x))
        | inr (_, _, inl a) ↦ inl (λ p k. absurd (ground (arith, a.ended, k)))
        | inr (_, _, inr a) ↦ elim a.cause [
          | inl (e, _, _, l) ↦ inl (λ p k. ground (arith, a.still_pending, l, k))
          | inr (e, _, failed, _, _) ↦ inr (e, failed)
        ]
      ]
    ]

    confirm_of-IsRecorded :
        (r : Result Error Pending) (m : Manager) (w : W)
        → IsRecorded (m, w)
        → IsRecorded ((confirm_of b r m w).0.0, (confirm_of b r m w).1)
          ⊎ ((e : String) × ((b.clear w).0 ≡ err e) × ((confirm_of b r m w).0.1 ≡ err (backend e)))
    unfolding confirm_of confirm_clear
    confirm_of-IsRecorded (err e) m w h = inl h
    confirm_of-IsRecorded (ok q) m w h = elim (Result-cases (b.clear w).0) [
      | inl (_, x) ↦ inl (λ p k. absurd (ground arith))
      | inr (e, x) ↦ inr (e, x, ground arith)
    ]

    confirm_next-IsRecorded :
        (token : List ℕ) (now : ℕ) (r : Result Error Bool) (m : Manager) (w : W)
        → IsRecorded (m, w)
        → IsRecorded ((confirm_next b token now r m w).0.0, (confirm_next b token now r m w).1)
          ⊎ ((e : String) × ((b.clear w).0 ≡ err e)
              × ((confirm_next b token now r m w).0.1 ≡ err (backend e)))
    unfolding confirm_next
    confirm_next-IsRecorded token now (err e) m w h = inl h
    confirm_next-IsRecorded token now (ok true) m w h = inl h
    confirm_next-IsRecorded token now (ok false) m w h =
        confirm_of-IsRecorded (confirmable b token now m.pending w) m w h

    confirm-IsRecorded :
        (token : List ℕ) (now : ℕ) (m : Manager) (w : W)
        → IsRecorded (m, w)
        → IsRecorded ((confirm b token now m w).0.0, (confirm b token now m w).1)
          ⊎ Fails (confirms token now m w)
    unfolding confirm
    confirm-IsRecorded token now m w h =
        confirm_next-IsRecorded token now (confirmed_before b token m.pending m.confirmed w) m w h

    Step-IsRecorded : {x y : Manager × W} (s : Step x y) → IsRecorded x → IsRecorded y ⊎ Fails s
    Step-IsRecorded (begins now random proposed m w) h =
        inl (begin-IsRecorded now random proposed m w h)
    Step-IsRecorded (applies m w) h = apply-IsRecorded m w h
    Step-IsRecorded (expires now m w) h = expire-IsRecorded now m w h
    Step-IsRecorded (confirms token now m w) h = confirm-IsRecorded token now m w h

    Reach-IsRecorded :
        {x y : Manager × W} (r : Reach x y) → IsRecorded x → IsRecorded y ⊎ HasFailed r
    Reach-IsRecorded here h = inl h
    Reach-IsRecorded (then_step r s) h = elim (Reach-IsRecorded r h) [
      | inr failed ↦ inr (inl failed)
      | inl saved ↦ elim (Step-IsRecorded s saved) [
        | inl kept ↦ inl kept
        | inr failed ↦ inr (inr failed)
      ]
    ]

    recover_sound :
        (m : Manager) (w : W) (j : Journal)
        → b.load w ≡ ok (some j)
        → (recover b m w).0.error ≡ none
        → ((recover b m w).0.pending ≡ none)
          × (b.read (recover b m w).1 ≡ ok j.previous)
          × ((recover b m w).0.binding ≡ set_binding j.previous.ipaddr m.binding)
    unfolding recover recover_from recover_clear recovered
    recover_sound m w j l quiet = elim (Result-cases (validate_lan_settings j.previous)) [
      | inr (e, x) ↦ absurd (ground arith)
      | inl (_, x) ↦ elim (Result-cases (b.apply j.previous w).0) [
        | inr (e, y) ↦ absurd (ground arith)
        | inl (_, y) ↦
            let w1 = (b.apply j.previous w).1 in
            elim (Result-cases (b.clear w1).0) [
              | inr (e, z) ↦ absurd (ground arith)
              | inl (_, z) ↦ (
                ground arith,
                ground (arith, f.read-clear w1, f.read-apply j.previous w),
                ground arith,
              )
            ]
      ]
    ]

    -- On a faithful backend, after any calls of the methods from a state with no pending change,
    -- a restart in the middle of a pending change, whether it was applied or not, recovers the
    -- settings from before it, unless one of the calls reported that the record could not be removed:
    -- a recovery that reports no error leaves these settings in force, nothing pending, and the binding
    -- set to their address.
    pub restart_restores :
        (first m fresh : Manager) (w0 w : W) (p : Pending)
        → first.pending ≡ none
        → (r : Reach (first, w0) (m, w)) → m.pending ≡ some p
        → (recover b fresh w).0.error ≡ none
        → (((recover b fresh w).0.pending ≡ none)
            × (b.read (recover b fresh w).1 ≡ ok p.journal.previous)
            × ((recover b fresh w).0.binding ≡ set_binding p.journal.previous.ipaddr fresh.binding))
          ⊎ HasFailed r
    restart_restores first m fresh w0 w p idle r k quiet =
        elim (Reach-IsRecorded r (λ q e. absurd (ground (arith, idle, e)))) [
          | inl saved ↦ inl (recover_sound fresh w p.journal (saved p k) quiet)
          | inr failed ↦ inr failed
        ]
