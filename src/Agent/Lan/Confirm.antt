-- ===== src/Agent/Lan/Confirm.antt =====
-- `confirm`: what a confirmation needs, and what it leaves.
use mu5250_open_ui.Base.{
  ℕ, ◌<◌, ◌≡◌, refl, ◌∙◌, Bool, true, false, Option, none, some, List, arith, inl, inr, ◌⊎◌,
  leb_false→lt,
}
use mu5250_open_ui.Base.Strings.{str_eq_iff, str_eq_self}
use mu5250_open_ui.Base.Results.{Result, ok, err, Result-cases}
use mu5250_open_ui.Agent.Lan.Settings.{settings_eq_sound, settings_eq_self}
use mu5250_open_ui.Agent.Lan.{
  Manager, Backend, Pending, Journal, Error, finished, confirm, confirm_next, confirm_of,
  confirm_clear, confirmable, confirmed_before,
}

-- A confirmation that ends a pending change.
pub record Ends {W : Type 0} (b : Backend W) (token : List ℕ) (now : ℕ) (m : Manager) (w : W)
    : Type 0 where
  pub change : Pending
  pub is_pending : m.pending ≡ some change
  pub was_applied : change.applied ≡ true
  pub in_time : now < change.deadline
  pub same_token : token ≡ change.journal.token
  pub in_force : b.read w ≡ ok change.journal.proposed
  pub cleared : (b.clear w).0 ≡ ok tt
  pub leaves : confirm b token now m w ≡ ((finished change.journal m, ok tt), (b.clear w).1)

-- A confirmation that repeats the last one.
pub record Repeats {W : Type 0} (b : Backend W) (token : List ℕ) (now : ℕ) (m : Manager) (w : W)
    : Type 0 where
  pub journal : Journal
  pub none_pending : m.pending ≡ none
  pub was_confirmed : m.confirmed ≡ some journal
  pub same_token : token ≡ journal.token
  pub in_force : b.read w ≡ ok journal.proposed
  pub keeps : confirm b token now m w ≡ ((m, ok tt), w)

module _ {W : Type 0} (b : Backend W) (token : List ℕ) (now : ℕ) where
  confirmed_before_sound :
      (q : Option Pending) (c : Option Journal) (w : W)
      → confirmed_before b token q c w ≡ ok true
      → (j : Journal) × (q ≡ none) × (c ≡ some j) × (token ≡ j.token) × (b.read w ≡ ok j.proposed)
  unfolding confirmed_before
  confirmed_before_sound none (some j) w h = elim (Result-cases (b.read w)) [
    | inr (e, x) ↦ absurd (ground arith)
    | inl (s, x) ↦ (
      j,
      refl,
      refl,
      ground (arith, str_eq_iff token j.token),
      ground (arith, settings_eq_sound s j.proposed),
    )
  ]
  confirmed_before_sound none none w h = absurd (ground (arith, h))
  confirmed_before_sound (some p) c w h = absurd (ground (arith, h))

  confirmable_sound :
      (q : Option Pending) (w : W) {p : Pending}
      → confirmable b token now q w ≡ ok p
      → (q ≡ some p)
        × (p.applied ≡ true)
        × (now < p.deadline)
        × (token ≡ p.journal.token)
        × (b.read w ≡ ok p.journal.proposed)
  unfolding confirmable
  confirmable_sound none w h = absurd (ground (arith, h))
  confirmable_sound (some p) w h = elim (Result-cases (b.read w)) [
    | inr (e, x) ↦ absurd (ground arith)
    | inl (s, x) ↦ (
      ground arith,
      ground arith,
      ground (arith, leb_false→lt p.deadline now),
      ground (arith, str_eq_iff token p.journal.token),
      ground (arith, settings_eq_sound s p.journal.proposed),
    )
  ]

  confirm_of_sound :
      (r : Result Error Pending) (m : Manager) (w : W)
      → (confirm_of b r m w).0.1 ≡ ok tt
      → (p : Pending) × (r ≡ ok p)
        × ((b.clear w).0 ≡ ok tt)
        × (confirm_of b r m w ≡ ((finished p.journal m, ok tt), (b.clear w).1))
  unfolding confirm_of confirm_clear
  confirm_of_sound (err e) m w h = absurd (ground (arith, h))
  confirm_of_sound (ok p) m w h = elim (Result-cases (b.clear w).0) [
    | inr (e, x) ↦ absurd (ground arith)
    | inl (_, x) ↦ (p, refl, ground arith, ground arith)
  ]

  confirm_cases :
      (m : Manager) (w : W) (r : Result Error Bool)
      → confirmed_before b token m.pending m.confirmed w ≡ r
      → (confirm b token now m w).0.1 ≡ ok tt
      → Ends b token now m w ⊎ Repeats b token now m w
  unfolding confirm confirm_next
  confirm_cases m w (err e) x h = absurd (ground arith)
  confirm_cases m w (ok true) x h =
      let (j, r1, r2, r3, r4) = confirmed_before_sound m.pending m.confirmed w x in
      inr (record {
        journal = j;
        none_pending = r1;
        was_confirmed = r2;
        same_token = r3;
        in_force = r4;
        keeps = ground arith;
      })
  confirm_cases m w (ok false) x h =
      let (p, r, c, l) =
        confirm_of_sound (confirmable b token now m.pending w) m w (ground arith) in
      let (s1, s2, s3, s4, s5) = confirmable_sound m.pending w r in
      inl (record {
        change = p;
        is_pending = s1;
        was_applied = s2;
        in_time = s3;
        same_token = s4;
        in_force = s5;
        cleared = c;
        leaves = ground arith;
      })

  -- A confirmation succeeds in two cases only: it ends a pending change that was applied, in time, with
  -- that change's token, while the settings read are the proposed ones and after the recovery record
  -- was removed; or it repeats the last confirmation, and then it changes nothing.
  pub confirm_sound :
      (m : Manager) (w : W)
      → (confirm b token now m w).0.1 ≡ ok tt
      → Ends b token now m w ⊎ Repeats b token now m w
  confirm_sound m w h = confirm_cases m w (confirmed_before b token m.pending m.confirmed w) refl h

  -- A confirmation that fails leaves the state of the manager as it was.
  pub confirm_failure_keeps :
      (m : Manager) (w : W) {e : Error}
      → (confirm b token now m w).0.1 ≡ err e
      → (confirm b token now m w).0.0 ≡ m
  unfolding confirm confirm_next confirm_of confirm_clear
  confirm_failure_keeps m w h = ground arith

confirm_repeated :
    {W : Type 0} (b : Backend W) (token : List ℕ) (now : ℕ) (m : Manager) (w : W) (j : Journal)
    → m.pending ≡ none
    → m.confirmed ≡ some j
    → token ≡ j.token
    → b.read w ≡ ok j.proposed
    → confirm b token now m w ≡ ((m, ok tt), w)
unfolding confirm confirm_next confirmed_before
confirm_repeated b token now m w j p c t r =
    ground (arith, str_eq_self j.token, settings_eq_self j.proposed)

-- A confirmation that succeeded and whose answer was lost can be repeated at any time, where
-- removing the record does not change the settings read: it succeeds again and changes nothing
-- more.
pub confirm_again :
    {W : Type 0} (b : Backend W) (token : List ℕ) (now later : ℕ) (m : Manager) (w : W)
    → ((v : W) → b.read (b.clear v).1 ≡ b.read v)
    → (confirm b token now m w).0.1 ≡ ok tt
    → confirm b token later (confirm b token now m w).0.0 (confirm b token now m w).1
      ≡ confirm b token now m w
confirm_again b token now later m w stays h = elim (confirm_sound b token now m w h) [
  | inl e ↦ rw e.leaves (
      confirm_repeated b token later (finished e.change.journal m) (b.clear w).1 e.change.journal
        refl refl e.same_token (stays w ∙ e.in_force))
  | inr r ↦ rw r.keeps (
      confirm_repeated b token later m w r.journal r.none_pending r.was_confirmed r.same_token
        r.in_force)
]
