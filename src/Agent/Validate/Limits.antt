-- ===== src/Agent/Validate/Limits.antt =====
-- The limits, stated of every value inside a value.
use mu5250_open_ui.Base.{
  ℕ, zero, suc, ◌≤◌, ◌<◌, ◌≡◌, ◌↔◌, ◌⊎◌, inl, inr, refl, sym, ap, ◌∙◌, Bool-cases, List, [], ◌∷◌,
  length, ltb, ltb_false→le, ltb→lt, arith,
}
use mathlib.Core.Path.{subst}
use mu5250_open_ui.Base.Results.{Result, ok, err, and_then, and_then-eq-ok}
use mu5250_open_ui.Agent.Validate.{
  Shape, null, bool, number, string, array, object, Error, got_null, not_container, values,
  check_each, check_shape, check_depth, validate_ubus_input,
}

module _ {V : Type 0} (shape : V → Shape V) where
  abbrev children_of : Shape V → List V
  children_of null = []
  children_of bool = []
  children_of number = []
  children_of (string s) = []
  children_of (array arr) = arr
  children_of (object entries) = values entries

  -- A value's own limits: 4096 bytes of text, 256 elements, 64 keys.
  abbrev pub IsSmall : Shape V → Type 0
  IsSmall null = Unit
  IsSmall bool = Unit
  IsSmall number = Unit
  IsSmall (string s) = length s ≤ 4096
  IsSmall (array arr) = length arr ≤ 256
  IsSmall (object entries) = length entries ≤ 64

  abbrev pub Among : V → List V → Type 0
  Among c [] = ⊥
  Among c (v ∷ vs) = (v ≡ c) ⊎ Among c vs

  -- `u` is inside `v`, `n` levels down.
  abbrev pub Inside : ℕ → V → V → Type 0
  Inside zero v u = v ≡ u
  Inside (suc n) v u = (c : V) × Among c (children_of (shape v)) × Inside n c u

  check_each_iff :
      (check : V → Result Error (Unit {0})) (vs : List V)
      → (check_each check vs ≡ ok tt) ↔ ((c : V) → Among c vs → check c ≡ ok tt)
  unfolding check_each
  check_each_iff check [] = (λ h c m. absurd m, λ h. refl)
  check_each_iff check (v ∷ vs) = (
    λ h.
        let (a, first, rest) = and_then-eq-ok (check v) _ h in
        λ c m. elim m [
          | inl e ↦ ap check (sym e) ∙ first
          | inr later ↦ (check_each_iff check vs).0 rest c later
        ],
    λ k.
        ap (λ r. and_then r (λ _. check_each check vs)) (k v (inl refl))
        ∙ (check_each_iff check vs).1 (λ c m. k c (inr m)),
  )

  check_shape_iff :
      (check : V → Result Error (Unit {0})) (s : Shape V)
      → (check_shape check s ≡ ok tt)
        ↔ (IsSmall s × ((c : V) → Among c (children_of s) → check c ≡ ok tt))
  unfolding check_shape
  check_shape_iff check null = (λ h. (tt, λ c m. absurd m), λ k. refl)
  check_shape_iff check bool = (λ h. (tt, λ c m. absurd m), λ k. refl)
  check_shape_iff check number = (λ h. (tt, λ c m. absurd m), λ k. refl)
  check_shape_iff check (string s) = elim (Bool-cases (ltb 4096 (length s))) [
    | inl long ↦
        rw long (λ h. cc, λ (small, _). absurd (omega (arith, small, ltb→lt 4096 (length s) long)))
    | inr fits ↦ rw fits (λ h. (ltb_false→le 4096 (length s) fits, λ c m. absurd m), λ k. refl)
  ]
  check_shape_iff check (array arr) = elim (Bool-cases (ltb 256 (length arr))) [
    | inl long ↦
        rw long (λ h. cc, λ (small, _). absurd (omega (arith, small, ltb→lt 256 (length arr) long)))
    | inr fits ↦ rw fits (
      λ h. (ltb_false→le 256 (length arr) fits, (check_each_iff check arr).0 h),
      λ (_, each). (check_each_iff check arr).1 each,
    )
  ]
  check_shape_iff check (object entries) = elim (Bool-cases (ltb 64 (length entries))) [
    | inl long ↦
        rw long
          (λ h. cc, λ (small, _). absurd (omega (arith, small, ltb→lt 64 (length entries) long)))
    | inr fits ↦ rw fits (
      λ h. (ltb_false→le 64 (length entries) fits, (check_each_iff check (values entries)).0 h),
      λ (_, each). (check_each_iff check (values entries)).1 each,
    )
  ]

  -- Every value inside `v` is less than `levels` levels down and within its own limits.
  abbrev pub IsWithin : ℕ → V → Type 0
  IsWithin levels v = (n : ℕ) (u : V) → Inside n v u → (n < levels) × IsSmall (shape u)

  small-IsWithin :
      (levels : ℕ) (v : V)
      → IsSmall (shape v)
      → ((c : V) → Among c (children_of (shape v)) → IsWithin levels c)
      → IsWithin (suc levels) v
  small-IsWithin levels v small each zero u i =
      (omega arith, subst (λ x. IsSmall (shape x)) i small)
  small-IsWithin levels v small each (suc n) u (c, m, i) =
      let (deep, fits) = each c m n u i in (omega (arith, deep), fits)

  check_depth_iff : (levels : ℕ) (v : V) → (check_depth shape levels v ≡ ok tt) ↔ IsWithin levels v
  unfolding check_depth
  check_depth_iff zero v = (λ h. cc, λ k. absurd (omega (arith, (k 0 v refl).0)))
  check_depth_iff (suc levels) v = (
    λ h.
        let (small, each) = (check_shape_iff (check_depth shape levels) (shape v)).0 h in
        small-IsWithin levels v small (λ c m. (check_depth_iff levels c).0 (each c m)),
    λ k. (check_shape_iff (check_depth shape levels) (shape v)).1 (
      (k 0 v refl).1,
      λ c m.
          (check_depth_iff levels c).1
            (λ n u i. let (deep, fits) = k (suc n) u (c, m, i) in (omega (arith, deep), fits)),
    ),
  )

  abbrev pub IsContainer : Shape V → Type 0
  IsContainer null = ⊥
  IsContainer bool = ⊥
  IsContainer number = ⊥
  IsContainer (string s) = ⊥
  IsContainer (array arr) = Unit
  IsContainer (object entries) = Unit

  -- A value passes exactly when it is an object or an array, nothing in it is more than 8 levels down, and
  -- each value in it, and it itself, has at most 64 keys, 256 elements or 4096 bytes of text.
  pub validate_ubus_input-IsWithin :
      (v : V) → (validate_ubus_input shape v ≡ ok tt) ↔ (IsContainer (shape v) × IsWithin 9 v)
  unfolding validate_ubus_input
  validate_ubus_input-IsWithin v = by_shape (shape v)
    where
      by_shape :
          (s : Shape V)
          → ((elim s [
            | null ↦ err got_null
            | bool ↦ err not_container
            | number ↦ err not_container
            | string t ↦ err not_container
            | array arr ↦ check_depth shape 9 v
            | object entries ↦ check_depth shape 9 v
          ])
              ≡ ok tt)
            ↔ (IsContainer s × IsWithin 9 v)
      by_shape null = (λ h. cc, λ (c, _). absurd c)
      by_shape bool = (λ h. cc, λ (c, _). absurd c)
      by_shape number = (λ h. cc, λ (c, _). absurd c)
      by_shape (string t) = (λ h. cc, λ (c, _). absurd c)
      by_shape (array arr) =
          (λ h. (tt, (check_depth_iff 9 v).0 h), λ (_, k). (check_depth_iff 9 v).1 k)
      by_shape (object entries) =
          (λ h. (tt, (check_depth_iff 9 v).0 h), λ (_, k). (check_depth_iff 9 v).1 k)
