-- ===== src/Base/Strings.antt =====
-- Rust strings as lists of bytes, compared byte by byte, and maps with such keys.
-- A `HashMap` is a list of entries; the code never depends on their order.
use mu5250_open_ui.Base.Tests.{◌==◌, Bool-cases, if◌then◌else◌}
use Prim.Native.Nat.{ℕ}
use mathlib.Core.Path.{◌≡◌, refl}
use mathlib.Core.Logic.{◌↔◌, inl, inr}
use mathlib.Core.Bool.{Bool, true, false, ◌&&◌}
use mathlib.Core.Option.{Option, none, some}
use mathlib.Core.List.{List, [], ◌∷◌}
use native.Mathlib.Omega.{arith}

unfoldable pub str_eq : List ℕ → List ℕ → Bool
str_eq [] [] = true
str_eq [] (y ∷ ys) = false
str_eq (x ∷ xs) [] = false
str_eq (x ∷ xs) (y ∷ ys) = x == y && str_eq xs ys

pub str_eq_iff : (xs ys : List ℕ) → (str_eq xs ys ≡ true) ↔ (xs ≡ ys)
unfolding str_eq
str_eq_iff [] [] = ((λ _. refl), λ _. refl)
str_eq_iff [] (y ∷ ys) = ((λ h. cc), λ h. cc)
str_eq_iff (x ∷ xs) [] = ((λ h. cc), λ h. cc)
str_eq_iff (x ∷ xs) (y ∷ ys) =
    ((λ h. ground (arith, str_eq_iff xs ys)), λ h. ground (arith, str_eq_iff xs ys))

pub str_eq_self : (xs : List ℕ) → str_eq xs xs ≡ true
str_eq_self xs = (str_eq_iff xs xs).1 refl

module _ {ℓ} {V : Type ℓ} where
  unfoldable pub lookup : List ℕ → List (List ℕ × V) → Option V
  lookup k [] = none
  lookup k ((j, v) ∷ m) = if str_eq j k then some v else lookup k m

  unfoldable pub remove : List ℕ → List (List ℕ × V) → List (List ℕ × V)
  remove k [] = []
  remove k ((j, v) ∷ m) = let rest = remove k m in if str_eq j k then rest else (j, v) ∷ rest

  -- `map.retain(|_, v| p(v))`
  unfoldable pub retain : (V → Bool) → List (List ℕ × V) → List (List ℕ × V)
  retain p [] = []
  retain p ((j, v) ∷ m) = let rest = retain p m in if p v then (j, v) ∷ rest else rest

  unfoldable pub insert : List ℕ → V → List (List ℕ × V) → List (List ℕ × V)
  insert k v m = (k, v) ∷ remove k m

  pub lookup-remove :
      (k j : List ℕ) (m : List (List ℕ × V))
      → lookup j (remove k m) ≡ (if str_eq k j then none else lookup j m)
  unfolding lookup remove
  lookup-remove k j [] = ground arith
  lookup-remove k j ((i, v) ∷ m) =
      ground (arith, lookup-remove k j m, str_eq_iff i k, str_eq_iff i j, str_eq_iff k j)

  pub lookup-insert :
      (k j : List ℕ) (v : V) (m : List (List ℕ × V))
      → lookup j (insert k v m) ≡ (if str_eq k j then some v else lookup j m)
  unfolding lookup insert
  lookup-insert k j v m = ground (arith, lookup-remove k j m)

  -- Each key occurs once, as in a map.
  abbrev pub IsMap : List (List ℕ × V) → Type ℓ
  IsMap [] = Unit
  IsMap ((k, v) ∷ m) = (lookup k m ≡ none) × IsMap m

  -- What a predicate on the values leaves of a looked-up value.
  abbrev pub keep : (V → Bool) → Option V → Option V
  keep p none = none
  keep p (some v) = if p v then some v else none

  pub lookup-retain :
      (p : V → Bool) (k : List ℕ) (m : List (List ℕ × V))
      → IsMap m
      → lookup k (retain p m) ≡ keep p (lookup k m)
  unfolding lookup retain
  lookup-retain p k [] h = refl
  lookup-retain p k ((j, v) ∷ m) h = ground (arith, lookup-retain p k m h.1, str_eq_iff j k)

  pub remove-IsMap : (k : List ℕ) (m : List (List ℕ × V)) → IsMap m → IsMap (remove k m)
  unfolding remove
  remove-IsMap k [] h = h
  remove-IsMap k ((j, v) ∷ m) h = elim (Bool-cases (str_eq j k)) [
    | inl e ↦ rw e (remove-IsMap k m h.1)
    | inr e ↦ rw e (removed, remove-IsMap k m h.1)
  ]
    where
      removed : lookup j (remove k m) ≡ none
      removed = ground (arith, lookup-remove k j m, h.0)

  pub retain-IsMap : (p : V → Bool) (m : List (List ℕ × V)) → IsMap m → IsMap (retain p m)
  unfolding retain
  retain-IsMap p [] h = h
  retain-IsMap p ((j, v) ∷ m) h = elim (Bool-cases (p v)) [
    | inl e ↦ rw e (ground (arith, lookup-retain p j m h.1, h.0), retain-IsMap p m h.1)
    | inr e ↦ rw e (retain-IsMap p m h.1)
  ]

  pub insert-IsMap : (k : List ℕ) (v : V) (m : List (List ℕ × V)) → IsMap m → IsMap (insert k v m)
  unfolding insert
  insert-IsMap k v m h = (ground (arith, lookup-remove k k m, str_eq_self k), remove-IsMap k m h)
