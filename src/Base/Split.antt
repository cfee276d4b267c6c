-- ===== src/Base/Split.antt =====
-- `str::split` and `str::rsplit_once` at one character, of Rust's standard library, and `join`.
use mu5250_open_ui.Base.Tests.{◌==◌, Bool-cases, ==_iff, if◌then◌else◌}
use mu5250_open_ui.Base.Lists.{All}
use Prim.Native.Nat.{ℕ}
use mathlib.Core.Path.{◌≡◌, refl, ap, ◌∙◌}
use mathlib.Core.Logic.{◌≢◌, inl, inr}
use mathlib.Core.Bool.{false}
use mathlib.Core.Option.{Option, none, some}
use mathlib.Core.List.{List, [], ◌∷◌, ◌++◌}
use native.Mathlib.Omega.{arith}

-- A character in front of the first part.
abbrev pub push : ℕ → List (List ℕ) → List (List ℕ)
push b [] = (b ∷ []) ∷ []
push b (w ∷ ws) = (b ∷ w) ∷ ws

unfoldable pub split : ℕ → List ℕ → List (List ℕ)
split sep [] = [] ∷ []
split sep (b ∷ bs) = let rest = split sep bs in if b == sep then [] ∷ rest else push b rest

unfoldable pub join : ℕ → List (List ℕ) → List ℕ
join sep [] = []
join sep (w ∷ []) = w
join sep (w ∷ (v ∷ ws)) = w ++ sep ∷ join sep (v ∷ ws)

unfoldable pub rsplit_once : ℕ → List ℕ → Option (List ℕ × List ℕ)
rsplit_once sep [] = none
rsplit_once sep (b ∷ bs) = elim (rsplit_once sep bs) as (λ _. Option (List ℕ × List ℕ)) [
  | some (front, back) ↦ some (b ∷ front, back)
  | none ↦ if b == sep then some ([], bs) else none
]

-- The character does not occur.
abbrev pub Lacks : ℕ → List ℕ → Type 0
Lacks sep = All (λ b. b ≢ sep)

-- The parts of a split: there is one, and none has the separator.
abbrev pub IsSplit : ℕ → List (List ℕ) → Type 0
IsSplit sep [] = ⊥
IsSplit sep (w ∷ ws) = Lacks sep w × All (Lacks sep) ws

push-IsSplit : (sep b : ℕ) (ws : List (List ℕ)) → b ≢ sep → IsSplit sep ws → IsSplit sep (push b ws)
push-IsSplit sep b (w ∷ ws) n h = ((n, h.0), h.1)
push-IsSplit sep b [] n h = elim h [ ]

open_part : (sep : ℕ) (ws : List (List ℕ)) → IsSplit sep ws → IsSplit sep ([] ∷ ws)
open_part sep (w ∷ ws) h = (tt, h)
open_part sep [] h = elim h [ ]

apart : (a b : ℕ) → (a == b) ≡ false → a ≢ b
apart a b e = ground arith

differ : (a b : ℕ) → a ≢ b → (a == b) ≡ false
differ a b e = ground arith

pub split-IsSplit : (sep : ℕ) (text : List ℕ) → IsSplit sep (split sep text)
unfolding split
split-IsSplit sep [] = (tt, tt)
split-IsSplit sep (b ∷ bs) = elim (Bool-cases (b == sep)) [
  | inl e ↦ rw e (open_part sep (split sep bs) (split-IsSplit sep bs))
  | inr e ↦ rw e (push-IsSplit sep b (split sep bs) (apart b sep e) (split-IsSplit sep bs))
]

join-push :
    (sep b : ℕ) (ws : List (List ℕ)) → IsSplit sep ws → join sep (push b ws) ≡ b ∷ join sep ws
unfolding join
join-push sep b (w ∷ []) h = refl
join-push sep b (w ∷ (v ∷ ws)) h = refl
join-push sep b [] h = elim h [ ]

join-open : (sep : ℕ) (ws : List (List ℕ)) → IsSplit sep ws → join sep ([] ∷ ws) ≡ sep ∷ join sep ws
unfolding join
join-open sep (w ∷ ws) h = refl
join-open sep [] h = elim h [ ]

-- The parts of a text make it up.
pub join-split : (sep : ℕ) (text : List ℕ) → join sep (split sep text) ≡ text
unfolding split
join-split sep [] = unfold join in refl
join-split sep (b ∷ bs) = elim (Bool-cases (b == sep)) [
  | inl e ↦ rw e (
      join-open sep (split sep bs) (split-IsSplit sep bs)
      ∙ cc (join-split sep bs, (==_iff b sep).0 e))
  | inr e ↦
      rw e (
        join-push sep b (split sep bs) (split-IsSplit sep bs) ∙ ap (λ t. b ∷ t) (join-split sep bs))
]

split_part :
    (sep : ℕ) (w text : List ℕ) → Lacks sep w → split sep (w ++ sep ∷ text) ≡ w ∷ split sep text
unfolding split
split_part sep [] text h = rw ((==_iff sep sep).1 refl) refl
split_part sep (b ∷ w) text h = rw (differ b sep h.0) (ap (push b) (split_part sep w text h.1))

split_whole : (sep : ℕ) (w : List ℕ) → Lacks sep w → split sep w ≡ w ∷ []
unfolding split
split_whole sep [] h = refl
split_whole sep (b ∷ w) h = rw (differ b sep h.0) (ap (push b) (split_whole sep w h.1))

-- Parts without the separator are found again.
pub split-join :
    (sep : ℕ) (parts : List (List ℕ)) → IsSplit sep parts → split sep (join sep parts) ≡ parts
unfolding join
split-join sep [] h = elim h [ ]
split-join sep (w ∷ []) h = split_whole sep w h.0
split-join sep (w ∷ (v ∷ ws)) h =
    split_part sep w (join sep (v ∷ ws)) h.0 ∙ ap (λ t. w ∷ t) (split-join sep (v ∷ ws) h.1)

-- What `rsplit_once` gives: a part behind the last separator, if there is one.
abbrev pub IsLast : ℕ → List ℕ → Option (List ℕ × List ℕ) → Type 0
IsLast sep text none = Lacks sep text
IsLast sep text (some (front, back)) = (text ≡ front ++ sep ∷ back) × Lacks sep back

step-IsLast :
    (sep b : ℕ) (bs : List ℕ) (o : Option (List ℕ × List ℕ))
    → IsLast sep bs o
    → IsLast sep (b ∷ bs) (elim o as (λ _. Option (List ℕ × List ℕ)) [
      | some (front, back) ↦ some (b ∷ front, back)
      | none ↦ if b == sep then some ([], bs) else none
    ])
step-IsLast sep b bs (some (front, back)) h = (ap (λ t. b ∷ t) h.0, h.1)
step-IsLast sep b bs none h = elim (Bool-cases (b == sep)) [
  | inl e ↦ rw e (ap (λ c. c ∷ bs) ((==_iff b sep).0 e), h)
  | inr e ↦ rw e (apart b sep e, h)
]

pub rsplit_once-IsLast : (sep : ℕ) (text : List ℕ) → IsLast sep text (rsplit_once sep text)
unfolding rsplit_once
rsplit_once-IsLast sep [] = tt
rsplit_once-IsLast sep (b ∷ bs) =
    step-IsLast sep b bs (rsplit_once sep bs) (rsplit_once-IsLast sep bs)
