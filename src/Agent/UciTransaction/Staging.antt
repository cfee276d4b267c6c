-- ===== src/Agent/UciTransaction/Staging.antt =====
-- What the loops of a transaction stage and commit, option by option.
use mu5250_open_ui.Base.{
  ℕ, ◌≡◌, refl, sym, ap, ◌∙◌, Bool, true, false, ◌||◌, Option, none, some, List, [], ◌∷◌, String,
  arith, if◌then◌else◌, Bool-cases, Option-cases, inl, inr, All,
}
use mu5250_open_ui.Base.Results.{ok, err, Result-cases}
use mu5250_open_ui.Base.Strings.{str_eq, str_eq_iff}
use mu5250_open_ui.Agent.UciTransaction.{
  Change, Backend, config, configs, set_insert, set_all, commit_all, reset_all, recommit_all,
}

abbrev pub or_else : Option (List ℕ) → Option (List ℕ) → Option (List ℕ)
or_else none o = o
or_else (some v) o = some v

-- What UCI documents: a value set is staged and leaves the live configuration alone; a commit writes
-- the staged values of its package to it and drops them, and one that fails does not touch options
-- that were not staged; a reload changes no option; and the check passes only where every option still
-- has the value that the change starts from.
pub record IsUci {W : Type 0} (b : Backend W) (live staged : W → List ℕ → Option (List ℕ))
    : Type 0 where
  pub live-set : (k v : List ℕ) (w : W) (j : List ℕ) → live (b.set k v w).1 j ≡ live w j
  pub staged-set :
      (k v : List ℕ) (w : W) (j : List ℕ)
      → (b.set k v w).0 ≡ ok tt
      → staged (b.set k v w).1 j ≡ (if str_eq k j then some v else staged w j)
  pub live-commit :
      (c : List ℕ) (w : W) (j : List ℕ)
      → (b.commit c w).0 ≡ ok tt
      → live (b.commit c w).1 j
        ≡ (if str_eq (config j) c then or_else (staged w j) (live w j) else live w j)
  pub staged-commit :
      (c : List ℕ) (w : W) (j : List ℕ)
      → (b.commit c w).0 ≡ ok tt
      → staged (b.commit c w).1 j ≡ (if str_eq (config j) c then none else staged w j)
  pub unstaged-commit :
      (c : List ℕ) (w : W) (j : List ℕ) {e : String}
      → (b.commit c w).0 ≡ err e
      → staged w j ≡ none
      → (live (b.commit c w).1 j ≡ live w j) × (staged (b.commit c w).1 j ≡ none)
  pub staged-apply : (w : W) (j : List ℕ) → staged (b.apply w).1 j ≡ staged w j
  pub live-apply : (w : W) (j : List ℕ) → live (b.apply w).1 j ≡ live w j
  pub checks :
      (changes : List Change) (w : W)
      → b.check changes w ≡ ok tt
      → All (λ c. live w c.key ≡ some c.before) changes

-- The last value that a list of changes gives an option.
unfoldable pub assigned : (Change → List ℕ) → List Change → List ℕ → Option (List ℕ)
assigned f [] j = none
assigned f (c ∷ cs) j = or_else (assigned f cs j) (if str_eq c.key j then some (f c) else none)

unfoldable pub elem : List ℕ → List (List ℕ) → Bool
elem x [] = false
elem x (y ∷ ys) = str_eq x y || elem x ys

elem-set_insert :
    (x y : List ℕ) (ys : List (List ℕ)) → elem x (set_insert y ys) ≡ (str_eq x y || elem x ys)
unfolding elem set_insert
elem-set_insert x y [] = refl
elem-set_insert x y (z ∷ ys) = ground (arith, elem-set_insert x y ys, str_eq_iff y z)

-- A changed option's package is committed.
pub assigned-elem :
    (f : Change → List ℕ) (cs : List Change) (j : List ℕ) {v : List ℕ}
    → assigned f cs j ≡ some v
    → elem (config j) (configs cs) ≡ true
unfolding assigned configs
assigned-elem f [] j h = absurd (ground (arith, h))
assigned-elem f (c ∷ cs) j {v} h =
    let e = elem-set_insert (config j) (config c.key) (configs cs) in
    elim (Bool-cases (str_eq c.key j)) [
      | inl x ↦
          let same = ap config (sym ((str_eq_iff c.key j).0 x)) in
          ground (arith, e, (str_eq_iff (config j) (config c.key)).1 same)
      | inr x ↦
          let there : assigned f cs j ≡ some v = ground (arith, h, x) in
          ground (arith, e, assigned-elem f cs j there)
    ]

pub assigned-none :
    (f g : Change → List ℕ) (cs : List Change) (j : List ℕ)
    → assigned f cs j ≡ none
    → assigned g cs j ≡ none
unfolding assigned
assigned-none f g [] j h = refl
assigned-none f g (c ∷ cs) j h = ground (arith, h, assigned-none f g cs j)

-- An option that holds the starting value of each of its changes holds the last one's.
pub assigned-before :
    (live : List ℕ → Option (List ℕ)) (cs : List Change) (j : List ℕ) {v : List ℕ}
    → All (λ c. live c.key ≡ some c.before) cs
    → assigned (λ c. c.before) cs j ≡ some v
    → live j ≡ some v
unfolding assigned
assigned-before live [] j a h = absurd (ground (arith, h))
assigned-before live (c ∷ cs) j {v} a h = elim (Option-cases (assigned (λ c. c.before) cs j)) [
  | inr (x, e) ↦ assigned-before live cs j a.1 (ground (arith, h, e))
  | inl e ↦ elim (Bool-cases (str_eq c.key j)) [
    | inr x ↦ absurd (ground (arith, h, e, x))
    | inl x ↦ ap live (sym ((str_eq_iff c.key j).0 x)) ∙ a.0 ∙ ground (arith, h, e, x)
  ]
]

module _ {W : Type 0} (b : Backend W) (live staged : W → List ℕ → Option (List ℕ))
    (u : IsUci b live staged) (j : List ℕ) where
  pub live-set_all : (cs : List Change) (w : W) → live (set_all b cs w).1 j ≡ live w j
  unfolding set_all
  live-set_all [] w = refl
  live-set_all (c ∷ cs) w =
      let w1 = (b.set c.key c.after w).1 in
      ground (arith, live-set_all cs w1, u.live-set c.key c.after w j)

  pub staged-set_all :
      (cs : List Change) (w : W)
      → (set_all b cs w).0 ≡ ok tt
      → staged (set_all b cs w).1 j ≡ or_else (assigned (λ c. c.after) cs j) (staged w j)
  unfolding set_all assigned
  staged-set_all [] w h = refl
  staged-set_all (c ∷ cs) w h =
      let w1 = (b.set c.key c.after w).1 in
      ground (arith, h, staged-set_all cs w1, u.staged-set c.key c.after w j)

  pub staged-reset_all :
      (cs : List Change) (w : W)
      → (reset_all b cs w).0 ≡ []
      → staged (reset_all b cs w).1 j ≡ or_else (assigned (λ c. c.before) cs j) (staged w j)
  unfolding reset_all assigned
  staged-reset_all [] w h = refl
  staged-reset_all (c ∷ cs) w h =
      let w1 = (b.set c.key c.before w).1 in
      ground (arith, h, staged-reset_all cs w1, u.staged-set c.key c.before w j)

  pub live-reset_all : (cs : List Change) (w : W) → live (reset_all b cs w).1 j ≡ live w j
  unfolding reset_all
  live-reset_all [] w = refl
  live-reset_all (c ∷ cs) w =
      let w1 = (b.set c.key c.before w).1 in
      ground (arith, live-reset_all cs w1, u.live-set c.key c.before w j)

  pub live-commit_all :
      (cs : List (List ℕ)) (w : W)
      → (commit_all b cs w).0 ≡ ok tt
      → live (commit_all b cs w).1 j
        ≡ (if elem (config j) cs then or_else (staged w j) (live w j) else live w j)
  unfolding commit_all elem
  live-commit_all [] w h = refl
  live-commit_all (c ∷ cs) w h =
      let w1 = (b.commit c w).1 in
      ground (arith, h, live-commit_all cs w1, u.live-commit c w j, u.staged-commit c w j)

  pub live-recommit_all :
      (cs : List (List ℕ)) (w : W)
      → (recommit_all b cs w).0 ≡ []
      → live (recommit_all b cs w).1 j
        ≡ (if elem (config j) cs then or_else (staged w j) (live w j) else live w j)
  unfolding recommit_all elem
  live-recommit_all [] w h = refl
  live-recommit_all (c ∷ cs) w h =
      let w1 = (b.commit c w).1 in
      ground (arith, h, live-recommit_all cs w1, u.live-commit c w j, u.staged-commit c w j)

  -- However far the commits come, an option that is not staged stays as it is.
  pub unstaged-commit_all :
      (cs : List (List ℕ)) (w : W)
      → staged w j ≡ none
      → (live (commit_all b cs w).1 j ≡ live w j) × (staged (commit_all b cs w).1 j ≡ none)
  unfolding commit_all
  unstaged-commit_all [] w h = (refl, h)
  unstaged-commit_all (c ∷ cs) w h =
      let w1 = (b.commit c w).1 in
      elim (Result-cases (b.commit c w).0) [
        | inr (e, x) ↦ ground (arith, x, u.unstaged-commit c w j x h)
        | inl (_, x) ↦
            let (l, s) : (live w1 j ≡ live w j) × (staged w1 j ≡ none) = (
              ground (arith, x, h, u.live-commit c w j),
              ground (arith, x, h, u.staged-commit c w j),
            ) in
            ground (arith, x, l, unstaged-commit_all cs w1 s)
      ]
