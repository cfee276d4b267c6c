-- ===== src/Agent/UciTransaction.antt =====
-- agent/src/uci_transaction.rs: a change of several UCI options that is staged, checked, committed
-- package by package and, where a step fails, restored. Error texts are values, with the errors of the
-- backend as texts within them.
mod Staging
mod Atomic
mod Tests
use mu5250_open_ui.Base.{
  ℕ, Bool, true, false, not, ◌&&◌, ◌||◌, Option, none, some, List, [], ◌∷◌, ◌++◌, String, ltb, ◌==◌,
  if◌then◌else◌,
}
use mu5250_open_ui.Base.Results.{Result, ok, err}
use mu5250_open_ui.Base.Strings.{str_eq}

pub record Change : Type 0 where
  pub key : List ℕ
  pub before : List ℕ
  pub after : List ℕ

-- The trait: what it does to the world `W` behind it.
pub record Backend (W : Type 0) : Type 0 where
  pub check : List Change → W → Result String (Unit {0})
  pub set : List ℕ → List ℕ → W → Result String (Unit {0}) × W
  pub commit : List ℕ → W → Result String (Unit {0}) × W
  pub apply : W → Result String (Unit {0}) × W

-- `key.split('.').next().unwrap()`
unfoldable pub config : List ℕ → List ℕ
config [] = []
config (b ∷ bs) = let rest = config bs in if b == b'.' then [] else b ∷ rest

-- `str`'s order, byte by byte.
unfoldable pub str_ltb : List ℕ → List ℕ → Bool
str_ltb xs [] = false
str_ltb [] (y ∷ ys) = true
str_ltb (x ∷ xs) (y ∷ ys) = ltb x y || (x == y && str_ltb xs ys)

-- `BTreeSet::insert`: a set is its elements in ascending order.
unfoldable pub set_insert : List ℕ → List (List ℕ) → List (List ℕ)
set_insert x [] = x ∷ []
set_insert x (y ∷ ys) =
    let rest = set_insert x ys in
    if str_eq x y then y ∷ ys else if str_ltb x y then x ∷ (y ∷ ys) else y ∷ rest

unfoldable pub configs : List Change → List (List ℕ)
configs [] = []
configs (c ∷ cs) = set_insert (config c.key) (configs cs)

-- The errors of `execute`: before anything was committed, or after it, with what the restoration said.
pub data Error : Type 0 where
  refused restored : String → Error
  needs_attention : String → List String → Error

abbrev pub push_error : Result String (Unit {0}) → List String → List String
push_error (ok _) errors = errors
push_error (err e) errors = e ∷ errors

abbrev pub outcome : String → List String → Error
outcome e [] = restored e
outcome e (x ∷ xs) = needs_attention e (x ∷ xs)

module _ {W : Type 0} (b : Backend W) where
  -- The loops that stop at the first error.
  unfoldable pub set_all : List Change → W → Result String (Unit {0}) × W
  set_all [] w = (ok tt, w)
  set_all (c ∷ cs) w =
      let (r, w1) = b.set c.key c.after w in
      let rest = set_all cs w1 in elim r [ ok _ ↦ rest | err e ↦ (err e, w1) ]

  unfoldable pub commit_all : List (List ℕ) → W → Result String (Unit {0}) × W
  commit_all [] w = (ok tt, w)
  commit_all (c ∷ cs) w =
      let (r, w1) = b.commit c w in
      let rest = commit_all cs w1 in elim r [ ok _ ↦ rest | err e ↦ (err e, w1) ]

  -- The loops of the restoration, which go on and collect the errors.
  unfoldable pub reset_all : List Change → W → List String × W
  reset_all [] w = ([], w)
  reset_all (c ∷ cs) w =
      let (r, w1) = b.set c.key c.before w in
      let (errors, w2) = reset_all cs w1 in (push_error r errors, w2)

  unfoldable pub recommit_all : List (List ℕ) → W → List String × W
  recommit_all [] w = ([], w)
  recommit_all (c ∷ cs) w =
      let (r, w1) = b.commit c w in
      let (errors, w2) = recommit_all cs w1 in (push_error r errors, w2)

  unfoldable pub restore : String → List Change → W → Result Error (Unit {0}) × W
  restore e changes w =
      let (e1, w1) = reset_all changes w in
      let (e2, w2) = recommit_all (configs changes) w1 in
      let (r, w3) = b.apply w2 in (err (outcome e (e1 ++ (e2 ++ push_error r []))), w3)

  -- The closure: the commits, and the reload if they all succeeded.
  unfoldable pub reload : Result String (Unit {0}) × W → Result String (Unit {0}) × W
  reload (ok _, w) = b.apply w
  reload (err e, w) = (err e, w)

  unfoldable pub settle : List Change → Result String (Unit {0}) × W → Result Error (Unit {0}) × W
  settle changes (ok _, w) = (ok tt, w)
  settle changes (err e, w) = restore e changes w

  -- From the second check on.
  unfoldable pub committed :
      List Change → Result String (Unit {0}) → W → Result Error (Unit {0}) × W
  committed changes (err e) w = (err (refused e), w)
  committed changes (ok _) w = settle changes (reload (commit_all (configs changes) w))

  unfoldable pub staged_then :
      List Change → Result String (Unit {0}) × W → Result Error (Unit {0}) × W
  staged_then changes (err e, w) = (err (refused e), w)
  staged_then changes (ok _, w) = committed changes (b.check changes w) w

  unfoldable pub checked : List Change → Result String (Unit {0}) → W → Result Error (Unit {0}) × W
  checked changes (err e) w = (err (refused e), w)
  checked changes (ok _) w = staged_then changes (set_all changes w)

  unfoldable pub execute : List Change → W → Result Error (Unit {0}) × W
  execute changes w = checked changes (b.check changes w) w

-- `apply`: what it does with the stage that was created, or not.
unfoldable pub apply_changes :
    {W : Type 0} → Result String (Backend W) → List Change → W → Result Error (Unit {0}) × W
apply_changes stage [] w = (ok tt, w)
apply_changes (err e) (c ∷ cs) w = (err (refused e), w)
apply_changes (ok b) (c ∷ cs) w = execute b (c ∷ cs) w
