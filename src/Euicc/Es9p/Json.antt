-- ===== src/Euicc/Es9p/Json.antt =====
-- euicc/src/es9p.rs: a parsed JSON value and the lookup of a member. Texts are lists of bytes.
use mu5250_open_ui.Base.{
  ℕ, ◌+◌, Bool, ◌&&◌, Option, none, some, List, [], ◌∷◌, map, leb, ◌==◌, if◌then◌else◌,
}
use mu5250_open_ui.Base.Strings.{str_eq}

-- The objects are lists of members in document order, duplicates included.
mutual
  pub data Json : Type 0 where
    str : List ℕ → Json
    obj : Members → Json
    other : Json

  pub data Members : Type 0 where
    nil : Members
    member : List ℕ → Json → Members → Members

-- `members.push((name, value))`
unfoldable pub push : Members → List ℕ → Json → Members
push nil name value = member name value nil
push (member n v ms) name value = member n v (push ms name value)

-- The bytes before the first NUL.
unfoldable pub c_bytes : List ℕ → List ℕ
c_bytes [] = []
c_bytes (b ∷ bs) = let rest = c_bytes bs in if b == 0 then [] else b ∷ rest

-- `eq_ignore_ascii_case`
abbrev pub lower : ℕ → ℕ
lower b = if leb b'A' b && leb b b'Z' then b + 32 else b

unfoldable pub same_name : List ℕ → List ℕ → Bool
same_name a b = str_eq (map lower a) (map lower b)

unfoldable pub find_member : List ℕ → Members → Option Json
find_member name nil = none
find_member name (member n v ms) =
    let rest = find_member name ms in if same_name (c_bytes n) name then some v else rest

unfoldable pub get : List ℕ → Json → Option Json
unfolding find_member
get name (obj members) = find_member name members
get name (str v) = none
get name other = none
