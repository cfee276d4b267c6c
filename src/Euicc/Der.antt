-- ===== src/Euicc/Der.antt =====
-- euicc/src/der.rs: elements of tag, length and contents, and their encoding.
-- A byte slice is a list of numbers; that they are bytes is a hypothesis where it is needed.
pub mod Integers
pub mod Header
pub mod RoundTrip
pub mod Prefix
mod BitNames
mod Tests
use mathlib.Core.List.{foldl}
use mu5250_open_ui.Base.Options.{◌>>=◌, ◌>>◌, require}
use mu5250_open_ui.Base.{
  ℕ, zero, suc, ◌+◌, ◌-◌, ◌*◌, ◌/◌, ◌%◌, ◌^◌, min, bit_and, bit_or, Bool, true, false, not, ◌||◌,
  Option, none, some, List, [], ◌∷◌, ◌++◌, String, length, get_elem?, take, drop, ltb, leb, ◌==◌,
  if◌then◌else◌,
}

pub record Tlv : Type 0 where
  pub tag : ℕ
  pub value : List ℕ
  -- The whole element: tag, length and contents.
  pub raw : List ℕ

-- What a `usize` holds on the 64-bit device.
abbrev pub usize_mod : ℕ
usize_mod = 2 ^ 64

-- `buf.get(i)?`, then `i += 1`.
abbrev pub next_byte : List ℕ → ℕ → Option (ℕ × ℕ)
next_byte buf i = do b ← get_elem? buf i; some (b, i + 1)

-- The tag, of one byte or two, and the position behind it.
abbrev pub parse_tag : List ℕ → Option (ℕ × ℕ)
parse_tag buf = do
  (b, i) ← next_byte buf 0
  if bit_and b 0x1f == 0x1f
      then (do (c, j) ← next_byte buf i; some (bit_or (b * 256) c, j))
      else some (b, i)

-- `for _ in 0..count { length = (length << 8) | buf[i]; i += 1; }`
unfoldable pub length_loop : List ℕ → ℕ → ℕ → ℕ → Option (ℕ × ℕ)
length_loop buf zero len i = some (len, i)
length_loop buf (suc count) len i = elim (get_elem? buf i) [
  | none ↦ none
  | some b ↦ length_loop buf count (bit_or (len * 256) b) (i + 1)
]

-- The length of the contents, and the position behind it.
abbrev pub parse_length : List ℕ → ℕ → Option (ℕ × ℕ)
parse_length buf i = do
  (first, j) ← next_byte buf i
  if not (bit_and first 0x80 == 0)
      then (do let count = bit_and first 0x7f; require (leb count 4); length_loop buf count 0 j)
      else some (first, j)

-- The element at the start of `buf`: `checked_add` and the range `get` fail as in the source.
unfoldable pub parse : List ℕ → Option Tlv
unfolding length_loop
parse buf = do
  (tag, i) ← parse_tag buf
  (len, j) ← parse_length buf i
  require (ltb (j + len) usize_mod)
  require (leb (j + len) (length buf))
  some (record { tag = tag; value = take len (drop j buf); raw = take (j + len) buf })

-- `Iter`: the rest of the buffer; `next` takes one element off it.
unfoldable pub next : List ℕ → Option (Tlv × List ℕ)
next rest = do tlv ← parse rest; some (tlv, drop (length tlv.raw) rest)

-- All that `next` yields, with a bound on the number of elements.
unfoldable pub iter_loop : ℕ → List ℕ → List Tlv
iter_loop zero rest = []
iter_loop (suc fuel) rest = elim (next rest) [
  | none ↦ []
  | some (tlv, rest') ↦ tlv ∷ iter_loop fuel rest'
]

-- Every element takes two bytes at least, so the length of the buffer is bound enough.
unfoldable pub iter : List ℕ → List Tlv
iter buf = iter_loop (length buf) buf

-- `iter.find(p)`
unfoldable pub find_first : (Tlv → Bool) → List Tlv → Option Tlv
find_first p [] = none
find_first p (t ∷ ts) = if p t then some t else find_first p ts

unfoldable pub find : List ℕ → ℕ → Option Tlv
unfolding find_first
find buf tag = find_first (λ t. t.tag == tag) (iter buf)

-- `iter.filter(|t| t.tag == tag)`
unfoldable pub filter_tag : ℕ → List Tlv → List Tlv
filter_tag tag [] = []
filter_tag tag (t ∷ ts) = let rest = filter_tag tag ts in if t.tag == tag then t ∷ rest else rest

unfoldable pub contains : List ℕ → ℕ → Bool
contains [] x = false
contains (y ∷ ys) x = x == y || contains ys x

unfoldable pub find_any : List ℕ → List ℕ → Option Tlv
unfolding find_first contains
find_any buf tags = find_first (λ t. contains tags t.tag) (iter buf)

mutual
  pub data Node : Type 0 where
    prim : ℕ → List ℕ → Node
    cons : ℕ → Nodes → Node

  -- `Vec<Node>`
  pub data Nodes : Type 0 where
    nil : Nodes
    child : Node → Nodes → Nodes

-- The tag of either kind of node, as `Euicc::request` takes it.
unfoldable pub tag_of : Node → ℕ
tag_of (prim tag value) = tag
tag_of (cons tag children) = tag

-- `n.to_be_bytes()` of a number of `count` bytes.
unfoldable pub be_bytes : ℕ → ℕ → List ℕ
be_bytes zero n = []
be_bytes (suc count) n = (n / 256 ^ count % 256) ∷ be_bytes count n

-- `bytes.iter().take_while(|b| **b == 0).count()`
unfoldable pub leading_zeros : List ℕ → ℕ
leading_zeros [] = 0
leading_zeros (b ∷ bs) = if b == 0 then suc (leading_zeros bs) else 0

unfoldable pub encode_tag : ℕ → List ℕ
encode_tag tag = if tag / 256 == 0 then tag % 256 ∷ [] else tag / 256 % 256 ∷ tag % 256 ∷ []

unfoldable pub encode_length : ℕ → List ℕ
encode_length len =
    if ltb len 0x80
    then len % 256 ∷ []
    else let bytes = be_bytes 4 (len % 2 ^ 32) in
      let skip = leading_zeros bytes in bit_or 0x80 ((4 - skip) % 256) ∷ drop skip bytes

unfoldable mutual
  unfolding encode_tag encode_length

  pub encode_into : Node → List ℕ → List ℕ
  encode_into (prim tag value) out =
      ((out ++ encode_tag tag) ++ encode_length (length value)) ++ value
  encode_into (cons tag children) out =
      let value = encode_children children [] in
      ((out ++ encode_tag tag) ++ encode_length (length value)) ++ value

  -- The loop over the children, which appends each to the contents.
  pub encode_children : Nodes → List ℕ → List ℕ
  encode_children nil value = value
  encode_children (child n ns) value = encode_children ns (encode_into n value)

unfoldable pub encode : Node → List ℕ
unfolding encode_into
encode n = encode_into n []

-- `(acc << 8) | u64::from(*b)`, where the shift keeps the low 64 bits.
unfoldable pub push_byte : ℕ → ℕ → ℕ
push_byte acc b = bit_or (acc * 256 % 2 ^ 64) b

unfoldable pub to_u64 : List ℕ → ℕ
unfolding push_byte
to_u64 value = foldl push_byte 0 value

-- `out.insert(0, 0)` when the top bit of the first byte is set; `out` is not empty.
unfoldable pub sign_pad : List ℕ → List ℕ
sign_pad [] = []
sign_pad (b ∷ bs) = if not (bit_and b 0x80 == 0) then 0 ∷ b ∷ bs else b ∷ bs

unfoldable pub from_u64 : ℕ → List ℕ
unfolding be_bytes leading_zeros sign_pad
from_u64 value = let bytes = be_bytes 8 value in sign_pad (drop (min (leading_zeros bytes) 7) bytes)

-- The eight rounds on one byte, from round `i` on, for the byte at place `j`: `break` behind the last name.
unfoldable pub bit_loop : List String → ℕ → ℕ → ℕ → ℕ → List String
bit_loop names j zero i byte = []
bit_loop names j (suc rounds) i byte =
    let rest = bit_loop names j rounds (i + 1) (byte * 2 % 2 ^ 32) in
    elim (get_elem? names (j * 8 + i)) [
      | none ↦ []
      | some name ↦ if not (bit_and byte 0x80 == 0) then name ∷ rest else rest
    ]

-- `byte &= !(0xFFu32 >> (8 - unused.min(8)))`
unfoldable pub clear_unused : ℕ → ℕ → ℕ
clear_unused unused byte = bit_and byte (2 ^ 32 - 1 - 0xff / 2 ^ (8 - min unused 8))

-- The bytes from place `j` on; the unused bits are those of the last one.
unfoldable pub byte_loop : List String → ℕ → ℕ → List ℕ → List String
unfolding bit_loop clear_unused
byte_loop names unused j [] = []
byte_loop names unused j (byte ∷ []) = bit_loop names j 8 0 (clear_unused unused byte)
byte_loop names unused j (byte ∷ (next ∷ bits)) =
    bit_loop names j 8 0 byte ++ byte_loop names unused (j + 1) (next ∷ bits)

unfoldable pub bit_names : List ℕ → List String → List String
unfolding byte_loop
bit_names [] names = []
bit_names (unused ∷ bits) names = byte_loop names unused 0 bits
