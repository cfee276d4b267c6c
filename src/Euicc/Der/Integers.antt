-- ===== src/Euicc/Der/Integers.antt =====
-- INTEGER contents: `from_u64` writes a number minimally, and `to_u64` reads it back.
use mathlib.Core.List.{foldl}
use mu5250_open_ui.Base.{
  length-drop, ℕ, zero, suc, ◌+◌, ◌*◌, ◌%◌, ◌^◌, ◌≤◌, ◌<◌, min, ◌≡◌, ◌≢◌, refl, ◌∙◌, List, [], ◌∷◌,
  length, drop, All, arith, ◌==◌, Bool-cases, inl, inr,
}
use mu5250_open_ui.Base.Bits.{IsByte, bit_or-byte, bit_and-0x80}
use mu5250_open_ui.Euicc.Der.{push_byte, to_u64, from_u64, be_bytes, leading_zeros, sign_pad}

-- The number that big-endian bytes stand for, behind the digits read so far.
abbrev pub be_value : ℕ → List ℕ → ℕ
be_value acc [] = acc
be_value acc (b ∷ bs) = be_value (acc * 256 + b) bs

pub le-be_value : (acc : ℕ) (bs : List ℕ) → acc ≤ be_value acc bs
le-be_value acc [] = omega arith
le-be_value acc (b ∷ bs) = omega (arith, le-be_value (acc * 256 + b) bs)

push_byte_lem : (acc b : ℕ) → b < 256 → acc * 256 < 2 ^ 64 → push_byte acc b ≡ acc * 256 + b
unfolding push_byte
push_byte_lem acc b hb h =
    let e : acc * 256 % 2 ^ 64 ≡ acc * 256 = omega arith in rw (e, bit_or-byte acc b hb)

foldl-push_byte :
    (acc : ℕ) (bs : List ℕ)
    → All IsByte bs
    → be_value acc bs < 2 ^ 64
    → foldl push_byte acc bs ≡ be_value acc bs
foldl-push_byte acc [] h lt = refl
foldl-push_byte acc (b ∷ bs) h lt =
    let le : acc * 256 + b ≤ be_value (acc * 256 + b) bs = le-be_value (acc * 256 + b) bs in
    rw (push_byte_lem acc b h.0 (omega arith)) (foldl-push_byte (acc * 256 + b) bs h.1 lt)

to_u64-be_value : (bs : List ℕ) → All IsByte bs → be_value 0 bs < 2 ^ 64 → to_u64 bs ≡ be_value 0 bs
unfolding to_u64
to_u64-be_value bs h lt = foldl-push_byte 0 bs h lt

pub be_bytes-IsByte : (k n : ℕ) → All IsByte (be_bytes k n)
unfolding be_bytes
be_bytes-IsByte zero n = tt
be_bytes-IsByte (suc k) n = (omega arith, be_bytes-IsByte k n)

pub be_value-be_bytes_four : (n : ℕ) → n < 2 ^ 32 → be_value 0 (be_bytes 4 n) ≡ n
unfolding be_bytes
be_value-be_bytes_four n h = omega arith

be_value-be_bytes_eight : (n : ℕ) → n < 2 ^ 64 → be_value 0 (be_bytes 8 n) ≡ n
unfolding be_bytes
be_value-be_bytes_eight n h = omega arith

-- Dropping leading zeros does not change the number.
pub be_value-drop :
    (k : ℕ) (bs : List ℕ) → k ≤ leading_zeros bs → be_value 0 (drop k bs) ≡ be_value 0 bs
unfolding leading_zeros
be_value-drop zero bs h = refl
be_value-drop (suc k) [] h = refl
be_value-drop (suc k) (b ∷ bs) h = ground (arith, be_value-drop k bs)

pub leading_zeros-lt_length : (bs : List ℕ) → 0 < be_value 0 bs → leading_zeros bs < length bs
unfolding leading_zeros
leading_zeros-lt_length [] h = h
leading_zeros-lt_length (b ∷ bs) h = ground (arith, leading_zeros-lt_length bs)

pub IsByte-drop : (k : ℕ) (bs : List ℕ) → All IsByte bs → All IsByte (drop k bs)
IsByte-drop zero bs h = h
IsByte-drop (suc k) [] h = h
IsByte-drop (suc k) (b ∷ bs) h = IsByte-drop k bs h.1

-- A leading zero does not change what is read.
to_u64-zero : (bs : List ℕ) → to_u64 (0 ∷ bs) ≡ to_u64 bs
unfolding to_u64 push_byte
to_u64-zero bs = refl

to_u64-sign_pad : (bs : List ℕ) → to_u64 (sign_pad bs) ≡ to_u64 bs
unfolding sign_pad
to_u64-sign_pad [] = refl
to_u64-sign_pad (b ∷ bs) = ground (arith, to_u64-zero (b ∷ bs))

-- Reading the contents that `from_u64` writes gives the number back, for every u64.
pub to_u64-from_u64 : (v : ℕ) → v < 2 ^ 64 → to_u64 (from_u64 v) ≡ v
unfolding from_u64
to_u64-from_u64 v h =
    to_u64-sign_pad (drop k bytes)
    ∙ to_u64-be_value (drop k bytes) (IsByte-drop k bytes (be_bytes-IsByte 8 v))
        (omega (arith, value))
    ∙ value
  where
    bytes : List ℕ
    bytes = be_bytes 8 v

    k : ℕ
    k = min (leading_zeros bytes) 7

    value : be_value 0 (drop k bytes) ≡ v
    value = be_value-drop k bytes (omega arith) ∙ be_value-be_bytes_eight v h

-- DER's rule for a non-negative INTEGER: one byte at least, no sign bit, and a leading zero only
-- in front of a byte that has its top bit set.
abbrev pub IsMinimal : List ℕ → Type 0
IsMinimal [] = ⊥
IsMinimal (b ∷ []) = b < 128
IsMinimal (b ∷ c ∷ bs) = (b < 128) × (b ≡ 0 → 128 ≤ c)

sign_pad-IsMinimal :
    (b : ℕ) (bs : List ℕ) → All IsByte (b ∷ bs) → b ≢ 0 → IsMinimal (sign_pad (b ∷ bs))
unfolding sign_pad
sign_pad-IsMinimal b [] h ne = ground (arith, bit_and-0x80 b)
sign_pad-IsMinimal b (c ∷ bs) h ne = ground (arith, bit_and-0x80 b)

sign_pad_single : (b : ℕ) → b < 256 → IsMinimal (sign_pad (b ∷ []))
unfolding sign_pad
sign_pad_single b h = ground (arith, bit_and-0x80 b)

trimmed-IsMinimal :
    (k : ℕ) (bs : List ℕ)
    → length bs ≡ suc k
    → All IsByte bs
    → IsMinimal (sign_pad (drop (min (leading_zeros bs) k) bs))
trimmed-IsMinimal k [] e h = absurd (omega arith)
trimmed-IsMinimal zero (b ∷ []) e h =
    let none_dropped : min (leading_zeros (b ∷ [])) 0 ≡ 0 = omega arith in
    rw none_dropped (sign_pad_single b h.0)
trimmed-IsMinimal zero (b ∷ c ∷ bs) e h = absurd (omega arith)
trimmed-IsMinimal (suc k) (b ∷ bs) e h = elim (Bool-cases (b == 0)) [
  | inl zero_byte ↦
      let more : leading_zeros (b ∷ bs) ≡ suc (leading_zeros bs) =
        unfold leading_zeros in rw zero_byte in
      let dropped : min (leading_zeros (b ∷ bs)) (suc k) ≡ suc (min (leading_zeros bs) k) =
        omega (arith, more) in
      rw dropped (trimmed-IsMinimal k bs (omega arith) h.1)
  | inr other ↦
      let first : leading_zeros (b ∷ bs) ≡ 0 = unfold leading_zeros in rw other in
      let none_dropped : min (leading_zeros (b ∷ bs)) (suc k) ≡ 0 = omega (arith, first) in
      rw none_dropped (sign_pad-IsMinimal b bs h (ground arith))
]

pub length-be_bytes : (k n : ℕ) → length (be_bytes k n) ≡ k
unfolding be_bytes
length-be_bytes zero n = refl
length-be_bytes (suc k) n = omega (arith, length-be_bytes k n)

-- `from_u64` writes the minimal contents: it is never empty, its sign bit is clear, and it has a
-- leading zero only where the sign bit needs one.
pub from_u64-IsMinimal : (v : ℕ) → IsMinimal (from_u64 v)
unfolding from_u64
from_u64-IsMinimal v =
    trimmed-IsMinimal 7 (be_bytes 8 v) (length-be_bytes 8 v) (be_bytes-IsByte 8 v)

length-sign_pad : (bs : List ℕ) → length (sign_pad bs) ≤ suc (length bs)
unfolding sign_pad
length-sign_pad [] = omega arith
length-sign_pad (b ∷ bs) = ground arith

pub length-from_u64 : (v : ℕ) → length (from_u64 v) ≤ 9
unfolding from_u64
length-from_u64 v =
    let k = min (leading_zeros (be_bytes 8 v)) 7 in
    omega (
      arith,
      length-sign_pad (drop k (be_bytes 8 v)),
      length-drop k (be_bytes 8 v),
      length-be_bytes 8 v,
    )
