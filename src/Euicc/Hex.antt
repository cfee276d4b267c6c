-- ===== src/Euicc/Hex.antt =====
-- euicc/src/hex.rs: hexadecimal texts, and the ICCIDs of SIM cards as digits with swapped nibbles.
-- Texts are lists of bytes.
pub mod RoundTrip
pub mod Iccid
mod Tests
use mu5250_open_ui.Base.{
  ℕ, zero, suc, ◌+◌, ◌-◌, ◌*◌, ◌/◌, ◌%◌, Bool, true, false, not, ◌&&◌, ◌||◌, Option, none, some,
  List, [], ◌∷◌, ◌++◌, length, bit_and, bit_or, ltb, leb, ◌==◌, if◌then◌else◌,
}
use mu5250_open_ui.Base.Options.{◌>>=◌}

-- The characters of `DIGITS`.
unfoldable pub hex_char : ℕ → ℕ
hex_char n = if ltb n 10 then b'0' + n else b'a' + (n - 10)

unfoldable pub encode : List ℕ → List ℕ
unfolding hex_char
encode [] = []
encode (b ∷ bytes) = hex_char (b / 16) ∷ hex_char (bit_and b 0xf) ∷ encode bytes

-- `(c as char).to_digit(16)`
unfoldable pub hex_value : ℕ → Option ℕ
hex_value c =
    if leb b'0' c && leb c b'9'
    then some (c - b'0')
    else if leb b'a' c && leb c b'f'
    then some (c - b'a' + 10)
    else if leb b'A' c && leb c b'F'
    then some (c - b'A' + 10)
    else none

unfoldable pub pair_value : ℕ → ℕ → Option ℕ
pair_value x y = hex_value x >>= λ a. hex_value y >>= λ b. some (bit_or (a * 16) b % 256)

-- The chunks of two characters, each decoded.
unfoldable pub decode_pairs : List ℕ → Option (List ℕ)
decode_pairs [] = some []
decode_pairs (x ∷ []) = none
decode_pairs (x ∷ (y ∷ rest)) =
    let more = decode_pairs rest in pair_value x y >>= λ b. more >>= λ bs. some (b ∷ bs)

unfoldable pub decode : List ℕ → Option (List ℕ)
decode hex = if length hex % 2 == 0 then decode_pairs hex else none

-- `for pair in chars.chunks_mut(2) { pair.swap(0, 1) }`, for an even number of characters.
unfoldable pub swap_pairs : List ℕ → List ℕ
swap_pairs [] = []
swap_pairs (x ∷ []) = x ∷ []
swap_pairs (x ∷ (y ∷ rest)) = y ∷ (x ∷ swap_pairs rest)

unfoldable pub repeat : ℕ → ℕ → List ℕ
repeat zero b = []
repeat (suc n) b = b ∷ repeat n b

-- `push(b'f')` after an odd number of digits.
unfoldable pub even_digits : List ℕ → List ℕ
even_digits digits = if length digits % 2 == 0 then digits else digits ++ (b'f' ∷ [])

unfoldable pub iccid_to_bcd : List ℕ → ℕ → Option (List ℕ)
iccid_to_bcd digits padding_to = decode (swap_pairs (even_digits digits)) >>= λ out.
    if ltb padding_to (length out)
    then none
    else some (out ++ repeat (padding_to - length out) 0xff)

abbrev pub is_empty : List ℕ → Bool
is_empty [] = true
is_empty (x ∷ xs) = false

-- Without its trailing `f`s.
unfoldable pub drop_padding : List ℕ → List ℕ
drop_padding [] = []
drop_padding (x ∷ xs) =
    let rest = drop_padding xs in if x == b'f' && is_empty rest then [] else x ∷ rest

-- `while chars.len() > 1 && chars.last() == Some(&b'f') { chars.pop() }`
unfoldable pub strip_padding : List ℕ → List ℕ
strip_padding [] = []
strip_padding (x ∷ xs) = x ∷ drop_padding xs

unfoldable pub bcd_to_iccid : List ℕ → List ℕ
bcd_to_iccid bin = strip_padding (swap_pairs (encode bin))
