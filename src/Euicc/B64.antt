-- ===== src/Euicc/B64.antt =====
-- euicc/src/b64.rs: base64 as the library of the card reads it. Texts are lists of bytes.
pub mod RoundTrip
mod Tests
use mu5250_open_ui.Base.{
  ℕ, ◌+◌, ◌-◌, ◌*◌, ◌/◌, ◌%◌, Bool, ◌&&◌, Option, none, some, List, [], ◌∷◌, bit_or, leb, ◌==◌,
  if◌then◌else◌,
}

unfoldable pub sextet : ℕ → Option ℕ
sextet c =
    if leb b'A' c && leb c b'Z'
    then some (c - b'A')
    else if leb b'a' c && leb c b'z'
    then some (c - b'a' + 26)
    else if leb b'0' c && leb c b'9'
    then some (c - b'0' + 52)
    else if c == b'+'
    then some 62
    else if c == b'/'
    then some 63
    else none

-- `text.bytes().map_while(sextet)`
unfoldable pub sextets : List ℕ → List ℕ
unfolding sextet
sextets [] = []
sextets (c ∷ cs) = let rest = sextets cs in elim (sextet c) [ none ↦ [] | some v ↦ v ∷ rest ]

-- The bytes of a group of two, three and four characters; `<<` keeps the low 8 bits.
unfoldable pub first_byte : ℕ → ℕ → ℕ
first_byte a b = bit_or (a * 4 % 256) (b / 16)

unfoldable pub second_byte : ℕ → ℕ → ℕ
second_byte b c = bit_or (b * 16 % 256) (c / 4)

unfoldable pub third_byte : ℕ → ℕ → ℕ
third_byte c d = bit_or (c * 64 % 256) d

-- The loop over the groups of four.
unfoldable pub groups : List ℕ → List ℕ
unfolding first_byte second_byte third_byte
groups [] = []
groups (a ∷ []) = []
groups (a ∷ (b ∷ [])) = first_byte a b ∷ []
groups (a ∷ (b ∷ (c ∷ []))) = first_byte a b ∷ second_byte b c ∷ []
groups (a ∷ (b ∷ (c ∷ (d ∷ rest)))) =
    first_byte a b ∷ second_byte b c ∷ third_byte c d ∷ groups rest

unfoldable pub decode : List ℕ → List ℕ
unfolding sextets groups
decode text = groups (sextets text)
