-- ===== src/Euicc/Hex/Tests.antt =====
-- Runs of the codec, and the theorems at concrete texts.
use mu5250_open_ui.Base.{ℕ, ◌≡◌, refl, none, some, List, [], ◌∷◌, length, arith}
use mu5250_open_ui.Euicc.Hex.{
  decode, iccid_to_bcd, bcd_to_iccid, decode_pairs, hex_value, pair_value, swap_pairs, repeat,
  even_digits,
}
use mu5250_open_ui.Euicc.Hex.Iccid.{bcd_to_iccid-iccid_to_bcd}

abbrev bytes : List ℕ
bytes = 0xbf ∷ (0x2d ∷ (0 ∷ []))

abbrev digits : List ℕ
digits = b'9' ∷ (b'0' ∷ [])

-- Three digits in two bytes: 891 is 98 F1.
three_digits : iccid_to_bcd (b'8' ∷ (b'9' ∷ (b'1' ∷ []))) 2 ≡ some (0x98 ∷ (0xf1 ∷ []))
unfolding iccid_to_bcd even_digits swap_pairs decode decode_pairs pair_value hex_value repeat
three_digits = refl

odd_length : decode (b'8' ∷ []) ≡ none
unfolding decode
odd_length = refl

bcd_to_iccid-iccid_to_bcd_example :
    (out : List ℕ) × (iccid_to_bcd (b'8' ∷ digits) 10 ≡ some out)
    × (length out ≡ 10)
    × (bcd_to_iccid out ≡ b'8' ∷ digits)
bcd_to_iccid-iccid_to_bcd_example =
    bcd_to_iccid-iccid_to_bcd b'8' digits 10
      ((omega arith, omega arith), ((omega arith, omega arith), ((omega arith, omega arith), tt)))
      (omega arith)
