-- ===== src/Euicc/B64/Tests.antt =====
-- Runs of the base64 reader.
use mu5250_open_ui.Base.{ℕ, ◌≡◌, refl, List, [], ◌∷◌, arith}
use mu5250_open_ui.Base.Texts.{codes}
use mu5250_open_ui.Euicc.B64.{decode, sextets, sextet, groups, first_byte, second_byte, third_byte}
use mu5250_open_ui.Euicc.B64.RoundTrip.{standard, symbol, decode-standard}

abbrev card : List ℕ
card = b'c' ∷ b'a' ∷ b'r' ∷ b'd' ∷ []

standard_run : standard card ≡ codes "Y2FyZA=="
unfolding standard symbol
standard_run = refl

-- The first character outside the alphabet ends the text.
decode_stops : decode (codes "Y2Fy\nZA==") ≡ b'c' ∷ b'a' ∷ b'r' ∷ []
unfolding decode sextets sextet groups first_byte second_byte third_byte
decode_stops = refl

decode-standard_example : decode (standard card) ≡ card
decode-standard_example = decode-standard card (omega arith)
