-- ===== src/Euicc/Hex/RoundTrip.antt =====
-- Encoding and decoding, both ways.
use mu5250_open_ui.Base.{
  ℕ, ◌+◌, ◌-◌, ◌*◌, ◌/◌, ◌%◌, ◌<◌, ◌≤◌, ◌≡◌, refl, ap, ◌∙◌, Bool, true, false, Option, none, some,
  List, [], ◌∷◌, length, bit_and, bit_or, ◌==◌, ==_iff, arith, All,
}
use mu5250_open_ui.Base.Bits.{IsByte, holds_below, holds_below→holds, agree_below, bit_or-shift}
use mu5250_open_ui.Euicc.Hex.{hex_char, encode, hex_value, pair_value, decode_pairs, decode}

unfoldable is_value : Option ℕ → ℕ → Bool
is_value none n = false
is_value (some m) n = m == n

is_value_sound : (o : Option ℕ) (n : ℕ) → is_value o n ≡ true → o ≡ some n
unfolding is_value
is_value_sound none n h = absurd (ground (arith, h))
is_value_sound (some m) n h = ap some ((==_iff m n).0 h)

pair_value-hex_char :
    (b : ℕ) → b < 256 → pair_value (hex_char (b / 16)) (hex_char (bit_and b 0xf)) ≡ some b
unfolding holds_below is_value pair_value hex_value hex_char
pair_value-hex_char b h =
    is_value_sound (pair_value (hex_char (b / 16)) (hex_char (bit_and b 0xf))) b (
      holds_below→holds 256
        (λ c. is_value (pair_value (hex_char (c / 16)) (hex_char (bit_and c 0xf))) c) b refl h)

decode_pairs-encode : (bs : List ℕ) → All IsByte bs → decode_pairs (encode bs) ≡ some bs
unfolding decode_pairs encode
decode_pairs-encode [] h = refl
decode_pairs-encode (b ∷ bs) h =
    ground (arith, pair_value-hex_char b h.0, decode_pairs-encode bs h.1)

even-length-encode : (bs : List ℕ) → length (encode bs) % 2 ≡ 0
unfolding encode
even-length-encode [] = refl
even-length-encode (b ∷ bs) = omega (arith, even-length-encode bs)

-- Decoding the hexadecimal text of a list of bytes gives the bytes back.
pub decode-encode : (bs : List ℕ) → All IsByte bs → decode (encode bs) ≡ some bs
unfolding decode
decode-encode bs h = ground (arith, even-length-encode bs, decode_pairs-encode bs h)

-- A lower-case hexadecimal character.
abbrev pub IsLower : ℕ → Type 0
IsLower c = (v : ℕ) × (v < 16) × (hex_value c ≡ some v) × (hex_char v ≡ c)

abbrev pub IsDigit : ℕ → Type 0
IsDigit c = (b'0' ≤ c) × (c ≤ b'9')

pub digit-IsLower : (c : ℕ) → IsDigit c → IsLower c
unfolding hex_value hex_char
digit-IsLower c h =
    (c - b'0', omega (arith, h.0, h.1), ground (arith, h.0, h.1), ground (arith, h.0, h.1))

low_nibble : (b : ℕ) → b < 256 → bit_and b 0xf ≡ b % 16
unfolding holds_below
low_nibble = agree_below 256 (λ b. bit_and b 0xf) (λ b. b % 16) refl

pair_lower :
    (x y : ℕ)
    → IsLower x
    → IsLower y
    → (b : ℕ) × (pair_value x y ≡ some b) × (hex_char (b / 16) ≡ x) × (hex_char (bit_and b 0xf) ≡ y)
unfolding pair_value
pair_lower x y (a, a<, ax, xa) (b, b<, by, yb) =
    let n = a * 16 + b in
    let joined : bit_or (a * 16) b ≡ n = bit_or-shift 4 a b (omega (arith, b<)) in
    let low : bit_and n 0xf ≡ b = low_nibble n (omega (arith, a<, b<)) ∙ omega (arith, b<) in
    let high : n / 16 ≡ a = omega (arith, b<) in
    let byte : bit_or (a * 16) b % 256 ≡ n = omega (arith, joined, a<, b<) in
    (n, ground (arith, ax, by, byte), ap hex_char high ∙ xa, ap hex_char low ∙ yb)

pub encode-decode_pairs :
    (s : List ℕ)
    → length s % 2 ≡ 0
    → All IsLower s
    → (out : List ℕ) × (decode_pairs s ≡ some out) × (encode out ≡ s)
unfolding decode_pairs encode
encode-decode_pairs [] e h = ([], refl, refl)
encode-decode_pairs (x ∷ []) e h = absurd (omega (arith, e))
encode-decode_pairs (x ∷ (y ∷ s)) e h =
    let (b, p, hi, lo) = pair_lower x y h.0 h.1.0 in
    let (out, q, r) = encode-decode_pairs s (omega (arith, e)) h.1.1 in
    (b ∷ out, ground (arith, p, q), ground (arith, hi, lo, r))
