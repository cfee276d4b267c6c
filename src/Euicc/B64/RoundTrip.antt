-- ===== src/Euicc/B64/RoundTrip.antt =====
-- Base64 text as RFC 4648 writes it, read back.
use mu5250_open_ui.Base.{
  ℕ, ◌+◌, ◌-◌, ◌*◌, ◌/◌, ◌%◌, ◌<◌, ◌≡◌, refl, ap, ◌∙◌, Bool, true, false, Option, none, some, List,
  [], ◌∷◌, ltb, ◌==◌, ==_iff, if◌then◌else◌, arith, All,
}
use mu5250_open_ui.Base.Bits.{IsByte, holds_below, holds_below→holds, bit_or-shift}
use mu5250_open_ui.Euicc.B64.{sextet, sextets, first_byte, second_byte, third_byte, groups, decode}

-- The standard alphabet.
unfoldable pub symbol : ℕ → ℕ
symbol v =
    if ltb v 26
    then b'A' + v
    else if ltb v 52
    then b'a' + (v - 26)
    else if ltb v 62
    then b'0' + (v - 52)
    else if v == 62
    then b'+'
    else b'/'

-- The standard encoding with padding.
unfoldable pub standard : List ℕ → List ℕ
unfolding symbol
standard [] = []
standard (x ∷ []) = symbol (x / 4) ∷ symbol (x % 4 * 16) ∷ b'=' ∷ b'=' ∷ []
standard (x ∷ (y ∷ [])) =
    symbol (x / 4) ∷ symbol (x % 4 * 16 + y / 16) ∷ symbol (y % 16 * 4) ∷ b'=' ∷ []
standard (x ∷ (y ∷ (z ∷ rest))) =
    symbol (x / 4)
    ∷ symbol (x % 4 * 16 + y / 16)
    ∷ symbol (y % 16 * 4 + z / 64)
    ∷ symbol (z % 64)
    ∷ standard rest

unfoldable is_value : Option ℕ → ℕ → Bool
is_value none n = false
is_value (some m) n = m == n

is_value_sound : (o : Option ℕ) (n : ℕ) → is_value o n ≡ true → o ≡ some n
unfolding is_value
is_value_sound none n h = absurd (ground (arith, h))
is_value_sound (some m) n h = ap some ((==_iff m n).0 h)

sextet-symbol : (v : ℕ) → v < 64 → sextet (symbol v) ≡ some v
unfolding holds_below is_value sextet symbol
sextet-symbol v h =
    is_value_sound (sextet (symbol v)) v
      (holds_below→holds 64 (λ c. is_value (sextet (symbol c)) c) v refl h)

sextets-symbol : (v : ℕ) (rest : List ℕ) → v < 64 → sextets (symbol v ∷ rest) ≡ v ∷ sextets rest
unfolding sextets
sextets-symbol v rest h = rw (sextets, sextet-symbol v h) refl

first_byte_lem : (x y : ℕ) → x < 256 → y < 16 → first_byte (x / 4) (x % 4 * 16 + y) ≡ x
unfolding first_byte
first_byte_lem x y h k =
    let low : (x % 4 * 16 + y) / 16 ≡ x % 4 = omega arith in
    let high : x / 4 * 4 % 256 ≡ x / 4 * 4 = omega arith in
    rw (low, high) (bit_or-shift 2 (x / 4) (x % 4) (omega arith) ∙ omega arith)

second_byte_lem : (a y z : ℕ) → y < 256 → z < 4 → second_byte (a * 16 + y / 16) (y % 16 * 4 + z) ≡ y
unfolding second_byte
second_byte_lem a y z h k =
    let low : (y % 16 * 4 + z) / 4 ≡ y % 16 = omega arith in
    let high : (a * 16 + y / 16) * 16 % 256 ≡ y / 16 * 16 = omega arith in
    rw (low, high) (bit_or-shift 4 (y / 16) (y % 16) (omega arith) ∙ omega arith)

third_byte_lem : (b z : ℕ) → z < 256 → third_byte (b * 4 + z / 64) (z % 64) ≡ z
unfolding third_byte
third_byte_lem b z h =
    let high : (b * 4 + z / 64) * 64 % 256 ≡ z / 64 * 64 = omega arith in
    rw high (bit_or-shift 6 (z / 64) (z % 64) (omega arith) ∙ omega arith)

-- The values of the characters that are not padding.
unfoldable values : List ℕ → List ℕ
values [] = []
values (x ∷ []) = (x / 4) ∷ (x % 4 * 16) ∷ []
values (x ∷ (y ∷ [])) = (x / 4) ∷ (x % 4 * 16 + y / 16) ∷ (y % 16 * 4) ∷ []
values (x ∷ (y ∷ (z ∷ rest))) =
    (x / 4) ∷ (x % 4 * 16 + y / 16) ∷ (y % 16 * 4 + z / 64) ∷ (z % 64) ∷ values rest

sextets-padding : (rest : List ℕ) → sextets (b'=' ∷ rest) ≡ []
unfolding sextets sextet
sextets-padding rest = refl

sextets_one :
    (v : ℕ) (rest vs : List ℕ) → v < 64 → sextets rest ≡ vs → sextets (symbol v ∷ rest) ≡ v ∷ vs
sextets_one v rest vs h e = sextets-symbol v rest h ∙ ap (λ t. v ∷ t) e

sextets-standard : (bs : List ℕ) → All IsByte bs → sextets (standard bs) ≡ values bs
unfolding standard values
sextets-standard [] h = unfold sextets in refl
sextets-standard (x ∷ []) (h, _) =
    sextets_one _ _ _ (omega (arith, h)) (sextets_one _ _ _ (omega arith) (sextets-padding _))
sextets-standard (x ∷ (y ∷ [])) (h, (k, _)) =
    sextets_one _ _ _ (omega (arith, h))
      (sextets_one _ _ _ (omega (arith, k)) (sextets_one _ _ _ (omega arith) (sextets-padding _)))
sextets-standard (x ∷ (y ∷ (z ∷ bs))) (h, (k, (l, hs))) = sextets_one _ _ _ (omega (arith, h)) (
    sextets_one _ _ _ (omega (arith, k)) (
      sextets_one _ _ _ (omega (arith, l))
        (sextets_one _ _ _ (omega arith) (sextets-standard bs hs))))

plus_none : (n : ℕ) → n ≡ n + 0
plus_none n = omega arith

groups-values : (bs : List ℕ) → All IsByte bs → groups (values bs) ≡ bs
unfolding groups values
groups-values [] h = refl
groups-values (x ∷ []) (h, _) =
    ap (λ m. first_byte (x / 4) m ∷ []) (plus_none (x % 4 * 16))
    ∙ ap (λ b. b ∷ []) (first_byte_lem x 0 h (omega arith))
groups-values (x ∷ (y ∷ [])) (h, (k, _)) =
    ap (λ b. b ∷ second_byte (x % 4 * 16 + y / 16) (y % 16 * 4) ∷ [])
      (first_byte_lem x (y / 16) h (omega (arith, k)))
    ∙ ap (λ m. x ∷ second_byte (x % 4 * 16 + y / 16) m ∷ []) (plus_none (y % 16 * 4))
    ∙ ap (λ b. x ∷ b ∷ []) (second_byte_lem (x % 4) y 0 k (omega arith))
groups-values (x ∷ (y ∷ (z ∷ bs))) (h, (k, (l, hs))) =
    rw
      (
        first_byte_lem x (y / 16) h (omega (arith, k)),
        second_byte_lem (x % 4) y (z / 64) k (omega (arith, l)),
        third_byte_lem (y % 16) z l,
        groups-values bs hs,
      )
      refl

-- The reader gives back every list of bytes from its standard encoding with padding.
pub decode-standard : (bs : List ℕ) → All IsByte bs → decode (standard bs) ≡ bs
unfolding decode
decode-standard bs h = ap groups (sextets-standard bs h) ∙ groups-values bs h
