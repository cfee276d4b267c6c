-- ===== src/Euicc/Es9p/Numbers.antt =====
-- euicc/src/es9p.rs: how much of a text is a number of JSON.
use mu5250_open_ui.Base.{
  ℕ, ◌+◌, Bool, false, ◌&&◌, ◌||◌, Option, none, some, List, [], ◌∷◌, drop, ltb, leb, ◌==◌,
  if◌then◌else◌,
}

abbrev pub is_digit : ℕ → Bool
is_digit b = leb b'0' b && leb b b'9'

abbrev is_number_byte : ℕ → Bool
is_number_byte b =
    is_digit b || (b == b'+' || (b == b'-' || (b == b'e' || (b == b'E' || b == b'.'))))

-- The bytes of `0-9 + - e E .` at the front.
unfoldable pub number_run : List ℕ → List ℕ
number_run [] = []
number_run (b ∷ s) = let rest = number_run s in if is_number_byte b then b ∷ rest else []

-- The number of digits at the front.
unfoldable pub digits : List ℕ → ℕ
digits [] = 0
digits (b ∷ s) = let rest = digits s in if is_digit b then rest + 1 else 0

abbrev starts_with_either : ℕ → ℕ → List ℕ → Bool
starts_with_either x y [] = false
starts_with_either x y (b ∷ s) = b == x || b == y

-- The exponent behind the first `i` bytes, if there is one.
unfoldable pub exponent_end : ℕ → List ℕ → ℕ
unfolding digits
exponent_end i s =
    let e = i + 1 + (if starts_with_either b'+' b'-' (drop (i + 1) s) then 1 else 0) in
    if starts_with_either b'e' b'E' (drop i s) && ltb 0 (digits (drop e s))
    then e + digits (drop e s)
    else i

unfoldable pub strtod_len : List ℕ → ℕ
unfolding exponent_end
strtod_len s =
    let i = if starts_with_either b'+' b'-' s then 1 else 0 in
    let int_digits = digits (drop i s) in
    let i = i + int_digits in
    let dot = starts_with_either b'.' b'.' (drop i s) in
    let frac_digits = if dot then digits (drop (i + 1) s) else 0 in
    let i = if dot && ltb 0 (int_digits + frac_digits) then i + 1 + frac_digits else i in
    if int_digits + frac_digits == 0 then 0 else exponent_end i s

-- `Parser::number`: the bytes left behind the number.
unfoldable pub number : List ℕ → Option (List ℕ)
unfolding number_run strtod_len
number p = let n = strtod_len (number_run p) in if n == 0 then none else some (drop n p)
