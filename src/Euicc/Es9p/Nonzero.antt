-- ===== src/Euicc/Es9p/Nonzero.antt =====
-- The printed object of a request has no NUL.
use mu5250_open_ui.Base.{
  ℕ, ◌/◌, ◌%◌, ◌<◌, ◌≡◌, refl, Option, none, some, List, [], ◌∷◌, ◌++◌, All, All-append, arith,
}
use mu5250_open_ui.Euicc.Es9p.Json.{c_bytes}
use mu5250_open_ui.Euicc.Es9p.Strings.{escape_byte, escaped, print_string, hex_digit}
use mu5250_open_ui.Euicc.Es9p.Exchange.{print_value, print_member, print_others, print_object}
use mu5250_open_ui.Euicc.Es9p.RoundTrip.{letter, control, plain, escape_form}

-- No byte of the printed text is NUL, so that the parser reads all of it.
abbrev pub IsNonzero : ℕ → Type 0
IsNonzero b = 0 < b

pub c_bytes_self : (xs : List ℕ) → All IsNonzero xs → c_bytes xs ≡ xs
unfolding c_bytes
c_bytes_self [] h = refl
c_bytes_self (b ∷ xs) h = ground (arith, h.0, c_bytes_self xs h.1)

hex_digit-pos : (n : ℕ) → n < 16 → 0 < hex_digit n
unfolding hex_digit
hex_digit-pos n h = ground arith

escape_byte-IsNonzero : (b : ℕ) → All IsNonzero (escape_byte b)
escape_byte-IsNonzero b = elim (escape_form b) [
  | letter x z e f ↦ rw e (omega arith)
  | control small e ↦
      rw e
        (omega (arith, hex_digit-pos (b / 16) (omega arith), hex_digit-pos (b % 16) (omega arith)))
  | plain large e a d ↦ rw e (omega arith)
]

escaped-IsNonzero : (v : List ℕ) → All IsNonzero (escaped v)
unfolding escaped
escaped-IsNonzero [] = tt
escaped-IsNonzero (b ∷ v) =
    All-append IsNonzero (escape_byte b) (escaped v) (escape_byte-IsNonzero b) (escaped-IsNonzero v)

print_string-IsNonzero : (v : List ℕ) → All IsNonzero (print_string v)
unfolding print_string
print_string-IsNonzero v =
    (omega arith, All-append IsNonzero (escaped v) (34 ∷ []) (escaped-IsNonzero v) (omega arith))

print_value-IsNonzero : (o : Option (List ℕ)) → All IsNonzero (print_value o)
print_value-IsNonzero none = omega arith
print_value-IsNonzero (some v) = print_string-IsNonzero (c_bytes v)

print_member-IsNonzero : (name : List ℕ) (o : Option (List ℕ)) → All IsNonzero (print_member name o)
unfolding print_member
print_member-IsNonzero name o =
    All-append IsNonzero (print_string (c_bytes name)) (b':' ∷ print_value o)
      (print_string-IsNonzero (c_bytes name)) (omega arith, print_value-IsNonzero o)

print_others-IsNonzero : (ms : List (List ℕ × Option (List ℕ))) → All IsNonzero (print_others ms)
unfolding print_others
print_others-IsNonzero [] = tt
print_others-IsNonzero ((name, o) ∷ ms) = (
  omega arith,
  All-append IsNonzero (print_member name o) (print_others ms) (print_member-IsNonzero name o)
      (print_others-IsNonzero ms),
)

pub print_object-IsNonzero :
    (ms : List (List ℕ × Option (List ℕ))) → All IsNonzero (print_object ms)
unfolding print_object
print_object-IsNonzero [] = omega arith
print_object-IsNonzero ((name, o) ∷ ms) = (
  omega arith,
  All-append IsNonzero (print_member name o) (print_others ms ++ (b'}' ∷ []))
      (print_member-IsNonzero name o)
      (All-append IsNonzero (print_others ms) (b'}' ∷ []) (print_others-IsNonzero ms)
        (omega arith)),
)
