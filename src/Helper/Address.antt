-- ===== src/Helper/Address.antt =====
-- esim-helper/src/https.rs: valid_address, which says which server addresses are dialled. A text is its bytes.
pub mod Server
mod Tests
use mu5250_open_ui.Base.{
  ℕ, ◌+◌, ◌-◌, ◌*◌, Bool, true, false, not, ◌&&◌, ◌||◌, Option, none, some, List, [], ◌∷◌, length,
  leb, ◌==◌, if◌then◌else◌,
}
use mu5250_open_ui.Base.Split.{split, rsplit_once}
use mu5250_open_ui.Euicc.Hex.{is_empty}

-- `u8::is_ascii_digit` and `u8::is_ascii_alphanumeric`
unfoldable pub is_digit : ℕ → Bool
is_digit b = leb b'0' b && leb b b'9'

unfoldable pub is_alphanumeric : ℕ → Bool
unfolding is_digit
is_alphanumeric b = is_digit b || ((leb b'A' b && leb b b'Z') || (leb b'a' b && leb b b'z'))

unfoldable pub all : {A : Type 0} → (A → Bool) → List A → Bool
all p [] = true
all p (x ∷ xs) = p x && all p xs

unfoldable pub last : {A : Type 0} → List A → Option A
last [] = none
last (x ∷ []) = some x
last (x ∷ (y ∷ ys)) = last (y ∷ ys)

-- The digits of a `u16`, behind the number `n` that is read already.
unfoldable pub u16_digits : ℕ → List ℕ → Option ℕ
unfolding is_digit
u16_digits n [] = some n
u16_digits n (b ∷ bs) =
    let m = n * 10 + (b - b'0') in
    let rest = u16_digits m bs in if is_digit b && leb m 65535 then rest else none

-- `str::parse::<u16>`, which lets a plus sign stand in front of the digits.
unfoldable pub parse_u16 : List ℕ → Option ℕ
unfolding u16_digits
parse_u16 [] = none
parse_u16 (b ∷ []) = u16_digits 0 (b ∷ [])
parse_u16 (b ∷ (c ∷ bs)) = if b == b'+' then u16_digits 0 (c ∷ bs) else u16_digits 0 (b ∷ (c ∷ bs))

-- `p.parse::<u16>().map_or(true, |p| p == 0)`
abbrev pub is_bad_port : Option ℕ → Bool
is_bad_port none = true
is_bad_port (some p) = p == 0

abbrev pub is_hyphen : Option ℕ → Bool
is_hyphen none = false
is_hyphen (some b) = b == b'-'

-- `l.starts_with('-')`
abbrev pub starts_with_hyphen : List ℕ → Bool
starts_with_hyphen [] = false
starts_with_hyphen (b ∷ bs) = b == b'-'

unfoldable pub is_name_byte : ℕ → Bool
unfolding is_alphanumeric
is_name_byte b = is_alphanumeric b || b == b'-'

unfoldable pub valid_label : List ℕ → Bool
unfolding all is_name_byte last
valid_label l =
    not (is_empty l)
    && (leb (length l) 63
        && (not (starts_with_hyphen l) && (not (is_hyphen (last l)) && all is_name_byte l)))

abbrev pub is_number : Option (List ℕ) → Bool
is_number none = false
is_number (some l) = all is_digit l

-- The tests on the host.
unfoldable pub valid_host : List ℕ → Bool
unfolding split all last valid_label is_digit
valid_host host =
    let labels = split b'.' host in
    not (is_empty host)
    && (leb (length host) 253
        && (leb 2 (length labels) && (all valid_label labels && not (is_number (last labels)))))

unfoldable pub valid_address : List ℕ → Bool
unfolding rsplit_once parse_u16 valid_host
valid_address address = elim (rsplit_once b':' address) [
  | some (host, port) ↦ if is_bad_port (parse_u16 port) then false else valid_host host
  | none ↦ valid_host address
]
