-- ===== src/Euicc/Es9p/Strings.antt =====
-- euicc/src/es9p.rs: the strings of JSON, printed and parsed. A position in the text is the list of
-- the bytes that are left there.
use mu5250_open_ui.Base.{
  ℕ, zero, suc, ◌+◌, ◌-◌, ◌*◌, ◌/◌, ◌%◌, ◌^◌, Bool, false, not, ◌&&◌, ◌||◌, Option, none, some,
  List, [], ◌∷◌, ◌++◌, length, take, drop, bit_and, bit_or, ltb, leb, ◌==◌, if◌then◌else◌,
}
use mu5250_open_ui.Base.Options.{◌>>=◌}
use mu5250_open_ui.Base.Utf8.{encode_utf8, from_u32}

-- `HEX[..]`
unfoldable pub hex_digit : ℕ → ℕ
hex_digit n = if ltb n 10 then b'0' + n else b'a' + n - 10

unfoldable pub escape_byte : ℕ → List ℕ
unfolding hex_digit
escape_byte b =
    if b == 34
    then 92 ∷ (34 ∷ [])
    else if b == 92
    then 92 ∷ (92 ∷ [])
    else if b == 8
    then 92 ∷ (b'b' ∷ [])
    else if b == 12
    then 92 ∷ (b'f' ∷ [])
    else if b == 10
    then 92 ∷ (b'n' ∷ [])
    else if b == 13
    then 92 ∷ (b'r' ∷ [])
    else if b == 9
    then 92 ∷ (b't' ∷ [])
    else if leb b 0x1f
    then 92 ∷ (b'u' ∷ (b'0' ∷ (b'0' ∷ (hex_digit (b / 16) ∷ (hex_digit (b % 16) ∷ [])))))
    else b ∷ []

unfoldable pub escaped : List ℕ → List ℕ
escaped [] = []
escaped (b ∷ bs) = escape_byte b ++ escaped bs

unfoldable pub print_string : List ℕ → List ℕ
print_string s = 34 ∷ (escaped s ++ (34 ∷ []))

-- The bytes up to the closing quote, and those behind it: the byte after a backslash is stepped over.
unfoldable pub find_end : List ℕ → Option (List ℕ × List ℕ)
find_end [] = none
find_end (b ∷ []) = if b == 34 then some ([], []) else none
find_end (b ∷ (c ∷ s)) =
    let behind_escape = find_end s >>= λ r. some (b ∷ (c ∷ r.0), r.1) in
    let behind = find_end (c ∷ s) >>= λ r. some (b ∷ r.0, r.1) in
    if b == 34 then some ([], c ∷ s) else if b == 92 then behind_escape else behind

-- The value of a hex digit.
unfoldable pub digit : ℕ → Option ℕ
digit c =
    if leb b'0' c && leb c b'9'
    then some (c - b'0')
    else if leb b'A' c && leb c b'F'
    then some (c - b'A' + 10)
    else if leb b'a' c && leb c b'f'
    then some (c - b'a' + 10)
    else none

-- At most four digits are read, so `(h << 4) | d` is a sum below 2^16.
unfoldable pub hex4_loop : ℕ → List ℕ → ℕ
hex4_loop h [] = h
hex4_loop h (c ∷ s) = elim (digit c) [ none ↦ 0 | some d ↦ hex4_loop (h * 16 + d) s ]

unfoldable pub hex4 : List ℕ → ℕ
unfolding hex4_loop digit
hex4 s = hex4_loop 0 (take 4 s)

-- A code point as UTF-8, after `used` bytes of input.
abbrev pub append_char : ℕ → ℕ → Option (List ℕ × ℕ)
append_char codepoint used = from_u32 codepoint >>= λ c. some (encode_utf8 c, used)

abbrev pub is_low : ℕ → Bool
is_low n = leb 0xdc00 n && leb n 0xdfff

abbrev pub starts_escape : List ℕ → Bool
starts_escape (a ∷ (b ∷ s)) = a == 92 && b == b'u'
starts_escape (a ∷ []) = false
starts_escape [] = false

-- The second half of a surrogate pair.
unfoldable pub surrogate_pair : ℕ → List ℕ → Option (List ℕ × ℕ)
surrogate_pair first second =
    if not (starts_escape second)
    then none
    else if not (is_low (hex4 (drop 2 second)))
    then none
    else append_char
        (0x10000 + bit_or (bit_and first 0x3ff * 2 ^ 10) (bit_and (hex4 (drop 2 second)) 0x3ff)) 12

unfoldable pub utf16_literal : List ℕ → Option (List ℕ × ℕ)
unfolding surrogate_pair
utf16_literal s =
    let first = hex4 (take 4 (drop 2 s)) in
    if ltb (length s) 6
    then none
    else if is_low first
    then none
    else if leb 0xd800 first && leb first 0xdbff
    then (if ltb (length s) 12 then none else surrogate_pair first (take 6 (drop 6 s)))
    else append_char first 6

-- The byte after a backslash. Where the string ends there, it is the closing quote.
abbrev pub escaped_byte : List ℕ → ℕ
escaped_byte [] = 34
escaped_byte (c ∷ s) = c

unfoldable pub escape : List ℕ → ℕ → Option (List ℕ × ℕ)
unfolding utf16_literal
escape s c =
    if c == b'b'
    then some (8 ∷ [], 2)
    else if c == b'f'
    then some (12 ∷ [], 2)
    else if c == b'n'
    then some (10 ∷ [], 2)
    else if c == b'r'
    then some (13 ∷ [], 2)
    else if c == b't'
    then some (9 ∷ [], 2)
    else if c == 34 || (c == 92 || c == b'/')
    then some (c ∷ [], 2)
    else if c == b'u'
    then utf16_literal s
    else none

-- What one turn of the loop writes, and by how much it moves `at`.
unfoldable pub token : ℕ → List ℕ → Option (List ℕ × ℕ)
unfolding escape
token b s = if not (b == 92) then some (b ∷ [], 1) else escape (b ∷ s) (escaped_byte s)

-- The loop over the bytes before the closing quote, of which `skip` are already read.
unfoldable pub unescape : ℕ → List ℕ → Option (List ℕ)
unescape skip [] = some []
unescape (suc skip) (b ∷ s) = unescape skip s
unescape zero (b ∷ s) = elim (token b s) [
  | none ↦ none
  | some (out, used) ↦ unescape (used - 1) s >>= λ rest. some (out ++ rest)
]

-- `Parser::string` behind the opening quote: the string, and the bytes left behind it.
unfoldable pub string : List ℕ → Option (List ℕ × List ℕ)
unfolding find_end unescape
string s = find_end s >>= λ r. unescape 0 r.0 >>= λ out. some (out, r.1)
