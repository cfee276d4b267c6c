-- ===== src/Euicc/Es9p/RoundTrip.antt =====
-- A printed string is read back.
use mu5250_open_ui.Base.{
  ℕ, ◌+◌, ◌-◌, ◌*◌, ◌/◌, ◌%◌, ◌<◌, ◌≡◌, ◌≢◌, refl, true, false, Option, some, List, [], ◌∷◌, ◌++◌,
  append_assoc, length, drop, length-append, leb, ◌==◌, arith, inl, inr, Bool-cases, Option-cases,
  ==_iff, leb→le, leb_false→lt, ◌∙◌,
}
use mu5250_open_ui.Base.Options.{◌>>=◌}
use mu5250_open_ui.Base.Utf8.{from_u32, encode_utf8}
use mu5250_open_ui.Euicc.Es9p.Strings.{
  escape_byte, escaped, print_string, hex_digit, digit, hex4, hex4_loop, find_end, utf16_literal,
  token, escape, append_char, unescape, string,
}

abbrev more_content : List ℕ → Option (List ℕ × List ℕ) → Option (List ℕ × List ℕ)
more_content xs o = o >>= λ r. some (xs ++ r.0, r.1)

find_end-plain :
    (b c : ℕ) (s : List ℕ)
    → (b == 34) ≡ false
    → (b == 92) ≡ false
    → find_end (b ∷ (c ∷ s)) ≡ (find_end (c ∷ s) >>= λ r. some (b ∷ r.0, r.1))
unfolding find_end
find_end-plain b c s h k = rw (h, k)

find_end-pair :
    (b : ℕ) (s : List ℕ)
    → find_end (92 ∷ (b ∷ s)) ≡ (find_end s >>= λ r. some (92 ∷ (b ∷ r.0), r.1))
unfolding find_end
find_end-pair b s = refl

-- The three ways in which a byte is written.
pub data EscapeForm (b : ℕ) : Type 0 where
  letter :
      (x : ℕ)
      → x ≢ 0
      → escape_byte b ≡ 92 ∷ (x ∷ [])
      → ((s : List ℕ) → escape s x ≡ some (b ∷ [], 2))
      → EscapeForm b
  control :
      b < 32
      → escape_byte b
        ≡ 92 ∷ (b'u' ∷ (b'0' ∷ (b'0' ∷ (hex_digit (b / 16) ∷ (hex_digit (b % 16) ∷ [])))))
      → EscapeForm b
  plain : 31 < b → escape_byte b ≡ b ∷ [] → (b == 34) ≡ false → (b == 92) ≡ false → EscapeForm b

letter_form :
    (b k x : ℕ)
    → x ≢ 0
    → (b == k) ≡ true
    → escape_byte k ≡ 92 ∷ (x ∷ [])
    → ((s : List ℕ) → escape s x ≡ some (k ∷ [], 2))
    → EscapeForm b
letter_form b k x z h e f =
    let same : k ≡ b = omega (arith, (==_iff b k).0 h) in letter x z (rw (← same) e) (rw (← same) f)

pub escape_form : (b : ℕ) → EscapeForm b
unfolding escape_byte escape
escape_form b = elim (Bool-cases (b == 34)) [
  | inl e ↦ letter_form b 34 34 (omega arith) e refl (λ s. refl)
  | inr a ↦ elim (Bool-cases (b == 92)) [
    | inl e ↦ letter_form b 92 92 (omega arith) e refl (λ s. refl)
    | inr c ↦ elim (Bool-cases (b == 8)) [
      | inl e ↦ letter_form b 8 b'b' (omega arith) e refl (λ s. refl)
      | inr d ↦ elim (Bool-cases (b == 12)) [
        | inl e ↦ letter_form b 12 b'f' (omega arith) e refl (λ s. refl)
        | inr f ↦ elim (Bool-cases (b == 10)) [
          | inl e ↦ letter_form b 10 b'n' (omega arith) e refl (λ s. refl)
          | inr g ↦ elim (Bool-cases (b == 13)) [
            | inl e ↦ letter_form b 13 b'r' (omega arith) e refl (λ s. refl)
            | inr h ↦ elim (Bool-cases (b == 9)) [
              | inl e ↦ letter_form b 9 b't' (omega arith) e refl (λ s. refl)
              | inr i ↦ elim (Bool-cases (leb b 31)) [
                | inl e ↦ control (omega (arith, leb→le b 31 e)) (rw (a, c, d, f, g, h, i, e))
                | inr e ↦
                    plain (omega (arith, leb_false→lt b 31 e)) (rw (a, c, d, f, g, h, i, e)) a c
              ]
            ]
          ]
        ]
      ]
    ]
  ]
]

pub hex_digit-plain :
    (n : ℕ) → n < 16 → ((hex_digit n == 34) ≡ false) × ((hex_digit n == 92) ≡ false)
unfolding hex_digit
hex_digit-plain n h = (ground arith, ground arith)

find_end-control :
    (h l c : ℕ) (s : List ℕ)
    → ((h == 34) ≡ false) × ((h == 92) ≡ false)
    → ((l == 34) ≡ false) × ((l == 92) ≡ false)
    → find_end (92 ∷ (b'u' ∷ (b'0' ∷ (b'0' ∷ (h ∷ (l ∷ (c ∷ s)))))))
      ≡ more_content (92 ∷ (b'u' ∷ (b'0' ∷ (b'0' ∷ (h ∷ (l ∷ [])))))) (find_end (c ∷ s))
find_end-control h l c s p q = rw find_end-pair (
    rw (find_end-plain b'0' b'0' _ refl refl) (
      rw (find_end-plain b'0' h _ refl refl) (
        rw (find_end-plain h l _ p.0 p.1) (
          rw (find_end-plain l c _ q.0 q.1)
            (elim (Option-cases (find_end (c ∷ s))) [ inl e ↦ rw e | inr (r, e) ↦ rw e ])))))

find_end-escape_byte :
    (b c : ℕ) (s : List ℕ)
    → find_end (escape_byte b ++ (c ∷ s)) ≡ more_content (escape_byte b) (find_end (c ∷ s))
find_end-escape_byte b c s = elim (escape_form b) [
  | letter x z e f ↦ rw e (find_end-pair x (c ∷ s))
  | control small e ↦
      rw e (
        find_end-control _ _ c s (hex_digit-plain _ (omega arith))
          (hex_digit-plain _ (omega arith)))
  | plain large e a d ↦ rw e (find_end-plain b c s a d)
]

find_end-escape_byte_append :
    (b : ℕ) (t : List ℕ)
    → 0 < length t
    → find_end (escape_byte b ++ t) ≡ more_content (escape_byte b) (find_end t)
find_end-escape_byte_append b [] h = absurd (omega arith)
find_end-escape_byte_append b (c ∷ s) h = find_end-escape_byte b c s

find_end-quote : (rest : List ℕ) → find_end (34 ∷ rest) ≡ some ([], rest)
unfolding find_end
find_end-quote [] = refl
find_end-quote (c ∷ s) = refl

-- The closing quote is the one that was printed.
find_end-escaped : (v rest : List ℕ) → find_end (escaped v ++ (34 ∷ rest)) ≡ some (escaped v, rest)
unfolding escaped
find_end-escaped [] rest = find_end-quote rest
find_end-escaped (b ∷ v) rest = rw append_assoc (
    rw
      (find_end-escape_byte_append b (escaped v ++ (34 ∷ rest))
        (omega (arith, length-append (escaped v) (34 ∷ rest))))
      (rw (find_end-escaped v rest)))

digit-hex_digit : (n : ℕ) → n < 16 → digit (hex_digit n) ≡ some n
unfolding hex_digit digit
digit-hex_digit n h = ground arith

hex4_loop-cons :
    (h c d : ℕ) (s : List ℕ) → digit c ≡ some d → hex4_loop h (c ∷ s) ≡ hex4_loop (h * 16 + d) s
unfolding hex4_loop
hex4_loop-cons h c d s e = rw (e, hex4_loop)

hex4-control :
    (h l x y : ℕ)
    → digit h ≡ some x
    → digit l ≡ some y
    → hex4 (b'0' ∷ (b'0' ∷ (h ∷ (l ∷ [])))) ≡ x * 16 + y
unfolding hex4 hex4_loop digit
hex4-control h l x y p q =
    hex4_loop-cons 0 h x (l ∷ []) p ∙ hex4_loop-cons (0 + x) l y [] q ∙ omega arith

from_u32-small : (b : ℕ) → b < 32 → from_u32 b ≡ some b
unfolding from_u32
from_u32-small b h = ground arith

encode_utf8-small : (b : ℕ) → b < 32 → encode_utf8 b ≡ b ∷ []
unfolding encode_utf8
encode_utf8-small b h = ground arith

append_char-small : (b : ℕ) → b < 32 → append_char b 6 ≡ some (b ∷ [], 6)
append_char-small b h = rw (from_u32-small b h) (rw (encode_utf8-small b h))

utf16_literal-small :
    (h l : ℕ) (s : List ℕ)
    → hex4 (b'0' ∷ (b'0' ∷ (h ∷ (l ∷ [])))) < 32
    → utf16_literal (92 ∷ (b'u' ∷ (b'0' ∷ (b'0' ∷ (h ∷ (l ∷ s))))))
      ≡ append_char (hex4 (b'0' ∷ (b'0' ∷ (h ∷ (l ∷ []))))) 6
unfolding utf16_literal
utf16_literal-small h l s k = ground arith

token-control :
    (b : ℕ) (s : List ℕ)
    → b < 32
    → token 92 (b'u' ∷ (b'0' ∷ (b'0' ∷ (hex_digit (b / 16) ∷ (hex_digit (b % 16) ∷ s)))))
      ≡ some (b ∷ [], 6)
unfolding token escape
token-control b s h =
    let high = digit-hex_digit (b / 16) (omega arith) in
    let low = digit-hex_digit (b % 16) (omega arith) in
    let read : hex4 (b'0' ∷ (b'0' ∷ (hex_digit (b / 16) ∷ (hex_digit (b % 16) ∷ [])))) ≡ b =
      hex4-control (hex_digit (b / 16)) (hex_digit (b % 16)) (b / 16) (b % 16) high low
      ∙ omega arith in
    utf16_literal-small (hex_digit (b / 16)) (hex_digit (b % 16)) s (rw read h)
    ∙ rw read (append_char-small b h)

unescape-token :
    (b : ℕ) (s out : List ℕ) (used : ℕ)
    → token b s ≡ some (out, used)
    → unescape 0 (b ∷ s) ≡ (unescape (used - 1) s >>= λ rest. some (out ++ rest))
unfolding unescape
unescape-token b s out used h = rw (h, unescape)

token-letter :
    (x b : ℕ) (t : List ℕ)
    → ((s : List ℕ) → escape s x ≡ some (b ∷ [], 2))
    → token 92 (x ∷ t) ≡ some (b ∷ [], 2)
token-letter x b t f = unfold token in f (92 ∷ (x ∷ t))

token-plain : (b : ℕ) (t : List ℕ) → (b == 92) ≡ false → token b t ≡ some (b ∷ [], 1)
unfolding token
token-plain b t d = rw (d, token)

-- The loop reads one printed byte, with anything behind it.
unescape-escape_byte :
    (b : ℕ) (t : List ℕ)
    → unescape 0 (escape_byte b ++ t) ≡ (unescape 0 t >>= λ rest. some (b ∷ rest))
unfolding unescape
unescape-escape_byte b t = elim (escape_form b) [
  | letter x z e f ↦ rw e (unescape-token 92 (x ∷ t) (b ∷ []) 2 (token-letter x b t f))
  | control small e ↦ rw e (unescape-token 92 _ (b ∷ []) 6 (token-control b t small))
  | plain large e a d ↦ rw e (unescape-token b t (b ∷ []) 1 (token-plain b t d))
]

unescape-escaped : (v : List ℕ) → unescape 0 (escaped v) ≡ some v
unfolding escaped
unescape-escaped [] = unfold unescape in refl
unescape-escaped (b ∷ v) = rw (unescape-escape_byte b (escaped v)) (rw (unescape-escaped v))

-- Behind its opening quote, a printed string is read back whole, whatever its bytes, and what follows
-- its closing quote is left.
pub string-print_string :
    (v rest : List ℕ) → string (drop 1 (print_string v ++ rest)) ≡ some (v, rest)
unfolding print_string string
string-print_string v rest =
    rw append_assoc (rw (find_end-escaped v rest, string) (rw (unescape-escaped v)))
