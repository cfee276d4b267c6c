-- ===== src/Euicc/Der/Header.antt =====
-- The tag and length octets: `parse_tag` and `parse_length` read back what the encoder wrote.
use mu5250_open_ui.Base.{
  ℕ, suc, ◌+◌, ◌-◌, ◌*◌, ◌/◌, ◌%◌, ◌^◌, ◌≤◌, ◌<◌, bit_and, bit_or, ◌≡◌, ◌≢◌, refl, ap, ◌∙◌, List,
  [], ◌∷◌, ◌++◌, some, length, get_elem?, drop, All, arith, ltb, Bool-cases, inl, inr, append_assoc,
  length-append, ltb→lt, ltb_false→le, le→ltb_false, length-drop,
}
use mu5250_open_ui.Base.Bits.{
  IsByte, bit_or-byte, bit_or-shift, bit_and-0x80, bit_and-0x1f, bit_and-0x7f,
}
use mu5250_open_ui.Euicc.Der.{
  parse_tag, parse_length, length_loop, encode_tag, encode_length, be_bytes, leading_zeros,
}
use mu5250_open_ui.Euicc.Der.Integers.{
  be_value, be_value-be_bytes_four, length-be_bytes, be_value-drop, be_bytes-IsByte, IsByte-drop,
}

-- A tag that DER's one- or two-byte form can hold: the low five bits of the first byte are all set
-- exactly when a second byte follows.
pub record IsTag (tag : ℕ) : Type 0 where
  pub below : tag < 2 ^ 16
  pub one_byte : tag < 256 → tag % 32 ≢ 31
  pub two_bytes : 256 ≤ tag → tag / 256 % 32 ≡ 31

get_elem?-append_length :
    (pre : List ℕ) (b : ℕ) (rest : List ℕ) → get_elem? (pre ++ b ∷ rest) (length pre) ≡ some b
get_elem?-append_length [] b rest = refl
get_elem?-append_length (x ∷ pre) b rest = get_elem?-append_length pre b rest

length_loop_step :
    (buf : List ℕ) (count len i b : ℕ)
    → get_elem? buf i ≡ some b
    → length_loop buf (suc count) len i ≡ length_loop buf count (bit_or (len * 256) b) (i + 1)
unfolding length_loop
length_loop_step buf count len i b e = rw (e, length_loop)

-- The length octets behind `pre` are read as the number that they stand for.
length_loop-bytes :
    (bs pre rest : List ℕ) (len i j : ℕ)
    → All IsByte bs
    → i ≡ length pre
    → j ≡ i + length bs
    → length_loop (pre ++ (bs ++ rest)) (length bs) len i ≡ some (be_value len bs, j)
length_loop-bytes [] pre rest len i j h ei ej = unfold length_loop in ground arith
length_loop-bytes (b ∷ bs) pre rest len i j h ei ej =
    let here : get_elem? (pre ++ (b ∷ (bs ++ rest))) i ≡ some b =
      rw ei (get_elem?-append_length pre b (bs ++ rest)) in
    let further : length_loop ((pre ++ b ∷ []) ++ (bs ++ rest)) (length bs) (len * 256 + b) (i + 1)
        ≡ some (be_value (len * 256 + b) bs, j) =
      length_loop-bytes bs (pre ++ b ∷ []) rest (len * 256 + b) (i + 1) j h.1
        (omega (arith, length-append pre (b ∷ []))) (omega arith) in
    length_loop_step (pre ++ (b ∷ (bs ++ rest))) (length bs) len i b here
    ∙ rw (bit_or-byte len b h.0) (rw append_assoc at further)

pub parse_tag-encode_tag :
    (tag : ℕ) (rest : List ℕ)
    → IsTag tag
    → parse_tag (encode_tag tag ++ rest) ≡ some (tag, length (encode_tag tag))
unfolding encode_tag
parse_tag-encode_tag tag rest h = ground (
  arith,
  bit_and-0x1f (tag % 256),
  bit_and-0x1f (tag / 256 % 256),
  bit_or-byte (tag / 256 % 256) (tag % 256),
)

-- The octets behind the first one, of a length of 128 or more.
long_octets : ℕ → List ℕ
long_octets n = drop (leading_zeros (be_bytes 4 n)) (be_bytes 4 n)

be_value-long_octets : (n : ℕ) → n < 2 ^ 32 → be_value 0 (long_octets n) ≡ n
unfolding long_octets
be_value-long_octets n h =
    be_value-drop (leading_zeros (be_bytes 4 n)) (be_bytes 4 n) (omega arith)
    ∙ be_value-be_bytes_four n h

long_octets-IsByte : (n : ℕ) → All IsByte (long_octets n)
unfolding long_octets
long_octets-IsByte n =
    IsByte-drop (leading_zeros (be_bytes 4 n)) (be_bytes 4 n) (be_bytes-IsByte 4 n)

length-long_octets :
    (n : ℕ) → 128 ≤ n → n < 2 ^ 32 → length (long_octets n) ≡ 4 - leading_zeros (be_bytes 4 n)
unfolding long_octets
length-long_octets n h lt =
    omega (arith, length-drop (leading_zeros (be_bytes 4 n)) (be_bytes 4 n), length-be_bytes 4 n)

encode_length-short : (n : ℕ) → n < 128 → encode_length n ≡ n ∷ []
unfolding encode_length
encode_length-short n h = ground arith

encode_length-long :
    (n : ℕ)
    → 128 ≤ n
    → n < 2 ^ 32
    → encode_length n ≡ (128 + length (long_octets n)) ∷ long_octets n
unfolding encode_length
encode_length-long n h lt =
    let same : n % 2 ^ 32 ≡ n = omega arith in
    let count : length (long_octets n) ≡ 4 - leading_zeros (be_bytes 4 n) =
      length-long_octets n h lt in
    let byte : bit_or 0x80 (length (long_octets n) % 256) ≡ 128 + length (long_octets n) =
      bit_or-shift 7 1 (length (long_octets n) % 256) (omega arith) ∙ omega arith in
    rw (le→ltb_false n 128 h, same, ← count)
      (unfold long_octets in ap (λ b. b ∷ long_octets n) byte)

parse_length_short :
    (buf : List ℕ) (i b : ℕ)
    → b < 128
    → get_elem? buf i ≡ some b
    → parse_length buf i ≡ some (b, i + 1)
parse_length_short buf i b h e = rw e (ground (arith, bit_and-0x80 b))

parse_length_long :
    (buf : List ℕ) (i b : ℕ)
    → 128 ≤ b
    → b ≤ 132
    → get_elem? buf i ≡ some b
    → parse_length buf i ≡ length_loop buf (b - 128) 0 (i + 1)
parse_length_long buf i b h k e =
    let count : bit_and b 0x7f ≡ b - 128 = omega (arith, bit_and-0x7f b) in
    rw (e, count) (ground (arith, bit_and-0x80 b))

pub parse_length-encode_length :
    (n : ℕ) (pre rest : List ℕ)
    → n < 2 ^ 32
    → parse_length (pre ++ (encode_length n ++ rest)) (length pre)
      ≡ some (n, length pre + length (encode_length n))
parse_length-encode_length n pre rest h = elim (Bool-cases (ltb n 128)) [
  | inl short ↦ rw (encode_length-short n (ltb→lt n 128 short)) (
      parse_length_short (pre ++ n ∷ rest) (length pre) n (ltb→lt n 128 short)
        (get_elem?-append_length pre n rest))
  | inr long ↦ long_case (ltb_false→le n 128 long)
]
  where
    long_case :
        128 ≤ n
        → parse_length (pre ++ (encode_length n ++ rest)) (length pre)
          ≡ some (n, length pre + length (encode_length n))
    long_case lo =
        let octets = long_octets n in
        let few = length-long_octets n lo h in
        let first : ℕ = 128 + length octets in
        let count : first - 128 ≡ length octets = omega arith in
        let loop =
          length_loop-bytes octets (pre ++ first ∷ []) rest 0 (length pre + 1)
            (length pre + suc (length octets)) (long_octets-IsByte n)
            (omega (arith, length-append pre (first ∷ []))) (omega arith) in
        let shift : (pre ++ first ∷ []) ++ (octets ++ rest) ≡ pre ++ (first ∷ octets ++ rest) =
          append_assoc pre (first ∷ []) (octets ++ rest) in
        rw (encode_length-long n lo h) (
          parse_length_long (pre ++ (first ∷ octets ++ rest)) (length pre) first (omega arith)
            (omega arith) (get_elem?-append_length pre first (octets ++ rest))
          ∙ rw (count, ← shift)
              (loop
                ∙ ap (λ (v : ℕ). some (v, length pre + suc (length octets)))
                    (be_value-long_octets n h)))

pub length-encode_tag : (tag : ℕ) → (1 ≤ length (encode_tag tag)) × (length (encode_tag tag) ≤ 2)
unfolding encode_tag
length-encode_tag tag = ground arith

pub length-encode_length :
    (n : ℕ) → n < 2 ^ 32 → (1 ≤ length (encode_length n)) × (length (encode_length n) ≤ 5)
length-encode_length n h = elim (Bool-cases (ltb n 128)) [
  | inl short ↦ rw (encode_length-short n (ltb→lt n 128 short)) (omega arith)
  | inr long ↦
      rw (encode_length-long n (ltb_false→le n 128 long) h)
        (omega (arith, length-long_octets n (ltb_false→le n 128 long) h))
]
