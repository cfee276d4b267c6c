-- ===== src/Euicc/Es10c/Identifiers.antt =====
-- The identifiers of profiles that a call accepts, and the requests that it makes of them.
use mu5250_open_ui.Base.{
  ℕ, zero, suc, ◌-◌, ◌*◌, ◌%◌, ◌≤◌, ◌≡◌, ◌↔◌, ◌⊎◌, inl, inr, refl, ap, true, false, some, List, [],
  ◌∷◌, ◌++◌, length, length-append, ltb, ◌==◌, All, All-append, arith, Bool-cases, Option-cases,
  ==_iff, le→ltb_false, ltb_false→le, bit_or,
}
use mu5250_open_ui.Base.Options.{>>=-eq-some}
use mu5250_open_ui.Base.Results.{ok}
use mu5250_open_ui.Euicc.Der.{Node, prim}
use mu5250_open_ui.Euicc.Hex.{
  hex_value, pair_value, decode_pairs, decode, swap_pairs, repeat, even_digits, iccid_to_bcd,
}
use mu5250_open_ui.Euicc.Hex.Iccid.{length-swap_pairs, All-swap_pairs}
use mu5250_open_ui.Euicc.Es10c.{all_hexdigits, profile_id}

-- A hexadecimal digit of either case.
abbrev pub IsHexDigit : ℕ → Type 0
IsHexDigit c = (v : ℕ) × (hex_value c ≡ some v)

decode_pairs_total :
    (s : List ℕ)
    → length s % 2 ≡ 0
    → All IsHexDigit s
    → (out : List ℕ) × (decode_pairs s ≡ some out) × (length s ≡ length out * 2)
unfolding decode_pairs pair_value
decode_pairs_total [] e h = ([], refl, refl)
decode_pairs_total (x ∷ []) e h = absurd (omega (arith, e))
decode_pairs_total (x ∷ (y ∷ s)) e ((a, ea), ((b, eb), h)) =
    let (out, more, size) = decode_pairs_total s (omega (arith, e)) h in
    (bit_or (a * 16) b % 256 ∷ out, rw (ea, eb, more) refl, omega (arith, size))

decode_pairs_digits : (s : List ℕ) {out : List ℕ} → decode_pairs s ≡ some out → All IsHexDigit s
unfolding decode_pairs pair_value
decode_pairs_digits [] h = tt
decode_pairs_digits (x ∷ []) h = cc
decode_pairs_digits (x ∷ (y ∷ s)) h =
    let (b, pair, more) = >>=-eq-some (pair_value x y) _ h in
    let (a, ea, low) = >>=-eq-some (hex_value x) _ pair in
    let (c, ec, _) = >>=-eq-some (hex_value y) _ low in
    let (bs, rest, _) = >>=-eq-some (decode_pairs s) _ more in
    ((a, ea), ((c, ec), decode_pairs_digits s rest))

digits_iff : (s : List ℕ) → (all_hexdigits s ≡ true) ↔ All IsHexDigit s
unfolding all_hexdigits
digits_iff [] = (λ h. tt, λ h. refl)
digits_iff (c ∷ s) = elim (Option-cases (hex_value c)) [
  | inl e ↦ rw e (λ h. cc, λ ((v, e'), hs). cc)
  | inr (v, e) ↦ rw e (λ h. ((v, refl), (digits_iff s).0 h), λ (_, hs). (digits_iff s).1 hs)
]

even_digits_lem :
    (s : List ℕ)
    → All IsHexDigit s
    → length s ≤ 20
    → All IsHexDigit (even_digits s)
      × (length (even_digits s) % 2 ≡ 0)
      × (length (even_digits s) ≤ 20)
unfolding even_digits
even_digits_lem s h fits = elim (Bool-cases (length s % 2 == 0)) [
  | inl e ↦ rw e (h, (==_iff _ _).0 e, fits)
  | inr e ↦ rw e (
    All-append IsHexDigit s (b'f' ∷ []) h ((15, unfold hex_value in refl), tt),
    ground (arith, e, length-append s (b'f' ∷ [])),
    ground (arith, e, length-append s (b'f' ∷ [])),
  )
]

length-repeat : (n b : ℕ) → length (repeat n b) ≡ n
unfolding repeat
length-repeat zero b = refl
length-repeat (suc n) b = ap suc (length-repeat n b)

iccid_to_bcd_total :
    (s : List ℕ)
    → All IsHexDigit s
    → length s ≤ 20
    → (bcd : List ℕ) × (iccid_to_bcd s 10 ≡ some bcd) × (length bcd ≡ 10)
unfolding iccid_to_bcd
iccid_to_bcd_total s h fits =
    let (digits, even, small) = even_digits_lem s h fits in
    let swapped = swap_pairs (even_digits s) in
    let size = length-swap_pairs (even_digits s) in
    let swapped_even : length swapped % 2 ≡ 0 = omega (arith, even, size) in
    let (out, e, twice) =
      decode_pairs_total swapped swapped_even (All-swap_pairs IsHexDigit (even_digits s) digits) in
    let padded = out ++ repeat (10 - length out) 0xff in
    let decoded : decode swapped ≡ some out = unfold decode in ground (arith, swapped_even, e) in
    let fits_out : ltb 10 (length out) ≡ false =
      le→ltb_false 10 (length out) (omega (arith, twice, size, small)) in
    (
      padded,
      rw (decoded, fits_out) refl,
      omega (
        arith,
        length-append out (repeat (10 - length out) 0xff),
        length-repeat (10 - length out) 0xff,
        twice,
        size,
        small,
      ),
    )

-- Hexadecimal digits, 32 of them for an ISD-P AID, or 1 to 20 for an ICCID.
abbrev pub IsIdentifier : List ℕ → Type 0
IsIdentifier id = All IsHexDigit id × ((length id ≡ 32) ⊎ ((1 ≤ length id) × (length id ≤ 20)))

profile_id_aid :
    (id : List ℕ) → length id ≡ 32 → All IsHexDigit id → (node : Node) × (profile_id id ≡ ok node)
unfolding profile_id
profile_id_aid id e h =
    let (out, d, _) = decode_pairs_total id (omega (arith, e)) h in
    let decoded : decode id ≡ some out = unfold decode in ground (arith, e, d) in
    let long : (length id == 32) ≡ true = (==_iff (length id) 32).1 e in
    (prim 0x4f out, rw (long, decoded) refl)

profile_id_iccid :
    (id : List ℕ)
    → 1 ≤ length id
    → length id ≤ 20
    → All IsHexDigit id
    → (bcd : List ℕ) × (profile_id id ≡ ok (prim 0x5a bcd)) × (length bcd ≡ 10)
unfolding profile_id
profile_id_iccid [] low high h = absurd (omega (arith, low))
profile_id_iccid (c ∷ cs) low high h =
    let (bcd, e, ten) = iccid_to_bcd_total (c ∷ cs) h high in
    let short : (length (c ∷ cs) == 32) ≡ false = ground (arith, high) in
    let small : ltb 20 (length (c ∷ cs)) ≡ false = le→ltb_false 20 (length (c ∷ cs)) high in
    let digits : all_hexdigits (c ∷ cs) ≡ true = (digits_iff (c ∷ cs)).1 h in
    (bcd, rw (short, small, digits, e) refl, ten)

decode_digits : (s : List ℕ) {out : List ℕ} → decode s ≡ some out → All IsHexDigit s
unfolding decode
decode_digits s h = elim (Bool-cases (length s % 2 == 0)) [
  | inl e ↦ decode_pairs_digits s (rw e at h)
  | inr e ↦ let none_given = rw e at h in cc
]

-- An ISD-P AID that is accepted has digits only.
accepted_aid :
    (id : List ℕ) {node : Node}
    → (length id == 32) ≡ true
    → profile_id id ≡ ok node
    → All IsHexDigit id
unfolding profile_id
accepted_aid id long h = elim (Option-cases (decode id)) [
  | inl e ↦ let refused = rw (long, e) at h in cc
  | inr (out, e) ↦ decode_digits id e
]

accepted_iccid :
    (id : List ℕ) {node : Node}
    → (length id == 32) ≡ false
    → profile_id id ≡ ok node
    → (1 ≤ length id) × (length id ≤ 20) × (all_hexdigits id ≡ true)
unfolding profile_id
accepted_iccid [] short h = cc
accepted_iccid (c ∷ cs) short h = elim (Bool-cases (ltb 20 (length (c ∷ cs)))) [
  | inl long ↦ let refused = rw (short, long) at h in cc
  | inr fits ↦ elim (Bool-cases (all_hexdigits (c ∷ cs))) [
    | inl digits ↦ (omega arith, ltb_false→le 20 (length (c ∷ cs)) fits, digits)
    | inr other ↦ let refused = rw (short, fits, other) at h in cc
  ]
]

-- An identifier is accepted exactly when it is an ISD-P AID of 32 hexadecimal digits or an ICCID of 1
-- to 20: the conversion behind the guards never fails.
pub profile_id-IsIdentifier :
    (id : List ℕ) → ((node : Node) × (profile_id id ≡ ok node)) ↔ IsIdentifier id
profile_id-IsIdentifier id = (
  λ (node, h). elim (Bool-cases (length id == 32)) [
    | inl long ↦ (accepted_aid id long h, inl ((==_iff (length id) 32).0 long))
    | inr short ↦
        let (low, high, digits) = accepted_iccid id short h in
        ((digits_iff id).0 digits, inr (low, high))
  ],
  λ (digits, size). elim size [
    | inl e ↦ profile_id_aid id e digits
    | inr (low, high) ↦ let (bcd, e, _) = profile_id_iccid id low high digits in (prim 0x5a bcd, e)
  ],
)
