-- ===== src/Euicc/Hex/Iccid.antt =====
-- The ICCID of a card, written and read back.
use mu5250_open_ui.Base.{
  ℕ, zero, suc, ◌+◌, ◌-◌, ◌*◌, ◌/◌, ◌%◌, ◌≤◌, ◌≡◌, refl, sym, ap, ◌∙◌, some, List, [], ◌∷◌, ◌++◌,
  length, length-append, bit_and, ◌==◌, ==_iff, arith, All, All-append, Bool-cases, inl, inr,
  append-nil, append_assoc,
}
use mu5250_open_ui.Euicc.Hex.{
  hex_char, encode, hex_value, decode, swap_pairs, repeat, even_digits, iccid_to_bcd, drop_padding,
  strip_padding, bcd_to_iccid,
}
use mu5250_open_ui.Euicc.Hex.RoundTrip.{IsLower, IsDigit, digit-IsLower, encode-decode_pairs}

abbrev pub IsPad : ℕ → Type 0
IsPad c = c ≡ b'f'

swap_again : (s : List ℕ) → swap_pairs (swap_pairs s) ≡ s
unfolding swap_pairs
swap_again [] = refl
swap_again (x ∷ []) = refl
swap_again (x ∷ (y ∷ s)) = ap (λ t. x ∷ (y ∷ t)) (swap_again s)

pub length-swap_pairs : (s : List ℕ) → length (swap_pairs s) ≡ length s
unfolding swap_pairs
length-swap_pairs [] = refl
length-swap_pairs (x ∷ []) = refl
length-swap_pairs (x ∷ (y ∷ s)) = ap (λ n. suc (suc n)) (length-swap_pairs s)

pub All-swap_pairs : (P : ℕ → Type 0) (s : List ℕ) → All P s → All P (swap_pairs s)
unfolding swap_pairs
All-swap_pairs P [] h = h
All-swap_pairs P (x ∷ []) h = h
All-swap_pairs P (x ∷ (y ∷ s)) h = (h.1.0, (h.0, All-swap_pairs P s h.1.1))

swap_pairs-append :
    (s t : List ℕ) → length s % 2 ≡ 0 → swap_pairs (s ++ t) ≡ swap_pairs s ++ swap_pairs t
unfolding swap_pairs
swap_pairs-append [] t e = refl
swap_pairs-append (x ∷ []) t e = absurd (omega (arith, e))
swap_pairs-append (x ∷ (y ∷ s)) t e =
    ap (λ u. y ∷ (x ∷ u)) (swap_pairs-append s t (omega (arith, e)))

encode-append : (xs ys : List ℕ) → encode (xs ++ ys) ≡ encode xs ++ encode ys
unfolding encode
encode-append [] ys = refl
encode-append (x ∷ xs) ys =
    ap (λ t. hex_char (x / 16) ∷ (hex_char (bit_and x 0xf) ∷ t)) (encode-append xs ys)

encode-repeat-IsPad : (n : ℕ) → All IsPad (encode (repeat n 0xff))
unfolding encode repeat hex_char
encode-repeat-IsPad zero = tt
encode-repeat-IsPad (suc n) = (refl, (refl, encode-repeat-IsPad n))

drop_padding_pads : (t : List ℕ) → All IsPad t → drop_padding t ≡ []
unfolding drop_padding
drop_padding_pads [] h = refl
drop_padding_pads (x ∷ t) h = ground (arith, drop_padding_pads t h.1, (==_iff x b'f').1 h.0)

drop_padding_digits : (ds t : List ℕ) → All IsDigit ds → All IsPad t → drop_padding (ds ++ t) ≡ ds
unfolding drop_padding
drop_padding_digits [] t h k = drop_padding_pads t k
drop_padding_digits (d ∷ ds) t h k =
    ground (arith, drop_padding_digits ds t h.1 k, (==_iff d b'f').0, h.0.0, h.0.1)

length-encode : (bs : List ℕ) → length (encode bs) ≡ 2 * length bs
unfolding encode
length-encode [] = refl
length-encode (b ∷ bs) = omega (arith, length-encode bs)

length-repeat : (n b : ℕ) → length (repeat n b) ≡ n
unfolding repeat
length-repeat zero b = refl
length-repeat (suc n) b = ap suc (length-repeat n b)

digits-IsLower : (ds : List ℕ) → All IsDigit ds → All IsLower ds
digits-IsLower [] h = h
digits-IsLower (d ∷ ds) h = (digit-IsLower d h.0, digits-IsLower ds h.1)

pads-IsLower : (t : List ℕ) → All IsPad t → All IsLower t
unfolding hex_value hex_char
pads-IsLower [] h = h
pads-IsLower (x ∷ t) h = ((15, omega arith, ap hex_value h.0, sym h.0), pads-IsLower t h.1)

-- The digits that are swapped: an even number, with at most one pad behind.
record IsEvened (ds s : List ℕ) : Type 0 where
  pad : List ℕ
  joined : s ≡ ds ++ pad
  pads : All IsPad pad
  even : length s % 2 ≡ 0
  short : length s ≤ length ds + 1

even_digits-IsEvened : (ds : List ℕ) → IsEvened ds (even_digits ds)
unfolding even_digits
even_digits-IsEvened ds = elim (Bool-cases (length ds % 2 == 0)) [
  | inl x ↦ rw x (record {
    pad = [];
    joined = sym (append-nil ds);
    pads = tt;
    even = (==_iff (length ds % 2) 0).0 x;
    short = omega arith;
  })
  | inr x ↦
      let grown = length-append ds (b'f' ∷ []) in
      let odd : length ds % 2 ≡ 1 = ground (arith, x) in
      rw x (record {
        pad = b'f' ∷ [];
        joined = refl;
        pads = (refl, tt);
        even = omega (arith, grown, odd);
        short = omega (arith, grown);
      })
]

strip_padding_digits :
    (d : ℕ) (ds t : List ℕ) → All IsDigit ds → All IsPad t → strip_padding ((d ∷ ds) ++ t) ≡ d ∷ ds
unfolding strip_padding
strip_padding_digits d ds t h k = ap (λ u. d ∷ u) (drop_padding_digits ds t h k)

read_back :
    (d : ℕ) (ds s o : List ℕ) (k : ℕ)
    → All IsDigit ds
    → IsEvened (d ∷ ds) s
    → encode o ≡ swap_pairs s
    → bcd_to_iccid (o ++ repeat k 0xff) ≡ d ∷ ds
unfolding bcd_to_iccid
read_back d ds s o k h v e =
    let more = swap_pairs (encode (repeat k 0xff)) in
    let more-IsPad = All-swap_pairs IsPad (encode (repeat k 0xff)) (encode-repeat-IsPad k) in
    let text : encode (o ++ repeat k 0xff) ≡ swap_pairs s ++ encode (repeat k 0xff) =
      encode-append o (repeat k 0xff) ∙ ap (λ t. t ++ encode (repeat k 0xff)) e in
    let swapped : swap_pairs (swap_pairs s ++ encode (repeat k 0xff)) ≡ s ++ more =
      swap_pairs-append (swap_pairs s) (encode (repeat k 0xff))
        (omega (arith, length-swap_pairs s, v.even))
      ∙ ap (λ t. t ++ more) (swap_again s) in
    let whole : s ++ more ≡ (d ∷ ds) ++ (v.pad ++ more) =
      ap (λ t. t ++ more) v.joined ∙ append_assoc (d ∷ ds) v.pad more in
    ap (λ t. strip_padding (swap_pairs t)) text
    ∙ ap strip_padding (swapped ∙ whole)
    ∙ strip_padding_digits d ds (v.pad ++ more) h (All-append IsPad v.pad more v.pads more-IsPad)

-- An ICCID of decimal digits, at least one and at most twice as many as there are bytes, is
-- written to exactly these bytes, and is read back from them.
pub bcd_to_iccid-iccid_to_bcd :
    (d : ℕ) (ds : List ℕ) (n : ℕ)
    → All IsDigit (d ∷ ds)
    → length (d ∷ ds) ≤ 2 * n
    → (out : List ℕ) × (iccid_to_bcd (d ∷ ds) n ≡ some out)
      × (length out ≡ n)
      × (bcd_to_iccid out ≡ d ∷ ds)
unfolding iccid_to_bcd bcd_to_iccid decode
bcd_to_iccid-iccid_to_bcd d ds n h fits =
    let s = even_digits (d ∷ ds) in
    let v = even_digits-IsEvened (d ∷ ds) in
    let s-IsLower : All IsLower s =
      rw v.joined (
        All-append IsLower (d ∷ ds) v.pad (digits-IsLower (d ∷ ds) h)
          (pads-IsLower v.pad v.pads)) in
    let swapped_even : length (swap_pairs s) % 2 ≡ 0 = omega (arith, length-swap_pairs s, v.even) in
    let (o, decoded, encoded) =
      encode-decode_pairs (swap_pairs s) swapped_even (All-swap_pairs IsLower s s-IsLower) in
    let size : length o ≤ n =
      omega
        (arith, length-encode o, ap length encoded, length-swap_pairs s, v.even, v.short, fits) in
    let room = n - length o in
    (
      o ++ repeat room 0xff,
      ground (arith, decoded, swapped_even, size),
      omega (arith, length-append o (repeat room 0xff), length-repeat room 0xff, size),
      read_back d ds s o room h.1 v encoded,
    )
