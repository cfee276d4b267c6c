-- ===== src/Euicc/Der/Prefix.antt =====
-- `parse` on any input: what it returns is a prefix of the buffer, and `iter` ends.
use mu5250_open_ui.Base.{
  ℕ, zero, suc, ◌+◌, ◌*◌, bit_and, bit_or, ◌≤◌, ◌<◌, ◌≡◌, refl, sym, ap, ◌∙◌, List, [], ◌∷◌, ◌++◌,
  Option, none, some, length, get_elem?, take, drop, arith, inl, inr, length-append, length-take,
  length-drop, take-append-drop, Option-cases,
}
use mu5250_open_ui.Euicc.Der.{
  Tlv, parse, parse_tag, parse_length, length_loop, next, iter, iter_loop,
}

take-nil : (n : ℕ) → take {A = ℕ} n [] ≡ []
take-nil zero = refl
take-nil (suc n) = refl

take-add : (j n s : ℕ) (buf : List ℕ) → s ≡ j + n → take s buf ≡ take j buf ++ take n (drop j buf)
take-add zero n s buf e = let e' : s ≡ n = omega arith in rw e' refl
take-add (suc j) n zero buf e = absurd (omega arith)
take-add (suc j) n (suc s) [] e = sym (take-nil n)
take-add (suc j) n (suc s) (b ∷ buf) e = ap (λ bs. b ∷ bs) (take-add j n s buf (omega arith))

length_loop_end :
    (buf : List ℕ) (count len i : ℕ) {n j : ℕ}
    → length_loop buf count len i ≡ some (n, j)
    → j ≡ i + count
unfolding length_loop
length_loop_end buf zero len i e = ground arith
length_loop_end buf (suc count) len i {n} {j} e = elim (Option-cases (get_elem? buf i)) [
  | inl out ↦ ground arith
  | inr (b, here) ↦ omega (
    arith,
    length_loop_end buf count (bit_or (len * 256) b) (i + 1) {n = n} {j = j}
        (rw (here, length_loop) at e),
  )
]

parse_tag_end : (buf : List ℕ) {tag i : ℕ} → parse_tag buf ≡ some (tag, i) → (1 ≤ i) × (i ≤ 2)
parse_tag_end buf e = ground arith

parse_length_end :
    (buf : List ℕ) (i : ℕ) {n j : ℕ} → parse_length buf i ≡ some (n, j) → (i < j) × (j ≤ i + 5)
parse_length_end buf i {n} {j} e = elim (Option-cases (get_elem? buf i)) [
  | inl out ↦ ground arith
  | inr (b, here) ↦ ground (arith, length_loop_end buf (bit_and b 0x7f) 0 (i + 1) {n = n} {j = j})
]

-- Where an element lies in its buffer: `header` is the tag and length octets.
pub record IsPrefix (buf : List ℕ) (t : Tlv) (header rest : List ℕ) : Type 0 where
  pub split : buf ≡ t.raw ++ rest
  pub raw : t.raw ≡ header ++ t.value
  pub shortest : 2 ≤ length header
  pub longest : length header ≤ 7

module _ (buf : List ℕ) {tag i n j : ℕ} {t : Tlv} (et : parse_tag buf ≡ some (tag, i))
    (el : parse_length buf i ≡ some (n, j)) (e : parse buf ≡ some t) where
  parse_end : (j + n ≤ length buf) × (t.value ≡ take n (drop j buf)) × (t.raw ≡ take (j + n) buf)
  unfolding parse
  parse_end = let e' = rw (et, el) at e in ground arith

  parse_split : IsPrefix buf t (take j buf) (drop (j + n) buf)
  parse_split =
      let (within, ev, er) = parse_end in
      let ei = parse_tag_end buf et in
      let ej = parse_length_end buf i el in
      record {
        split = rw er (sym (take-append-drop (j + n) buf));
        raw = rw (er, ev) (take-add j n (j + n) buf refl);
        shortest = omega (arith, length-take j buf);
        longest = omega (arith, length-take j buf);
      }

-- Whatever the buffer holds, an element that `parse` returns is a prefix of it: 2 to 7 octets of
-- tag and length, then the contents, with nothing in between and nothing skipped.
pub parse-IsPrefix :
    (buf : List ℕ) {t : Tlv}
    → parse buf ≡ some t
    → (header : List ℕ) × (rest : List ℕ) × IsPrefix buf t header rest
parse-IsPrefix buf e = elim (Option-cases (parse_tag buf)) [
  | inl z ↦ absurd (no_tag z)
  | inr ((tag, i), et) ↦ elim (Option-cases (parse_length buf i)) [
    | inl z ↦ absurd (no_length et z)
    | inr ((n, j), el) ↦ (take j buf, drop (j + n) buf, parse_split buf et el e)
  ]
]
  where
    no_tag : parse_tag buf ≡ none → ⊥
    no_tag z = unfold parse in cc (rw z at e)

    no_length : {tag i : ℕ} → parse_tag buf ≡ some (tag, i) → parse_length buf i ≡ none → ⊥
    no_length et z = unfold parse in cc (rw (et, z) at e)

-- An element holds two bytes at least, and lies within the buffer.
pub length-raw :
    (buf : List ℕ) {t : Tlv} → parse buf ≡ some t → (2 ≤ length t.raw) × (length t.raw ≤ length buf)
length-raw buf {t} e =
    let (header, rest, h) = parse-IsPrefix buf e in
    let whole = ap length h.split in
    let part = ap length h.raw in
    let shortest = h.shortest in
    omega (arith, whole, part, shortest, length-append t.raw rest, length-append header t.value)

-- `next` takes the element that `parse` found off the front.
next-some :
    (buf : List ℕ) {t : Tlv} → parse buf ≡ some t → next buf ≡ some (t, drop (length t.raw) buf)
unfolding next
next-some buf e = rw e

next-none : (buf : List ℕ) → parse buf ≡ none → next buf ≡ none
unfolding next
next-none buf e = rw e

iter_loop-some :
    (fuel : ℕ) (buf : List ℕ) {t : Tlv}
    → parse buf ≡ some t
    → iter_loop (suc fuel) buf ≡ t ∷ iter_loop fuel (drop (length t.raw) buf)
unfolding iter_loop
iter_loop-some fuel buf e = let e' = next-some buf e in rw (e', iter_loop)

iter_loop-none : (fuel : ℕ) (buf : List ℕ) → parse buf ≡ none → iter_loop fuel buf ≡ []
unfolding iter_loop
iter_loop-none zero buf e = refl
iter_loop-none (suc fuel) buf e = let e' = next-none buf e in rw (e', iter_loop)

parse-nil : parse [] ≡ none
unfolding parse
parse-nil = refl

parse_short : (buf : List ℕ) → length buf ≤ 0 → parse buf ≡ none
parse_short [] h = parse-nil
parse_short (b ∷ buf) h = absurd (omega arith)

-- Fuel for as many elements as the buffer has bytes is enough: more changes nothing.
iter_loop_enough :
    (f g : ℕ) (buf : List ℕ) → length buf ≤ f → length buf ≤ g → iter_loop f buf ≡ iter_loop g buf
iter_loop_enough zero g buf hf hg =
    let e = parse_short buf hf in iter_loop-none 0 buf e ∙ sym (iter_loop-none g buf e)
iter_loop_enough (suc f) zero buf hf hg =
    let e = parse_short buf hg in iter_loop-none (suc f) buf e ∙ sym (iter_loop-none 0 buf e)
iter_loop_enough (suc f) (suc g) buf hf hg = elim (Option-cases (parse buf)) [
  | inl e ↦ iter_loop-none (suc f) buf e ∙ sym (iter_loop-none (suc g) buf e)
  | inr (t, e) ↦
      let shorter = length-drop (length t.raw) buf in
      let sizes = length-raw buf e in
      iter_loop-some f buf e
      ∙ ap (λ ts. t ∷ ts)
          (iter_loop_enough f g (drop (length t.raw) buf) (omega arith) (omega arith))
      ∙ sym (iter_loop-some g buf e)
]

-- The elements from one that `parse` returned, or did not return, on.
abbrev pub elements_from : List ℕ → Option Tlv → List Tlv
elements_from buf none = []
elements_from buf (some t) = t ∷ iter (drop (length t.raw) buf)

-- `iter` yields the first element and then the elements of the rest behind it, and it stops exactly
-- where `parse` finds no element: the bound on the number of elements never cuts it short.
pub iter-parse : (buf : List ℕ) → iter buf ≡ elements_from buf (parse buf)
unfolding iter
iter-parse buf = elim (Option-cases (parse buf)) [
  | inl e ↦ rw e (iter_loop-none (length buf) buf e)
  | inr (t, e) ↦
      let shorter = length-drop (length t.raw) buf in
      let sizes = length-raw buf e in
      let rest = drop (length t.raw) buf in
      rw e (
        iter_loop_enough (length buf) (suc (length buf)) buf (omega arith) (omega arith)
        ∙ iter_loop-some (length buf) buf e
        ∙ ap (λ ts. t ∷ ts)
            (iter_loop_enough (length buf) (length rest) rest (omega arith) (omega arith)))
]
