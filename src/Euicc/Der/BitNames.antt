-- ===== src/Euicc/Der/BitNames.antt =====
-- The names of a bit string against its bits, first to last.
use mu5250_open_ui.Base.{
  ℕ, zero, suc, ◌+◌, ◌-◌, ◌*◌, ◌/◌, ◌%◌, ◌^◌, ◌<◌, ◌≡◌, refl, sym, ap, ◌∙◌, min, bit_and, Bool,
  true, false, not, Option, none, some, List, [], ◌∷◌, ◌++◌, append-nil, length, get_elem?, take,
  drop, String, ◌==◌, if◌then◌else◌, arith, All,
}
use mu5250_open_ui.Base.Bits.{IsByte, holds_below, holds_below→holds}
use mu5250_open_ui.Euicc.Der.{bit_loop, clear_unused, byte_loop, bit_names}

-- The bits of a byte, the highest first.
unfoldable pub bits_of : ℕ → List Bool
bits_of b =
    (b / 128 % 2 == 1)
    ∷ (b / 64 % 2 == 1)
    ∷ (b / 32 % 2 == 1)
    ∷ (b / 16 % 2 == 1)
    ∷ (b / 8 % 2 == 1)
    ∷ (b / 4 % 2 == 1)
    ∷ (b / 2 % 2 == 1)
    ∷ (b % 2 == 1)
    ∷ []

-- The bits of the bytes, in order.
unfoldable pub all_bits : List ℕ → List Bool
all_bits [] = []
all_bits (b ∷ bs) = bits_of b ++ all_bits bs

-- The names whose bit is set.
unfoldable pub marked : List String → List Bool → List String
marked [] flags = []
marked (n ∷ ns) [] = []
marked (n ∷ ns) (f ∷ fs) = let rest = marked ns fs in if f then n ∷ rest else rest

-- The bits that the rounds of the loop look at.
unfoldable looked_at : ℕ → ℕ → List Bool
looked_at zero byte = []
looked_at (suc rounds) byte = not (bit_and byte 0x80 == 0) ∷ looked_at rounds (byte * 2 % 2 ^ 32)

drop-get_elem? :
    (names : List String) (k : ℕ)
    → drop k names ≡ elim (get_elem? names k) [ none ↦ [] | some n ↦ n ∷ drop (suc k) names ]
drop-get_elem? [] zero = refl
drop-get_elem? [] (suc k) = refl
drop-get_elem? (n ∷ ns) zero = refl
drop-get_elem? (n ∷ ns) (suc k) = drop-get_elem? ns k

marked-nil : (names : List String) → marked names [] ≡ []
unfolding marked
marked-nil [] = refl
marked-nil (n ∷ ns) = refl

round_lem :
    (o : Option String) (f : Bool) (rest names : List String) (fs : List Bool)
    → rest ≡ marked names fs
    → (elim o [ none ↦ [] | some n ↦ if f then n ∷ rest else rest ])
      ≡ marked (elim o [ none ↦ [] | some n ↦ n ∷ names ]) (f ∷ fs)
unfolding marked
round_lem none f rest names fs e = refl
round_lem (some n) true rest names fs e = ap (λ t. n ∷ t) e
round_lem (some n) false rest names fs e = e

bit_loop-looked_at :
    (names : List String) (j rounds i byte : ℕ)
    → bit_loop names j rounds i byte ≡ marked (drop (j * 8 + i) names) (looked_at rounds byte)
unfolding bit_loop looked_at
bit_loop-looked_at names j zero i byte = sym (marked-nil _)
bit_loop-looked_at names j (suc rounds) i byte =
    let next : j * 8 + (i + 1) ≡ suc (j * 8 + i) = omega arith in
    let later = byte * 2 % 2 ^ 32 in
    round_lem (get_elem? names (j * 8 + i)) (not (bit_and byte 0x80 == 0))
      (bit_loop names j rounds (i + 1) later) (drop (suc (j * 8 + i)) names)
      (looked_at rounds later)
      (bit_loop-looked_at names j rounds (i + 1) later
        ∙ ap (λ k. marked (drop k names) (looked_at rounds later)) next)
    ∙ ap (λ d. marked d (looked_at (suc rounds) byte)) (sym (drop-get_elem? names (j * 8 + i)))

marked-append :
    (names : List String) (fs gs : List Bool)
    → marked names (fs ++ gs) ≡ marked names fs ++ marked (drop (length fs) names) gs
unfolding marked
marked-append [] [] gs = refl
marked-append [] (f ∷ fs) gs = refl
marked-append (n ∷ ns) [] gs = refl
marked-append (n ∷ ns) (true ∷ fs) gs = ap (λ t. n ∷ t) (marked-append ns fs gs)
marked-append (n ∷ ns) (false ∷ fs) gs = marked-append ns fs gs

-- The first `n` flags, and `false` behind them.
unfoldable cleared : ℕ → List Bool → List Bool
cleared n [] = []
cleared zero (f ∷ fs) = false ∷ cleared zero fs
cleared (suc n) (f ∷ fs) = f ∷ cleared n fs

marked-cleared :
    (names : List String) (n : ℕ) (fs : List Bool)
    → marked names (cleared n fs) ≡ marked names (take n fs)
unfolding marked cleared
marked-cleared [] n fs = refl
marked-cleared (m ∷ ms) zero [] = refl
marked-cleared (m ∷ ms) (suc n) [] = refl
marked-cleared (m ∷ ms) zero (f ∷ fs) = marked-cleared ms zero fs ∙ marked-nil ms
marked-cleared (m ∷ ms) (suc n) (true ∷ fs) = ap (λ t. m ∷ t) (marked-cleared ms n fs)
marked-cleared (m ∷ ms) (suc n) (false ∷ fs) = marked-cleared ms n fs

unfoldable same : List Bool → List Bool → Bool
same [] [] = true
same (true ∷ fs) (true ∷ gs) = same fs gs
same (false ∷ fs) (false ∷ gs) = same fs gs
same fs gs = false

same_sound : (fs gs : List Bool) → same fs gs ≡ true → fs ≡ gs
unfolding same
same_sound [] [] h = refl
same_sound [] (g ∷ gs) h = absurd (ground (arith, h))
same_sound (f ∷ fs) [] h = absurd (ground (arith, h))
same_sound (true ∷ fs) (true ∷ gs) h = ap (λ t. true ∷ t) (same_sound fs gs h)
same_sound (true ∷ fs) (false ∷ gs) h = absurd (ground (arith, h))
same_sound (false ∷ fs) (true ∷ gs) h = absurd (ground (arith, h))
same_sound (false ∷ fs) (false ∷ gs) h = ap (λ t. false ∷ t) (same_sound fs gs h)

looked_at-bits_of : (b : ℕ) → b < 256 → looked_at 8 b ≡ bits_of b
unfolding holds_below same looked_at bits_of
looked_at-bits_of b h =
    same_sound (looked_at 8 b) (bits_of b)
      (holds_below→holds 256 (λ c. same (looked_at 8 c) (bits_of c)) b refl h)

looked_at-clear_unused :
    (u b : ℕ) → u < 9 → b < 256 → looked_at 8 (clear_unused u b) ≡ cleared (8 - u) (bits_of b)
unfolding holds_below same looked_at bits_of cleared clear_unused
looked_at-clear_unused u b h k =
    same_sound (looked_at 8 (clear_unused u b)) (cleared (8 - u) (bits_of b)) (
      holds_below→holds 256
        (λ c. same (looked_at 8 (clear_unused u c)) (cleared (8 - u) (bits_of c))) b
        (holds_below→holds 9
          (λ v.
            holds_below 256
              (λ c. same (looked_at 8 (clear_unused v c)) (cleared (8 - v) (bits_of c))))
          u refl h)
        k)

-- The bits of the bytes that are used: all but the last `min unused 8`.
unfoldable pub used_bits : ℕ → List ℕ → List Bool
used_bits unused bits = take (8 * length bits - min unused 8) (all_bits bits)

drop-drop : (k m : ℕ) (names : List String) → drop m (drop k names) ≡ drop (k + m) names
drop-drop zero m names = let e : m ≡ 0 + m = omega arith in ap (λ n. drop n names) e
drop-drop (suc k) zero [] = let e : suc k ≡ suc k + 0 = omega arith in refl ∙ ap (λ n. drop n []) e
drop-drop (suc k) (suc m) [] =
    let e : suc (suc k + m) ≡ suc k + suc m = omega arith in ap (λ n. drop n []) e
drop-drop (suc k) m (n ∷ ns) =
    let e : suc (k + m) ≡ suc k + m = omega arith in drop-drop k m ns ∙ ap (λ i. drop i (n ∷ ns)) e

drop_eight : (j : ℕ) (names : List String) → drop 8 (drop (j * 8) names) ≡ drop ((j + 1) * 8) names
drop_eight j names =
    let e : j * 8 + 8 ≡ (j + 1) * 8 = omega arith in
    drop-drop (j * 8) 8 names ∙ ap (λ n. drop n names) e

used_bits-cons :
    (unused b c : ℕ) (bits : List ℕ)
    → used_bits unused (b ∷ (c ∷ bits)) ≡ bits_of b ++ used_bits unused (c ∷ bits)
unfolding used_bits all_bits bits_of
used_bits-cons unused b c bits =
    let k = 8 * length (c ∷ bits) - min unused 8 in
    let more : 8 * length (b ∷ (c ∷ bits)) - min unused 8
        ≡ suc (suc (suc (suc (suc (suc (suc (suc k))))))) =
      omega arith in
    ap (λ n. take n (all_bits (b ∷ (c ∷ bits)))) more

used_bits-nil : (unused : ℕ) → used_bits unused [] ≡ []
unfolding used_bits all_bits
used_bits-nil unused = let e : 8 * 0 - min unused 8 ≡ 0 = omega arith in ap (λ n. take n []) e

last_byte :
    (unused b : ℕ)
    → b < 256
    → (names : List String)
    → marked names (looked_at 8 (clear_unused unused b)) ≡ marked names (used_bits unused (b ∷ []))
unfolding used_bits all_bits
last_byte unused b h names =
    let m = min unused 8 in
    let most : min unused 8 ≡ min m 8 = omega arith in
    let same_mask : clear_unused unused b ≡ clear_unused m b =
      unfold clear_unused in ap (λ k. bit_and b (2 ^ 32 - 1 - 0xff / 2 ^ (8 - k))) most in
    let size : 8 - m ≡ 8 * 1 - m = omega arith in
    ap (λ c. marked names (looked_at 8 c)) same_mask
    ∙ ap (marked names) (looked_at-clear_unused m b (omega arith) h)
    ∙ marked-cleared names (8 - m) (bits_of b)
    ∙ ap (λ n. marked names (take n (bits_of b))) size
    ∙ ap (λ fs. marked names (take (8 * 1 - m) fs)) (sym (append-nil (bits_of b)))

length-bits_of : (b : ℕ) → length (bits_of b) ≡ 8
unfolding bits_of
length-bits_of b = refl

byte_loop-used_bits :
    (names : List String) (unused j : ℕ) (bits : List ℕ)
    → All IsByte bits
    → byte_loop names unused j bits ≡ marked (drop (j * 8) names) (used_bits unused bits)
unfolding byte_loop
byte_loop-used_bits names unused j [] h =
    sym (ap (marked (drop (j * 8) names)) (used_bits-nil unused) ∙ marked-nil _)
byte_loop-used_bits names unused j (b ∷ []) h =
    let start : j * 8 + 0 ≡ j * 8 = omega arith in
    bit_loop-looked_at names j 8 0 (clear_unused unused b)
    ∙ ap (λ k. marked (drop k names) (looked_at 8 (clear_unused unused b))) start
    ∙ last_byte unused b h.0 (drop (j * 8) names)
byte_loop-used_bits names unused j (b ∷ (c ∷ bits)) h =
    let start : j * 8 + 0 ≡ j * 8 = omega arith in
    let here = drop (j * 8) names in
    let rest = used_bits unused (c ∷ bits) in
    let this : bit_loop names j 8 0 b ≡ marked here (bits_of b) =
      bit_loop-looked_at names j 8 0 b
      ∙ ap (λ k. marked (drop k names) (looked_at 8 b)) start
      ∙ ap (marked here) (looked_at-bits_of b h.0) in
    let later : drop (length (bits_of b)) here ≡ drop ((j + 1) * 8) names =
      ap (λ n. drop n here) (length-bits_of b) ∙ drop_eight j names in
    ap (λ t. t ++ byte_loop names unused (j + 1) (c ∷ bits)) this
    ∙ ap (λ t. marked here (bits_of b) ++ t)
        (byte_loop-used_bits names unused (j + 1) (c ∷ bits) h.1)
    ∙ ap (λ d. marked here (bits_of b) ++ marked d rest) (sym later)
    ∙ sym (marked-append here (bits_of b) rest)
    ∙ ap (marked here) (sym (used_bits-cons unused b c bits))

-- The names of a bit string are those whose bit is set, in order, among all the bits of its bytes but
-- the unused last ones: at most eight are unused, whatever the first byte says.
pub bit_names-marked :
    (unused : ℕ) (bits : List ℕ) (names : List String)
    → All IsByte bits
    → bit_names (unused ∷ bits) names ≡ marked names (used_bits unused bits)
unfolding bit_names
bit_names-marked unused bits names h = byte_loop-used_bits names unused 0 bits h
