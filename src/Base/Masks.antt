-- ===== src/Base/Masks.antt =====
-- Contiguous masks: what `&` with one keeps, and how the Rust code tells that a mask is one.
use Prim.Native.Nat.{
  ℕ, zero, suc, ◌+◌, ◌-◌, ◌*◌, ◌/◌, ◌%◌, ◌^◌, ◌≤◌, ◌<◌, min, bit_and, digits, bit_and-bitwise,
}
use mathlib.Core.Path.{◌≡◌, refl, sym, ap, ◌∙◌}
use mathlib.Core.Logic.{◌⊎◌, inl, inr}
use native.Mathlib.Omega.{arith}
use native.Mathlib.Nat.{pow-suc, pow-succ', div-div-eq-div-mul, mod-eq-sub-mul-div, mul-div-le}

abbrev and_digits : ℕ → ℕ → ℕ → ℕ
and_digits n a b = digits (λ c. 0) min n a b

-- The number of rounds does not matter once it is at least the first number.
and_digits_rounds : (n m a b : ℕ) → a ≤ n → a ≤ m → and_digits n a b ≡ and_digits m a b
and_digits_rounds zero zero a b p q = refl
and_digits_rounds zero (suc m) zero b p q = refl
and_digits_rounds zero (suc m) (suc a) b p q = absurd (omega arith)
and_digits_rounds (suc n) zero zero b p q = refl
and_digits_rounds (suc n) zero (suc a) b p q = absurd (omega arith)
and_digits_rounds (suc n) (suc m) zero b p q = refl
and_digits_rounds (suc n) (suc m) (suc a) b p q =
    omega (arith, and_digits_rounds n m (suc a / 2) (b / 2) (omega arith) (omega arith))

zero-bit_and : (b : ℕ) → bit_and 0 b ≡ 0
zero-bit_and b = bit_and-bitwise 0 b

pub bit_and_lowest : (a b : ℕ) → bit_and a b ≡ bit_and (a / 2) (b / 2) * 2 + min (a % 2) (b % 2)
bit_and_lowest zero b = omega (arith, zero-bit_and b, zero-bit_and (b / 2))
bit_and_lowest (suc a) b = omega (
  arith,
  bit_and-bitwise (suc a) b,
  bit_and-bitwise (suc a / 2) (b / 2),
  and_digits_rounds a (suc a / 2) (suc a / 2) (b / 2) (omega arith) (omega arith),
)

pub pow_positive : (w : ℕ) → 1 ≤ 2 ^ w
pow_positive zero = omega arith
pow_positive (suc w) = omega (arith, pow-suc 2 w, pow_positive w)

-- `a & ones` for the `w` lowest bits, all set.
pub bit_and-ones : (w a : ℕ) → a < 2 ^ w → bit_and a (2 ^ w - 1) ≡ a
bit_and-ones zero a h = let e : a ≡ 0 = omega arith in rw e (zero-bit_and 0)
bit_and-ones (suc w) a h =
    let twice : 2 ^ suc w ≡ 2 * 2 ^ w = pow-succ' 2 w in
    let half : bit_and (a / 2) (2 ^ w - 1) ≡ a / 2 =
      bit_and-ones w (a / 2) (omega (arith, twice)) in
    let rest : (2 ^ suc w - 1) / 2 ≡ 2 ^ w - 1 = omega (arith, twice, pow_positive w) in
    rw (bit_and_lowest a (2 ^ suc w - 1), rest, half) (omega (arith, twice, pow_positive w))

-- `a & mask` for a mask that clears the `k` lowest of `w` bits.
pub bit_and-mask : (w k a : ℕ) → k ≤ w → a < 2 ^ w → bit_and a (2 ^ w - 2 ^ k) ≡ a / 2 ^ k * 2 ^ k
bit_and-mask w zero a p h = rw (bit_and-ones w a h) (omega arith)
bit_and-mask zero (suc k) a p h = absurd (omega arith)
bit_and-mask (suc w) (suc k) a p h =
    let twice : 2 ^ suc w ≡ 2 * 2 ^ w = pow-succ' 2 w in
    let twice' : 2 ^ suc k ≡ 2 * 2 ^ k = pow-succ' 2 k in
    let half : bit_and (a / 2) (2 ^ w - 2 ^ k) ≡ a / 2 / 2 ^ k * 2 ^ k =
      bit_and-mask w k (a / 2) (omega arith) (omega (arith, twice)) in
    let rest : (2 ^ suc w - 2 ^ suc k) / 2 ≡ 2 ^ w - 2 ^ k = omega (arith, twice, twice') in
    let shift : a / 2 ^ suc k ≡ a / 2 / 2 ^ k = rw twice' (sym (div-div-eq-div-mul a 2 (2 ^ k))) in
    let q = a / 2 / 2 ^ k in
    let double : q * 2 ^ suc k ≡ 2 * (q * 2 ^ k) = rw (pow-suc 2 k) (omega arith) in
    rw (bit_and_lowest a (2 ^ suc w - 2 ^ suc k), rest, half, shift)
      (omega (arith, twice, twice', double))

bit_and-self_rounds : (n a : ℕ) → a ≤ n → bit_and a a ≡ a
bit_and-self_rounds n zero h = zero-bit_and 0
bit_and-self_rounds zero (suc a) h = absurd (omega arith)
bit_and-self_rounds (suc n) (suc a) h =
    omega (arith, bit_and_lowest (suc a) (suc a), bit_and-self_rounds n (suc a / 2) (omega arith))

parity : (n : ℕ) → (n % 2 ≡ 0) ⊎ (n % 2 ≡ 1)
parity n = ground arith

even_low_ones : (n : ℕ) → bit_and n (n + 1) ≡ 0 → n % 2 ≡ 0 → n ≡ 0
even_low_ones n h even =
    let half : (n + 1) / 2 ≡ n / 2 = omega arith in
    let same : bit_and (n / 2) ((n + 1) / 2) ≡ bit_and (n / 2) (n / 2) =
      ap (bit_and (n / 2)) half in
    omega
      (arith, bit_and_lowest n (n + 1), h, same, bit_and-self_rounds (n / 2) (n / 2) (omega arith))

odd_low_ones : (n : ℕ) → bit_and n (n + 1) ≡ 0 → n % 2 ≡ 1 → bit_and (n / 2) (n / 2 + 1) ≡ 0
odd_low_ones n h odd =
    let half : (n + 1) / 2 ≡ n / 2 + 1 = omega arith in
    rw (sym half) (omega (arith, bit_and_lowest n (n + 1), h))

low_ones_rounds : (rounds n : ℕ) → n ≤ rounds → bit_and n (n + 1) ≡ 0 → (k : ℕ) × (n + 1 ≡ 2 ^ k)
low_ones_rounds zero n p h = (0, omega arith)
low_ones_rounds (suc rounds) n p h = elim (parity n) [
  | inl even ↦ (0, omega (arith, even_low_ones n h even))
  | inr odd ↦
      let (k, e) = low_ones_rounds rounds (n / 2) (omega arith) (odd_low_ones n h odd) in
      (suc k, omega (arith, pow-suc 2 k, e))
]

-- `n & (n + 1) == 0` holds only where the set bits of `n` are the lowest ones.
pub low_ones : (n : ℕ) → bit_and n (n + 1) ≡ 0 → (k : ℕ) × (n + 1 ≡ 2 ^ k)
low_ones n h = low_ones_rounds n n (omega arith) h

bit_and-zero_rounds : (n a : ℕ) → a ≤ n → bit_and a 0 ≡ 0
bit_and-zero_rounds n zero h = zero-bit_and 0
bit_and-zero_rounds zero (suc a) h = absurd (omega arith)
bit_and-zero_rounds (suc n) (suc a) h =
    omega (arith, bit_and_lowest (suc a) 0, bit_and-zero_rounds n (suc a / 2) (omega arith))

pub bit_and-zero : (a : ℕ) → bit_and a 0 ≡ 0
bit_and-zero a = bit_and-zero_rounds a a (omega arith)

mod-double : (a m : ℕ) → a % (2 * m) ≡ a / 2 % m * 2 + a % 2
mod-double a m =
    let q = a / 2 / m in
    let whole : a % (2 * m) ≡ a - 2 * (m * q) =
      mod-eq-sub-mul-div a (2 * m)
      ∙ ap (λ t. a - t) (rw (sym (div-div-eq-div-mul a 2 m)) (omega arith)) in
    let half : a / 2 % m ≡ a / 2 - m * q = mod-eq-sub-mul-div (a / 2) m in
    omega (arith, whole, half, mul-div-le (a / 2) m)

-- `a & mask` for a mask of the `w` lowest bits.
pub bit_and-low : (w a : ℕ) → bit_and a (2 ^ w - 1) ≡ a % 2 ^ w
bit_and-low zero a = omega (arith, bit_and-zero a)
bit_and-low (suc w) a =
    let twice : 2 ^ suc w ≡ 2 * 2 ^ w = pow-succ' 2 w in
    let rest : (2 ^ suc w - 1) / 2 ≡ 2 ^ w - 1 = omega (arith, twice, pow_positive w) in
    rw (bit_and_lowest a (2 ^ suc w - 1), rest, bit_and-low w (a / 2), twice, mod-double a (2 ^ w))
      (omega (arith, twice, pow_positive w))

-- `a & 0xFF`
pub bit_and-0xff : (a : ℕ) → bit_and a 0xff ≡ a % 256
bit_and-0xff a = bit_and-low 8 a
