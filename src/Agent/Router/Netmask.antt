-- ===== src/Agent/Router/Netmask.antt =====
-- The numbers that the validation works on: parsed addresses, and the netmasks that it lets pass.
use mu5250_open_ui.Base.{
  ℕ, zero, suc, ◌+◌, ◌-◌, ◌*◌, ◌%◌, ◌^◌, ◌≤◌, ◌<◌, ◌≡◌, refl, sym, ap, ◌∙◌, true, not, ◌&&◌, none,
  some, List, [], ◌∷◌, length, bit_and, leb, ◌==◌, ==_iff, leb→le, leb_false→lt, ◌≢◌, if◌then◌else◌,
  arith, Bool-cases, inl, inr,
}
use native.Mathlib.Nat.{pow-le-pow_right}
use mu5250_open_ui.Base.Options.{◌>>=◌, >>=-eq-some}
use mu5250_open_ui.Base.Bits.{agree_below, holds_below}
use mu5250_open_ui.Base.Masks.{low_ones}
use mu5250_open_ui.Agent.Router.{digits, octet, dot, dot_octet, parse_ipv4, count_ones}

digits_bound :
    (room n : ℕ) (bs : List ℕ) {r : ℕ × List ℕ} → n ≤ 255 → digits room n bs ≡ some r → r.0 ≤ 255
unfolding digits
digits_bound room n [] h e = ground (arith, e)
digits_bound zero n (b ∷ bs) h e = ground (arith, e)
digits_bound (suc room) n (b ∷ bs) {r} h e =
    let m = n * 10 + (b - b'0') in
    elim (Bool-cases (leb m 255)) [
      | inl x ↦
          let le = leb→le m 255 x in
          let bound : digits room m bs ≡ some r → r.0 ≤ 255 = λ k. digits_bound room m bs le k in
          ground (arith, e, bound)
      | inr x ↦ ground (arith, e, x)
    ]

digit_bound : (b : ℕ) → (leb b'0' b && leb b b'9') ≡ true → b - b'0' ≤ 255
digit_bound b h = ground (arith, leb→le b b'9')

octet_bound : (bs : List ℕ) {r : ℕ × List ℕ} → octet bs ≡ some r → r.0 ≤ 255
unfolding octet
octet_bound [] e = absurd (ground (arith, e))
octet_bound (b ∷ bs) {r} e = elim (Bool-cases (leb b'0' b && leb b b'9')) [
  | inr x ↦ absurd (ground (arith, e, x))
  | inl x ↦
      let h : (digits 2 (b - b'0') bs >>= λ q.
      if b == b'0' && not (length q.1 == length bs) then none else some q)
          ≡ some r =
        ground (arith, e, x) in
      let (q, h1, k1) = >>=-eq-some (digits 2 (b - b'0') bs) _ h in
      let bound = digits_bound 2 (b - b'0') bs (digit_bound b x) h1 in ground (arith, k1, bound)
]

dot_octet_bound : (r : ℕ × List ℕ) {s : ℕ × List ℕ} → dot_octet r ≡ some s → s.0 ≤ r.0 * 256 + 255
unfolding dot_octet
dot_octet_bound r e =
    let (bs, h1, k1) = >>=-eq-some (dot r.1) _ e in
    let (q, h2, k2) = >>=-eq-some (octet bs) _ k1 in
    let bound = octet_bound bs h2 in ground (arith, k2, bound)

pub parse_ipv4_bound : (text : List ℕ) {ip : ℕ} → parse_ipv4 text ≡ some ip → ip < 2 ^ 32
unfolding parse_ipv4
parse_ipv4_bound text h =
    let (a, h1, k1) = >>=-eq-some (octet text) _ h in
    let (b, h2, k2) = >>=-eq-some (dot_octet a) _ k1 in
    let (c, h3, k3) = >>=-eq-some (dot_octet b) _ k2 in
    let (d, h4, k4) = >>=-eq-some (dot_octet c) _ k3 in
    let p1 = octet_bound text h1 in
    let p2 = dot_octet_bound a h2 in
    let p3 = dot_octet_bound b h3 in let p4 = dot_octet_bound c h4 in ground (arith, k4)

count_ones-mask : (k : ℕ) → k < 33 → count_ones 32 (2 ^ 32 - 2 ^ k) ≡ 32 - k
unfolding count_ones holds_below
count_ones-mask = agree_below 33 (λ k. count_ones 32 (2 ^ 32 - 2 ^ k)) (λ k. 32 - k) refl

exponent_bound : (k : ℕ) → 2 ^ k ≤ 2 ^ 32 → k < 33
exponent_bound k h = elim (Bool-cases (leb 33 k)) [
  | inl x ↦
      let above : 2 ^ 33 ≤ 2 ^ k = pow-le-pow_right (omega arith) (leb→le 33 k x) in
      absurd (omega (arith, above))
  | inr x ↦ leb_false→lt 33 k x
]

-- A contiguous netmask of 8 to 30 set bits, by the number of host bits.
pub record IsNetmask (mask k : ℕ) : Type 0 where
  pub is_mask : mask ≡ 2 ^ 32 - 2 ^ k
  pub at_least : 2 ≤ k
  pub at_most : k ≤ 24

pub host_bits :
    (mask : ℕ)
    → mask < 2 ^ 32
    → bit_and (2 ^ 32 - 1 - mask) ((2 ^ 32 - 1 - mask + 1) % 2 ^ 32) ≡ 0
    → 8 ≤ count_ones 32 mask
    → count_ones 32 mask ≤ 30
    → (k : ℕ) × IsNetmask mask k
host_bits mask lt contiguous low high = elim (Bool-cases (2 ^ 32 - 1 - mask + 1 == 2 ^ 32)) [
  | inl x ↦
      let full : mask ≡ 0 = omega (arith, (==_iff (2 ^ 32 - 1 - mask + 1) (2 ^ 32)).0 x) in
      let low' : 8 ≤ count_ones 32 0 = rw (sym full) low in
      absurd (unfold count_ones in omega (arith, low'))
  | inr x ↦
      let n = 2 ^ 32 - 1 - mask in
      let plain : (n + 1) % 2 ^ 32 ≡ n + 1 =
        let other : n + 1 ≢ 2 ^ 32 =
          λ y. absurd (ground (arith, x, (==_iff (n + 1) (2 ^ 32)).1 y)) in
        omega (arith, other) in
      let (k, e) = low_ones n (sym (ap (bit_and n) plain) ∙ contiguous) in
      let small : k < 33 = exponent_bound k (omega (arith, e)) in
      let is_mask : mask ≡ 2 ^ 32 - 2 ^ k = omega (arith, e) in
      let count : count_ones 32 mask ≡ 32 - k =
        ap (count_ones 32) is_mask ∙ count_ones-mask k small in
      (
        k,
        record {
          is_mask = is_mask;
          at_least = omega (arith, count);
          at_most = omega (arith, count);
        },
      )
]
