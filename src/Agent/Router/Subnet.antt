-- ===== src/Agent/Router/Subnet.antt =====
-- `validate_lan_settings` against the subnet that the settings describe.
use mu5250_open_ui.Base.{
  ℕ, ◌+◌, ◌-◌, ◌*◌, ◌/◌, ◌^◌, ◌≤◌, ◌<◌, ◌≡◌, ◌≢◌, refl, sym, ap, ◌∙◌, Bool, true, not, ◌&&◌, Option,
  none, some, bit_and, bit_or, leb, ltb→lt, leb→le, leb_false→lt, ◌==◌, ==_iff, arith, Bool-cases,
  inl, inr, ◌⊎◌,
}
use native.Mathlib.Nat.{div-mul-le_self, lt-div-mul-add, pow-le-pow_right}
use mu5250_open_ui.Base.Results.{ok, and_then-eq-ok}
use mu5250_open_ui.Base.Bits.{bit_or-shift}
use mu5250_open_ui.Base.Masks.{bit_and-mask, pow_positive}
use mu5250_open_ui.Agent.Lan.Settings.{LanSettings}
use mu5250_open_ui.Agent.Router.{
  LanError, ok_or, contiguous, network, broadcast, usable_host, same_subnet, ascending,
  outside_range, good_lease, is_private, check_numbers, parse_ipv4, validate_lan_settings,
}
use mu5250_open_ui.Agent.Router.Netmask.{parse_ipv4_bound, IsNetmask, host_bits}

-- A router's subnet with a DHCP range, on numbers: `base` is its first address, `k` the host bits.
pub record IsSubnet (ip k start end lease_seconds : ℕ) : Type 0 where
  pub base : ℕ
  pub is_base : base ≡ ip / 2 ^ k * 2 ^ k
  pub private : is_private ip ≡ true
  pub host_above : base < ip
  pub host_below : ip + 1 < base + 2 ^ k
  pub start_above : base < start
  pub ordered : start < end
  pub end_below : end + 1 < base + 2 ^ k
  pub excludes_router : (ip < start) ⊎ (end < ip)
  pub lease_at_least : 60 ≤ lease_seconds
  pub lease_at_most : lease_seconds ≤ 604_800

both_of_and : (a b : Bool) → (a && b) ≡ true → (a ≡ true) × (b ≡ true)
both_of_and a b h = (ground arith, ground arith)

ne_of_test : (a b : ℕ) → not (a == b) ≡ true → a ≢ b
ne_of_test a b h = λ e. absurd (ground (arith, h, (==_iff a b).1 e))

-- The words of the validation, for a netmask with `k` host bits.
network_lem : (k a : ℕ) → k ≤ 24 → a < 2 ^ 32 → bit_and a (2 ^ 32 - 2 ^ k) ≡ a / 2 ^ k * 2 ^ k
network_lem k a h lt = bit_and-mask 32 k a (omega arith) lt

broadcast_lem :
    (k q : ℕ)
    → 1 ≤ 2 ^ k
    → 2 ^ k ≤ 2 ^ 32
    → bit_or (q * 2 ^ k) (2 ^ 32 - 1 - (2 ^ 32 - 2 ^ k)) + 1 ≡ q * 2 ^ k + 2 ^ k
broadcast_lem k q pos le =
    let inverse : 2 ^ 32 - 1 - (2 ^ 32 - 2 ^ k) ≡ 2 ^ k - 1 = omega arith in
    rw (inverse, bit_or-shift k q (2 ^ k - 1) (omega arith)) (omega arith)

-- The seven tests of the validation.
record Tests (ip mask start end lease_seconds : ℕ) : Type 0 where
  t1 : is_private ip ≡ true
  t2 : contiguous mask ≡ true
  t3 : usable_host ip mask ≡ true
  t4 : same_subnet ip mask start end ≡ true
  t5 : ascending ip mask start end ≡ true
  t6 : outside_range ip start end ≡ true
  t7 : good_lease lease_seconds ≡ true

check_numbers-Tests :
    (ip mask start end lease_seconds : ℕ)
    → check_numbers ip mask start end lease_seconds ≡ ok tt
    → Tests ip mask start end lease_seconds
unfolding check_numbers
check_numbers-Tests ip mask start end lease_seconds h = record {
  t1 = ground (arith, h);
  t2 = ground (arith, h);
  t3 = ground (arith, h);
  t4 = ground (arith, h);
  t5 = ground (arith, h);
  t6 = ground (arith, h);
  t7 = ground (arith, h);
}

contiguous_sound : (mask : ℕ) → mask < 2 ^ 32 → contiguous mask ≡ true → (k : ℕ) × IsNetmask mask k
unfolding contiguous
contiguous_sound mask lt h =
    let (p, q) = both_of_and _ _ h in
    let (q1, q2) = both_of_and _ _ q in
    host_bits mask lt ((==_iff _ _).0 p) (leb→le _ _ q1) (leb→le _ _ q2)

block : (k a : ℕ) → (a / 2 ^ k * 2 ^ k ≤ a) × (a < a / 2 ^ k * 2 ^ k + 2 ^ k)
block k a = (div-mul-le_self a (2 ^ k), lt-div-mul-add (pow_positive k))

masked : (mask k a : ℕ) → a < 2 ^ 32 → IsNetmask mask k → bit_and a mask ≡ a / 2 ^ k * 2 ^ k
masked mask k a lt m = ap (bit_and a) m.is_mask ∙ network_lem k a m.at_most lt

broadcast_sound :
    (ip mask k : ℕ)
    → ip < 2 ^ 32
    → IsNetmask mask k
    → broadcast ip mask + 1 ≡ ip / 2 ^ k * 2 ^ k + 2 ^ k
broadcast_sound ip mask k lt m =
    let bound : 2 ^ k ≤ 2 ^ 32 =
      pow-le-pow_right (omega arith) {j = 32} (omega (arith, m.at_most)) in
    ap (λ n. bit_or n (2 ^ 32 - 1 - mask) + 1) (masked mask k ip lt m)
    ∙ ap (λ n. bit_or (ip / 2 ^ k * 2 ^ k) (2 ^ 32 - 1 - n) + 1) m.is_mask
    ∙ broadcast_lem k (ip / 2 ^ k) (pow_positive k) bound

outside : (ip start end : ℕ) → outside_range ip start end ≡ true → (ip < start) ⊎ (end < ip)
unfolding outside_range
outside ip start end h = elim (Bool-cases (leb start ip)) [
  | inr x ↦ inl (leb_false→lt start ip x)
  | inl x ↦ inr (leb_false→lt ip end (ground (arith, h, x)))
]

Tests-IsSubnet :
    (ip mask k start end lease_seconds : ℕ)
    → ip < 2 ^ 32
    → start < 2 ^ 32
    → end < 2 ^ 32
    → IsNetmask mask k
    → Tests ip mask start end lease_seconds
    → IsSubnet ip k start end lease_seconds
unfolding usable_host same_subnet ascending outside_range good_lease
Tests-IsSubnet ip mask k start end lease_seconds ip< start< end< m t =
    let (not_network, not_broadcast) = both_of_and _ _ t.t3 in
    let (start_in, end_in) = both_of_and _ _ t.t4 in
    let (ordered, u) = both_of_and _ _ t.t5 in
    let (not_first, not_last) = both_of_and _ _ u in
    let (low, high) = both_of_and _ _ t.t7 in
    let net : network ip mask ≡ ip / 2 ^ k * 2 ^ k = masked mask k ip ip< m in
    let last : broadcast ip mask + 1 ≡ ip / 2 ^ k * 2 ^ k + 2 ^ k =
      broadcast_sound ip mask k ip< m in
    let from : start / 2 ^ k * 2 ^ k ≡ network ip mask =
      sym (masked mask k start start< m) ∙ (==_iff _ _).0 start_in in
    let to : end / 2 ^ k * 2 ^ k ≡ network ip mask =
      sym (masked mask k end end< m) ∙ (==_iff _ _).0 end_in in
    let (a1, a2) = block k ip in
    let (b1, b2) = block k start in
    let (c1, c2) = block k end in
    let n1 = ne_of_test ip (network ip mask) not_network in
    let n2 = ne_of_test ip (broadcast ip mask) not_broadcast in
    let n3 = ne_of_test start (network ip mask) not_first in
    let n4 = ne_of_test end (broadcast ip mask) not_last in
    record {
      base = ip / 2 ^ k * 2 ^ k;
      is_base = refl;
      private = t.t1;
      host_above = omega (arith, net, a1, n1);
      host_below = omega (arith, last, a2, n2);
      start_above = omega (arith, net, from, b1, n3);
      ordered = ltb→lt _ _ ordered;
      end_below = omega (arith, net, last, to, c2, n4);
      excludes_router = outside ip start end t.t6;
      lease_at_least = leb→le _ _ low;
      lease_at_most = leb→le _ _ high;
    }

-- LAN settings in words: their texts are addresses, the netmask leaves `k` host bits, and router and
-- DHCP range lie in one private subnet.
pub record IsUsable (s : LanSettings) : Type 0 where
  pub ip : ℕ
  pub start : ℕ
  pub end : ℕ
  pub k : ℕ
  pub mask : ℕ
  pub parses_ip : parse_ipv4 s.ipaddr ≡ some ip
  pub parses_mask : parse_ipv4 s.netmask ≡ some mask
  pub parses_start : parse_ipv4 s.dhcp_start ≡ some start
  pub parses_end : parse_ipv4 s.dhcp_end ≡ some end
  pub netmask : IsNetmask mask k
  pub subnet : IsSubnet ip k start end s.lease_seconds

ok_or-ok : {A : Type 0} (e : LanError) (o : Option A) {a : A} → ok_or e o ≡ ok a → o ≡ some a
ok_or-ok e (some a) h = ground (arith, h)
ok_or-ok e none h = absurd (ground (arith, h))

-- Settings that pass the validation are usable: a contiguous netmask with 2 to 24 host bits, a router
-- on a private address of the subnet that is neither its first nor its last one, a DHCP range of the
-- same subnet, in ascending order, without the first, the last and the router's address, and a lease of
-- 60 to 604800 seconds.
pub validate_lan_settings-IsUsable :
    (s : LanSettings) → validate_lan_settings s ≡ ok tt → IsUsable s
unfolding validate_lan_settings
validate_lan_settings-IsUsable s h =
    let (ip, h1, k1) = and_then-eq-ok (ok_or LanError.invalid_address (parse_ipv4 s.ipaddr)) _ h in
    let (mask, h2, k2) =
      and_then-eq-ok (ok_or LanError.invalid_netmask (parse_ipv4 s.netmask)) _ k1 in
    let (start, h3, k3) =
      and_then-eq-ok (ok_or LanError.invalid_start (parse_ipv4 s.dhcp_start)) _ k2 in
    let (end, h4, k4) = and_then-eq-ok (ok_or LanError.invalid_end (parse_ipv4 s.dhcp_end)) _ k3 in
    let p1 = ok_or-ok LanError.invalid_address (parse_ipv4 s.ipaddr) h1 in
    let p2 = ok_or-ok LanError.invalid_netmask (parse_ipv4 s.netmask) h2 in
    let p3 = ok_or-ok LanError.invalid_start (parse_ipv4 s.dhcp_start) h3 in
    let p4 = ok_or-ok LanError.invalid_end (parse_ipv4 s.dhcp_end) h4 in
    let t = check_numbers-Tests ip mask start end s.lease_seconds k4 in
    let (k, m) = contiguous_sound mask (parse_ipv4_bound s.netmask p2) t.t2 in
    record {
      ip = ip;
      start = start;
      end = end;
      k = k;
      mask = mask;
      parses_ip = p1;
      parses_mask = p2;
      parses_start = p3;
      parses_end = p4;
      netmask = m;
      subnet =
          Tests-IsSubnet ip mask k start end s.lease_seconds (parse_ipv4_bound s.ipaddr p1)
            (parse_ipv4_bound s.dhcp_start p3) (parse_ipv4_bound s.dhcp_end p4) m t;
    }
