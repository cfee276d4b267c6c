-- ===== src/Agent/Router.antt =====
-- agent/src/router.rs: the validation of LAN settings. A 32-bit word is a number below 2^32.
-- `Ipv4Addr`'s `FromStr`, `is_private` and `u32::from` are Rust's standard library.
pub mod Netmask
pub mod Subnet
mod Tests
use mu5250_open_ui.Base.{
  ℕ, zero, suc, ◌+◌, ◌-◌, ◌*◌, ◌/◌, ◌%◌, ◌^◌, Bool, true, false, not, ◌&&◌, ◌||◌, Option, none,
  some, List, [], ◌∷◌, length, bit_and, bit_or, ltb, leb, ◌==◌, if◌then◌else◌,
}
use mu5250_open_ui.Base.Options.{◌>>=◌}
use mu5250_open_ui.Base.Results.{Result, ok, err, and_then}
use mu5250_open_ui.Agent.Lan.Settings.{LanSettings}

-- The digits at the front, at most `room` of them, with their value: none above 255.
unfoldable pub digits : ℕ → ℕ → List ℕ → Option (ℕ × List ℕ)
digits room n [] = some (n, [])
digits zero n (b ∷ bs) = if leb b'0' b && leb b b'9' then none else some (n, b ∷ bs)
digits (suc room) n (b ∷ bs) =
    let m = n * 10 + (b - b'0') in
    let more = digits room m bs in
    if leb b'0' b && leb b b'9' then (if leb m 255 then more else none) else some (n, b ∷ bs)

-- One octet: at least one digit, and no leading zero.
unfoldable pub octet : List ℕ → Option (ℕ × List ℕ)
octet [] = none
octet (b ∷ bs) =
    if leb b'0' b && leb b b'9'
    then (digits 2 (b - b'0') bs >>= λ r.
        if b == b'0' && not (length r.1 == length bs) then none else some r)
    else none

unfoldable pub dot : List ℕ → Option (List ℕ)
dot [] = none
dot (b ∷ bs) = if b == b'.' then some bs else none

unfoldable pub dot_octet : ℕ × List ℕ → Option (ℕ × List ℕ)
dot_octet r = dot r.1 >>= λ bs. octet bs >>= λ s. some (r.0 * 256 + s.0, s.1)

-- `text.parse::<Ipv4Addr>()` and `u32::from`: four octets and nothing behind them.
unfoldable pub parse_ipv4 : List ℕ → Option ℕ
parse_ipv4 text = octet text >>= λ a. dot_octet a >>= λ b.
    dot_octet b >>= λ c. dot_octet c >>= λ d. if length d.1 == 0 then some d.0 else none

-- `Ipv4Addr::is_private`: 10.0.0.0/8, 172.16.0.0/12 and 192.168.0.0/16.
unfoldable pub is_private : ℕ → Bool
is_private ip = ip / 2 ^ 24 == 10 || (ip / 2 ^ 20 == 0xac1 || ip / 2 ^ 16 == 0xc0a8)

-- `u32::count_ones`, for the lowest `width` bits.
unfoldable pub count_ones : ℕ → ℕ → ℕ
count_ones zero n = 0
count_ones (suc width) n = n % 2 + count_ones width (n / 2)

pub data LanError : Type 0 where
  invalid_address invalid_netmask invalid_start invalid_end : LanError
  not_private bad_netmask not_host not_in_subnet bad_range includes_router bad_lease : LanError

abbrev pub ok_or : {A : Type 0} → LanError → Option A → Result LanError A
ok_or e none = err e
ok_or e (some a) = ok a

-- `Err(e)` unless the test holds.
abbrev pub check : Bool → LanError → Result LanError (Unit {0}) → Result LanError (Unit {0})
check true e rest = rest
check false e rest = err e

-- The tests on the numbers: the netmask's,
unfoldable pub contiguous : ℕ → Bool
contiguous mask =
    let inverse = 2 ^ 32 - 1 - mask in
    bit_and inverse ((inverse + 1) % 2 ^ 32) == 0
    && (leb 8 (count_ones 32 mask) && leb (count_ones 32 mask) 30)

-- the network and broadcast addresses,
abbrev pub network : ℕ → ℕ → ℕ
network ip mask = bit_and ip mask

abbrev pub broadcast : ℕ → ℕ → ℕ
broadcast ip mask = bit_or (network ip mask) (2 ^ 32 - 1 - mask)

-- and those of the addresses and the lease.
unfoldable pub usable_host : ℕ → ℕ → Bool
usable_host ip mask = not (ip == network ip mask) && not (ip == broadcast ip mask)

unfoldable pub same_subnet : ℕ → ℕ → ℕ → ℕ → Bool
same_subnet ip mask start end =
    bit_and start mask == network ip mask && bit_and end mask == network ip mask

unfoldable pub ascending : ℕ → ℕ → ℕ → ℕ → Bool
ascending ip mask start end =
    ltb start end && (not (start == network ip mask) && not (end == broadcast ip mask))

unfoldable pub outside_range : ℕ → ℕ → ℕ → Bool
outside_range ip start end = not (leb start ip && leb ip end)

unfoldable pub good_lease : ℕ → Bool
good_lease lease_seconds = leb 60 lease_seconds && leb lease_seconds 604_800

-- The tests in their order.
unfoldable pub check_numbers : ℕ → ℕ → ℕ → ℕ → ℕ → Result LanError (Unit {0})
check_numbers ip mask start end lease_seconds = check (is_private ip) LanError.not_private (
    check (contiguous mask) LanError.bad_netmask (
      check (usable_host ip mask) LanError.not_host (
        check (same_subnet ip mask start end) LanError.not_in_subnet (
          check (ascending ip mask start end) LanError.bad_range (
            check (outside_range ip start end) LanError.includes_router
              (check (good_lease lease_seconds) LanError.bad_lease (ok tt)))))))

unfoldable pub validate_lan_settings : LanSettings → Result LanError (Unit {0})
validate_lan_settings s = and_then (ok_or LanError.invalid_address (parse_ipv4 s.ipaddr)) (λ ip.
    and_then (ok_or LanError.invalid_netmask (parse_ipv4 s.netmask)) (λ mask.
      and_then (ok_or LanError.invalid_start (parse_ipv4 s.dhcp_start)) (λ start.
        and_then (ok_or LanError.invalid_end (parse_ipv4 s.dhcp_end))
          (λ end. check_numbers ip mask start end s.lease_seconds))))
