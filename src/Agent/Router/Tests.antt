-- ===== src/Agent/Router/Tests.antt =====
-- Runs of the validation.
use mu5250_open_ui.Base.{ℕ, ◌≡◌, refl, true, none, some, List, [], ◌∷◌, ◌++◌}
use mu5250_open_ui.Base.Results.{ok, err}
use mu5250_open_ui.Agent.Router.{
  parse_ipv4, digits, octet, dot, dot_octet, LanError, validate_lan_settings, check_numbers,
  contiguous, usable_host, same_subnet, ascending, outside_range, good_lease, is_private,
  count_ones,
}
use mu5250_open_ui.Agent.Router.Subnet.{IsUsable, validate_lan_settings-IsUsable}
use mu5250_open_ui.Agent.Lan.Settings.{LanSettings}

-- 192.168.
abbrev prefix : List ℕ
prefix = b'1' ∷ b'9' ∷ b'2' ∷ b'.' ∷ b'1' ∷ b'6' ∷ b'8' ∷ b'.' ∷ []

abbrev mask24 : List ℕ
mask24 =
    b'2' ∷ b'5' ∷ b'5' ∷ b'.' ∷ b'2' ∷ b'5' ∷ b'5' ∷ b'.' ∷ b'2' ∷ b'5' ∷ b'5' ∷ b'.' ∷ b'0' ∷ []

parses : parse_ipv4 mask24 ≡ some 0xffffff00
unfolding parse_ipv4 dot_octet dot octet digits
parses = refl

leading_zero : parse_ipv4 (b'0' ∷ mask24) ≡ none
unfolding parse_ipv4 dot_octet dot octet digits
leading_zero = refl

abbrev home : LanSettings
home = record {
  ipaddr = prefix ++ (b'0' ∷ b'.' ∷ b'1' ∷ []);
  netmask = mask24;
  dhcp_enabled = true;
  dhcp_start = prefix ++ (b'0' ∷ b'.' ∷ b'1' ∷ b'0' ∷ b'0' ∷ []);
  dhcp_end = prefix ++ (b'0' ∷ b'.' ∷ b'2' ∷ b'0' ∷ b'0' ∷ []);
  lease_seconds = 86_400;
}

-- The range starts at the router's address, as in the source's own test.
overlapping :
    validate_lan_settings (record home { dhcp_start = prefix ++ (b'0' ∷ b'.' ∷ b'1' ∷ []) })
    ≡ err LanError.includes_router
unfolding validate_lan_settings check_numbers contiguous usable_host same_subnet ascending
    outside_range good_lease is_private count_ones parse_ipv4 dot_octet dot octet digits
overlapping = refl

home_passes : validate_lan_settings home ≡ ok tt
unfolding validate_lan_settings check_numbers contiguous usable_host same_subnet ascending
    outside_range good_lease is_private count_ones parse_ipv4 dot_octet dot octet digits
home_passes = refl

validate_lan_settings-IsUsable_example : IsUsable home
validate_lan_settings-IsUsable_example = validate_lan_settings-IsUsable home home_passes
