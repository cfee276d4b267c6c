-- ===== src/Agent/Lan/Settings.antt =====
-- `LanSettings` of agent/src/lan.rs. Texts are lists of bytes.
use mu5250_open_ui.Base.{ℕ, ◌≡◌, Bool, true, false, List, ◌&&◌, ◌==◌, ==_iff, arith}
use mu5250_open_ui.Base.Strings.{str_eq, str_eq_iff, str_eq_self}

pub record LanSettings : Type 0 where
  pub ipaddr : List ℕ
  pub netmask : List ℕ
  pub dhcp_enabled : Bool
  pub dhcp_start : List ℕ
  pub dhcp_end : List ℕ
  pub lease_seconds : ℕ

abbrev bool_eq : Bool → Bool → Bool
bool_eq true true = true
bool_eq false false = true
bool_eq _ _ = false

-- The derived `PartialEq`.
unfoldable pub settings_eq : LanSettings → LanSettings → Bool
settings_eq a b =
    str_eq a.ipaddr b.ipaddr
    && str_eq a.netmask b.netmask
    && bool_eq a.dhcp_enabled b.dhcp_enabled
    && str_eq a.dhcp_start b.dhcp_start
    && str_eq a.dhcp_end b.dhcp_end
    && (a.lease_seconds == b.lease_seconds)

pub settings_eq_sound : (a b : LanSettings) → settings_eq a b ≡ true → a ≡ b
unfolding settings_eq
settings_eq_sound a b h = ground (
  arith,
  str_eq_iff a.ipaddr b.ipaddr,
  str_eq_iff a.netmask b.netmask,
  str_eq_iff a.dhcp_start b.dhcp_start,
  str_eq_iff a.dhcp_end b.dhcp_end,
)

pub settings_eq_self : (a : LanSettings) → settings_eq a a ≡ true
unfolding settings_eq
settings_eq_self a = ground (
  arith,
  str_eq_self a.ipaddr,
  str_eq_self a.netmask,
  str_eq_self a.dhcp_start,
  str_eq_self a.dhcp_end,
  ==_iff a.lease_seconds a.lease_seconds,
)
