-- ===== src/Agent/Lan/Tests.antt =====
-- The manager on a firmware and a record that work, as the source's own tests set it up, and the
-- theorems on it.
use mu5250_open_ui.Base.{
  ℕ, ◌<◌, ◌≤◌, ◌*◌, ◌≡◌, refl, ap, sym, true, false, Option, none, some, List, [], ◌∷◌, ◌++◌, ◌⊎◌,
}
use mu5250_open_ui.Base.Strings.{str_eq}
use mu5250_open_ui.Base.Results.{ok}
use mu5250_open_ui.Agent.Auth.{hex_encode, hex_digit}
use mu5250_open_ui.Agent.Router.{
  parse_ipv4, digits, octet, dot, dot_octet, validate_lan_settings, check_numbers, contiguous,
  usable_host, same_subnet, ascending, outside_range, good_lease, is_private, count_ones,
}
use mu5250_open_ui.Agent.Lan.Settings.{LanSettings, settings_eq}
use mu5250_open_ui.Agent.Lan.{
  Manager, Binding, Backend, Pending, Journal, changed, begin, start, save_record, prepare,
  new_journal, apply_pending, apply_of, apply_done, expire, confirm, confirm_next, confirm_of,
  confirm_clear, confirmable, confirmed_before, recover, recover_from, recover_clear, recovered,
  set_binding, begun, nanos, confirm_seconds,
}
use mu5250_open_ui.Agent.Lan.Confirm.{Ends, Repeats, confirm_sound}
use mu5250_open_ui.Agent.Lan.Rollback.{
  IsFaithful, IsRestored, IsKept, IsApplied, apply_outcome, expire_outcome,
}
use mu5250_open_ui.Agent.Lan.Recovery.{
  Reach, HasFailed, Step, here, then_step, begins, applies, restart_restores,
}

record World : Type 0 where
  settings : LanSettings
  journal : Option Journal

abbrev good : Backend World
good = record {
  read = λ w. ok w.settings;
  apply = λ s w. (ok tt, record w { settings = s });
  load = λ w. ok w.journal;
  save = λ j w. (ok tt, record w { journal = some j });
  clear = λ w. (ok tt, record w { journal = none });
}

good-IsFaithful : IsFaithful good
good-IsFaithful = record {
  read-apply = λ s w h. refl;
  read-clear = λ w. refl;
  load-save = λ j w h. refl;
  load-apply = λ s w. refl;
}

-- 192.168.<net>.<host>, for digits.
abbrev address : ℕ → List ℕ → List ℕ
address net host = (b'1' ∷ b'9' ∷ b'2' ∷ b'.' ∷ b'1' ∷ b'6' ∷ b'8' ∷ b'.' ∷ net ∷ b'.' ∷ []) ++ host

abbrev mask24 : List ℕ
mask24 =
    b'2' ∷ b'5' ∷ b'5' ∷ b'.' ∷ b'2' ∷ b'5' ∷ b'5' ∷ b'.' ∷ b'2' ∷ b'5' ∷ b'5' ∷ b'.' ∷ b'0' ∷ []

abbrev lan : ℕ → LanSettings
lan net = record {
  ipaddr = address net (b'1' ∷ []);
  netmask = mask24;
  dhcp_enabled = true;
  dhcp_start = address net (b'1' ∷ b'0' ∷ b'0' ∷ []);
  dhcp_end = address net (b'2' ∷ b'0' ∷ b'0' ∷ []);
  lease_seconds = 86_400;
}

abbrev at_home : Binding
at_home = record {
  address = address b'0' (b'1' ∷ b':' ∷ b'9' ∷ b'0' ∷ b'9' ∷ b'0' ∷ []);
  generation = 0;
  fixed = false;
}

abbrev idle : Manager
idle = record { pending = none; confirmed = none; error = none; binding = at_home }

abbrev world : World
world = record { settings = lan b'0'; journal = none }

abbrev journal : Journal
journal = record { previous = lan b'0'; proposed = lan b'1'; token = b'f' ∷ b'f' ∷ [] }

abbrev pending : Pending
pending = record { journal = journal; deadline = confirm_seconds * nanos; applied = false }

-- A change from 192.168.0.0/24 to 192.168.1.0/24, begun at time 0 with one random byte.
begins_run : begin good 0 (ok (255 ∷ [])) (lan b'1') idle world ≡ (
  (begun 0 journal idle, ok (changed (lan b'1').ipaddr (b'f' ∷ b'f' ∷ []) 120)),
  record world { journal = some journal },
)
unfolding begin start save_record prepare new_journal validate_lan_settings check_numbers contiguous
    usable_host same_subnet ascending outside_range good_lease is_private count_ones parse_ipv4
    dot_octet dot octet digits settings_eq hex_encode hex_digit str_eq
begins_run = refl

abbrev moved : World
moved = record { settings = lan b'1'; journal = some journal }

abbrev waiting : Manager
waiting = begun 0 journal idle

abbrev applied_manager : Manager
applied_manager = record waiting {
  pending = some (record pending { applied = true });
  binding = record {
    address = address b'1' (b'1' ∷ b':' ∷ b'9' ∷ b'0' ∷ b'9' ∷ b'0' ∷ []);
    generation = 1;
    fixed = false;
  };
}

applies_run :
    apply_pending good waiting (record world { journal = some journal }) ≡ (applied_manager, moved)
unfolding apply_pending apply_of apply_done set_binding str_eq
applies_run = refl

confirms_run : (confirm good journal.token (10 * nanos) applied_manager moved).0.1 ≡ ok tt
unfolding confirm confirm_next confirm_of confirm_clear confirmable confirmed_before settings_eq
    str_eq
confirms_run = refl

confirm_sound_example :
    Ends good journal.token (10 * nanos) applied_manager moved
    ⊎ Repeats good journal.token (10 * nanos) applied_manager moved
confirm_sound_example =
    confirm_sound good journal.token (10 * nanos) applied_manager moved confirms_run

apply_outcome_example :
    IsApplied good pending at_home
      (apply_pending good waiting (record world { journal = some journal })).0
      (apply_pending good waiting (record world { journal = some journal })).1
    ⊎ (IsRestored good journal at_home
          (apply_pending good waiting (record world { journal = some journal })).0
          (apply_pending good waiting (record world { journal = some journal })).1
        ⊎ IsKept good pending at_home
            (record world { settings = lan b'1'; journal = some journal })
            (apply_pending good waiting (record world { journal = some journal })).0
            (apply_pending good waiting (record world { journal = some journal })).1)
apply_outcome_example =
    apply_outcome good good-IsFaithful pending waiting (record world { journal = some journal })
      refl refl

expire_outcome_example :
    ((130 * nanos < 120 * nanos)
      × (expire good (130 * nanos) applied_manager moved ≡ ((applied_manager, true), moved)))
    ⊎ ((120 * nanos ≤ 130 * nanos)
        × ((expire good (130 * nanos) applied_manager moved).0.1 ≡ false)
        × (IsRestored good journal applied_manager.binding
              (expire good (130 * nanos) applied_manager moved).0.0
              (expire good (130 * nanos) applied_manager moved).1
            ⊎ IsKept good
                (record pending { applied = true })
                applied_manager.binding
                moved
                (expire good (130 * nanos) applied_manager moved).0.0
                (expire good (130 * nanos) applied_manager moved).1))
expire_outcome_example =
    expire_outcome good good-IsFaithful (record pending { applied = true }) (130 * nanos)
      applied_manager moved refl refl

abbrev fresh : Manager
fresh = record idle { binding = applied_manager.binding }

Step-Reach :
    {first x y z : Manager × World}
    → Reach good first x
    → Step good x y
    → y ≡ z
    → Reach good first z
Step-Reach r s e = rw (sym e) (then_step r s)

pending_reached : Reach good (idle, world) (waiting, record world { journal = some journal })
pending_reached =
    Step-Reach here (begins 0 (ok (255 ∷ [])) (lan b'1') idle world)
      (ap (λ r. (r.0.0, r.1)) begins_run)

applied_reached : Reach good (idle, world) (applied_manager, moved)
applied_reached =
    Step-Reach pending_reached (applies waiting (record world { journal = some journal }))
      applies_run

recovers_run : (recover good fresh moved).0.error ≡ none
unfolding recover recover_from recover_clear recovered validate_lan_settings check_numbers
    contiguous usable_host same_subnet ascending outside_range good_lease is_private count_ones
    parse_ipv4 dot_octet dot octet digits
recovers_run = refl

restart_restores_example :
    (((recover good fresh moved).0.pending ≡ none)
      × (good.read (recover good fresh moved).1 ≡ ok (lan b'0'))
      × ((recover good fresh moved).0.binding ≡ set_binding (lan b'0').ipaddr fresh.binding))
    ⊎ HasFailed good applied_reached
restart_restores_example =
    restart_restores good good-IsFaithful idle applied_manager fresh world moved
      (record pending { applied = true }) refl applied_reached refl recovers_run
