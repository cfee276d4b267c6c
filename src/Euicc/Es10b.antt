-- ===== src/Euicc/Es10b.antt =====
-- euicc/src/es10b.rs: the notifications that the card keeps for the operators' servers. Texts are lists
-- of bytes.
mod Pending
mod Tests
use mathlib.Core.List.{foldl}
use mu5250_open_ui.Base.{
  ℕ, Option, none, some, List, [], ◌∷◌, map, String, get_elem?, ◌==◌, if◌then◌else◌,
}
use mu5250_open_ui.Base.Results.{Result, ok, err, and_then}
use mu5250_open_ui.Base.Utf8.{from_utf8_lossy}
use mu5250_open_ui.Base.Options
use mu5250_open_ui.Euicc.Der.{
  Tlv, prim, cons, nil, child, iter, find, find_any, filter_tag, to_u64, from_u64,
}
use mu5250_open_ui.Euicc.Hex.{bcd_to_iccid}
use mu5250_open_ui.Euicc.Session.{
  Apdu, Error, malformed, Outcome, ◌>>=◌, lift, ok_or, request, result_code,
}

pub record NotificationMetadata : Type 0 where
  pub seq_number : ℕ
  pub profile_management_operation : Option String
  pub notification_address : Option (List ℕ)
  pub iccid : Option (List ℕ)

-- `NotificationMetadata::default()`
abbrev pub default : NotificationMetadata
default = record {
  seq_number = 0;
  profile_management_operation = none;
  notification_address = none;
  iccid = none;
}

pub record PendingNotification : Type 0 where
  pub notification_address : List ℕ
  -- The whole element.
  pub der : List ℕ

-- The match on the flags of a bit string.
unfoldable pub operation_name : ℕ → String
operation_name flags =
    if flags == 0x80
    then "install"
    else if flags == 0x40
    then "enable"
    else if flags == 0x20
    then "disable"
    else if flags == 0x10
    then "delete"
    else "unknown"

unfoldable pub operation : List ℕ → Option String
operation value = elim (get_elem? value 1) [
  | none ↦ none
  | some flags ↦ some (operation_name flags)
]

-- The match on the tag of one element.
unfoldable pub set_field : NotificationMetadata → Tlv → NotificationMetadata
set_field n t =
    if t.tag == 0x80
    then record n { seq_number = to_u64 t.value }
    else if t.tag == 0x81
    then record n { profile_management_operation = operation t.value }
    else if t.tag == 0x0c
    then record n { notification_address = some (from_utf8_lossy t.value) }
    else if t.tag == 0x5a
    then record n { iccid = some (bcd_to_iccid t.value) }
    else n

-- The loop over the elements of one entry.
unfoldable pub metadata : List ℕ → NotificationMetadata
metadata value = foldl set_field default (iter value)

unfoldable pub parse_notifications : List ℕ → Result Error (List NotificationMetadata)
parse_notifications body =
    and_then (ok_or (malformed "notification list error") (find body 0xa0))
      λ list. ok (map (λ meta. metadata meta.value) (filter_tag 0xbf2f (iter list.value)))

-- The metadata inside a ProfileInstallationResult or an OtherSignedNotification.
unfoldable pub metadata_of : Tlv → Option Tlv
metadata_of pending =
    if pending.tag == 0xbf37
    then Options.◌>>=◌ (find pending.value 0xbf27) (λ d. find d.value 0xbf2f)
    else find pending.value 0xbf2f

unfoldable pub parse_pending : List ℕ → Result Error PendingNotification
parse_pending body = and_then (ok_or (malformed "no pending notification") (find body 0xa0)) λ list.
    and_then
      (ok_or (malformed "no pending notification") (find_any list.value (0xbf37 ∷ (0x30 ∷ []))))
      λ pending.
        and_then (ok_or (malformed "no notification metadata") (metadata_of pending)) λ meta.
          and_then (ok_or (malformed "no notification address") (find meta.value 0x0c)) λ address.
            ok (record { notification_address = from_utf8_lossy address.value; der = pending.raw })

module _ {W : Type 0} (io : Apdu W) (channel fuel : ℕ) where
  -- ListNotification.
  unfoldable pub list_notifications : W → Outcome W (List NotificationMetadata)
  list_notifications = do
    body ← request io channel fuel (prim 0xbf28 [])
    lift (parse_notifications body)

  -- RetrieveNotificationsList, for one sequence number.
  unfoldable pub retrieve_notification : ℕ → W → Outcome W PendingNotification
  retrieve_notification seq_number = do
    body ←
        request io channel fuel
          (cons 0xbf2b (child (cons 0xa0 (child (prim 0x80 (from_u64 seq_number)) nil)) nil))
    lift (parse_pending body)

  -- NotificationSent.
  unfoldable pub remove_notification : ℕ → W → Outcome W ℕ
  remove_notification seq_number =
      result_code io channel fuel (cons 0xbf30 (child (prim 0x80 (from_u64 seq_number)) nil))
