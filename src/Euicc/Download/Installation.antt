-- ===== src/Euicc/Download/Installation.antt =====
-- What the card answers to a segment.
use mathlib.Core.List.{foldl}
use mu5250_open_ui.Base.{
  ℕ, Bool, true, false, ◌&&◌, ◌||◌, Option, none, some, List, [], ◌∷◌, String, leb, ◌==◌,
  if◌then◌else◌,
}
use mu5250_open_ui.Base.Results.{Result, ok, and_then}
use mu5250_open_ui.Euicc.Der.{Tlv, find, iter, parse, to_u64}
use mu5250_open_ui.Euicc.Hex.{bcd_to_iccid}
use mu5250_open_ui.Euicc.Session.{Error, malformed, ok_or}

abbrev pub bpp_command_id_undefined : ℕ
bpp_command_id_undefined = 0xff

abbrev pub error_reason_undefined : ℕ
error_reason_undefined = 0xff

pub record LoadBppResult : Type 0 where
  pub seq_number : ℕ
  pub iccid : Option (List ℕ)
  pub bpp_command_id : Option ℕ
  pub error_reason : Option ℕ

-- `LoadBppResult::default()`
abbrev pub default : LoadBppResult
default = record { seq_number = 0; iccid = none; bpp_command_id = none; error_reason = none }

abbrev pub is_none : Option ℕ → Bool
is_none none = true
is_none (some n) = false

unfoldable pub is_success : LoadBppResult → Bool
is_success r = is_none r.bpp_command_id && is_none r.error_reason

unfoldable pub bpp_command_id_str : ℕ → String
bpp_command_id_str id =
    if id == 0
    then "initialise_secure_channel"
    else if id == 1
    then "configure_isdp"
    else if id == 2
    then "store_metadata"
    else if id == 3
    then "store_metadata2"
    else if id == 4
    then "replace_session_keys"
    else if id == 5
    then "load_profile_elements"
    else if id == bpp_command_id_undefined
    then "unknown"
    else "(no_str_available)"

unfoldable pub error_reason_str : ℕ → String
error_reason_str reason =
    if reason == 1
    then "incorrect_input_values"
    else if reason == 2
    then "invalid_signature"
    else if reason == 3
    then "invalid_transaction_id"
    else if reason == 4
    then "unsupported_crt_values"
    else if reason == 5
    then "unsupported_remote_operation_type"
    else if reason == 6
    then "unsupported_profile_class"
    else if reason == 7
    then "scp03t_structure_error"
    else if reason == 8
    then "scp03t_security_error"
    else if reason == 9
    then "install_failed_due_to_iccid_already_exists_on_euicc"
    else if reason == 10
    then "install_failed_due_to_insufficient_memory_for_profile"
    else if reason == 11
    then "install_failed_due_to_interruption"
    else if reason == 12
    then "install_failed_due_to_pe_processing_error"
    else if reason == 13
    then "install_failed_due_to_data_mismatch"
    else if reason == 14
    then "test_profile_install_failed_due_to_invalid_naa_key"
    else if reason == 15
    then "ppr_not_allowed"
    else if reason == 127
    then "install_failed_due_to_unknown_error"
    else if reason == error_reason_undefined
    then "unknown"
    else "(no_str_available)"

unfoldable pub known_bpp_command_id : ℕ → ℕ
known_bpp_command_id value = if leb value 5 then value else bpp_command_id_undefined

unfoldable pub known_error_reason : ℕ → ℕ
known_error_reason value =
    if leb 1 value && leb value 15 || value == 127 then value else error_reason_undefined

abbrev pub undefined : LoadBppResult → LoadBppResult
undefined r = record r {
  bpp_command_id = some bpp_command_id_undefined;
  error_reason = some error_reason_undefined;
}

-- The loop over the elements of an ErrorResult.
unfoldable pub set_error : LoadBppResult → Tlv → LoadBppResult
unfolding known_bpp_command_id known_error_reason
set_error r t =
    if t.tag == 0x80
    then record r { bpp_command_id = some (known_bpp_command_id (to_u64 t.value)) }
    else if t.tag == 0x81
    then record r { error_reason = some (known_error_reason (to_u64 t.value)) }
    else r

-- `if let Some(seq) = ..`, `if let Some(iccid) = ..`
unfoldable pub described : Tlv → LoadBppResult
described metadata = record {
  seq_number = elim (find metadata.value 0x80) [ none ↦ 0 | some seq ↦ to_u64 seq.value ];
  iccid = elim (find metadata.value 0x5a) [
    | none ↦ none
    | some iccid ↦ some (bcd_to_iccid iccid.value)
  ];
  bpp_command_id = none;
  error_reason = none;
}

-- The match on the outcome.
unfoldable pub judged : LoadBppResult → Tlv → LoadBppResult
unfolding set_error
judged r outcome =
    if outcome.tag == 0xa0
    then r
    else if outcome.tag == 0xa1
    then foldl set_error (undefined r) (iter outcome.value)
    else undefined r

-- An answer that is not empty.
unfoldable pub parse_installation : List ℕ → Result Error LoadBppResult
unfolding described judged
parse_installation resp =
    and_then (ok_or (malformed "no ProfileInstallationResult") (find resp 0xbf37)) λ installation.
      and_then
        (ok_or (malformed "no ProfileInstallationResultData") (find installation.value 0xbf27))
        λ data_object.
          and_then (ok_or (malformed "no NotificationMetadata") (find data_object.value 0xbf2f))
            λ metadata.
              and_then (ok_or (malformed "no finalResult") (find data_object.value 0xa2))
                λ final_result.
                  and_then (ok_or (malformed "empty finalResult") (parse final_result.value))
                    λ outcome. ok (judged (described metadata) outcome)

unfoldable pub parse_load_bpp_response : List ℕ → Result Error LoadBppResult
unfolding parse_installation
parse_load_bpp_response [] = ok default
parse_load_bpp_response (b ∷ bytes) = parse_installation (b ∷ bytes)
