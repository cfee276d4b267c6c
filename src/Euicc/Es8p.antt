-- ===== src/Euicc/Es8p.antt =====
-- euicc/src/es8p.rs: the metadata of a profile that an operator's server offers, with its access rules.
-- Texts are lists of bytes; `b64_encode` stands for the crate base64.
mod Rules
mod Tests
use mathlib.Core.List.{foldl}
use mu5250_open_ui.Base.{
  ℕ, ◌+◌, ◌%◌, ◌^◌, ◌&&◌, Option, none, some, List, [], ◌∷◌, ◌++◌, String, length, leb, ◌==◌,
  if◌then◌else◌,
}
use mu5250_open_ui.Base.Results.{Result, ok, err, and_then}
use mu5250_open_ui.Base.Utf8.{from_utf8_lossy}
use mu5250_open_ui.Euicc.Der.{Tlv, iter, find, filter_tag, to_u64}
use mu5250_open_ui.Euicc.Hex.{encode, bcd_to_iccid}
use mu5250_open_ui.Euicc.Session.{Error, malformed, ok_or}
use mu5250_open_ui.Euicc.B64.{decode}

pub record NotificationConfigurationInfo : Type 0 where
  pub profile_management_operation : List String
  pub notification_address : Option (List ℕ)

pub record ProfileOwner : Type 0 where
  pub mccmnc : Option (List ℕ)
  pub gid1 : Option (List ℕ)
  pub gid2 : Option (List ℕ)

pub record DpProprietaryData : Type 0 where
  pub dp_oid : Option (List ℕ)

pub record AccessRule : Type 0 where
  pub certificate_hash : Option (List ℕ)
  pub package_name : Option (List ℕ)

pub record ProfileMetadata : Type 0 where
  pub iccid : List ℕ
  pub service_provider_name : Option (List ℕ)
  pub profile_name : Option (List ℕ)
  pub icon_type : Option String
  pub icon : Option (List ℕ)
  pub profile_class : Option String
  pub notification_configuration_info : NotificationConfigurationInfo
  pub profile_owner : ProfileOwner
  pub dp_proprietary_data : DpProprietaryData
  pub profile_policy_rules : List String
  pub access_rules : List AccessRule

-- `ProfileMetadata::default()`
abbrev pub default : ProfileMetadata
default = record {
  iccid = [];
  service_provider_name = none;
  profile_name = none;
  icon_type = none;
  icon = none;
  profile_class = none;
  notification_configuration_info = record {
    profile_management_operation = [];
    notification_address = none;
  };
  profile_owner = record { mccmnc = none; gid1 = none; gid2 = none };
  dp_proprietary_data = record { dp_oid = none };
  profile_policy_rules = [];
  access_rules = [];
}

-- The bytes up to the first NUL.
unfoldable pub before_nul : List ℕ → List ℕ
before_nul [] = []
before_nul (b ∷ bs) = let rest = before_nul bs in if b == 0 then [] else b ∷ rest

abbrev pub text : List ℕ → List ℕ
text value = from_utf8_lossy (before_nul value)

-- `der::to_u64(value) as u32`
abbrev pub enumerated : List ℕ → ℕ
enumerated value = to_u64 value % 2 ^ 32

unfoldable pub icon_type : List ℕ → String
icon_type value =
    if enumerated value == 0 then "jpeg" else if enumerated value == 1 then "png" else "unknown"

unfoldable pub profile_class : List ℕ → String
profile_class value =
    if enumerated value == 0
    then "test"
    else if enumerated value == 1
    then "provisioning"
    else if enumerated value == 2
    then "operational"
    else "unknown"

-- `if old.is_some() { return Err(..) }`, then the assignment of the new text.
abbrev pub set_once : String → List ℕ → Option (List ℕ) → Result Error (Option (List ℕ))
set_once several value none = ok (some value)
set_once several value (some old) = err (malformed several)

-- The loop over the elements of a REF-DO.
unfoldable pub rule_loop : AccessRule → List Tlv → Result Error AccessRule
rule_loop rule [] = ok rule
rule_loop rule (t ∷ ts) =
    if t.tag == 0xc1
    then and_then
        (set_once "access rule with several certificate hashes" (encode t.value)
          rule.certificate_hash)
        (λ h. rule_loop (record rule { certificate_hash = h }) ts)
    else if t.tag == 0xca
    then and_then
        (set_once "access rule with several package names" (text t.value) rule.package_name)
        (λ n. rule_loop (record rule { package_name = n }) ts)
    else rule_loop rule ts

-- `ref_dos.next()` twice: the one REF-DO of an entry.
unfoldable pub one_ref_do : List Tlv → Result Error Tlv
one_ref_do [] = err (malformed "access rule without REF-DO")
one_ref_do (t ∷ []) = ok t
one_ref_do (t ∷ (u ∷ ts)) = err (malformed "access rule with several REF-DOs")

abbrev pub with_hash : AccessRule → Result Error AccessRule
with_hash rule = elim rule.certificate_hash [
  | none ↦ err (malformed "access rule without certificate hash")
  | some h ↦ ok rule
]

-- One entry.
unfoldable pub access_rule : Tlv → Result Error AccessRule
access_rule entry = and_then (one_ref_do (filter_tag 0xe1 (iter entry.value))) λ ref_do.
    and_then
      (rule_loop (record { certificate_hash = none; package_name = none }) (iter ref_do.value))
      with_hash

-- The loop over the entries: `rules` are those so far.
unfoldable pub entry_loop : List AccessRule → List Tlv → Result Error (List AccessRule)
entry_loop rules [] = ok rules
entry_loop rules (entry ∷ entries) =
    and_then (access_rule entry) (λ rule. entry_loop (rules ++ rule ∷ []) entries)

unfoldable pub parse_access_rules : List ℕ → Result Error (List AccessRule)
parse_access_rules value = entry_loop [] (filter_tag 0xe2 (iter value))

module _ (b64_encode : List ℕ → List ℕ) where
  -- The match on the tag of one element.
  unfoldable pub set_field : ProfileMetadata → Tlv → Result Error ProfileMetadata
  set_field m t =
      if t.tag == 0x5a && leb (length t.value) 10
      then ok (record m { iccid = bcd_to_iccid t.value })
      else if t.tag == 0x91
      then ok (record m { service_provider_name = some (text t.value) })
      else if t.tag == 0x92
      then ok (record m { profile_name = some (text t.value) })
      else if t.tag == 0x93
      then ok (record m { icon_type = some (icon_type t.value) })
      else if t.tag == 0x94
      then ok (record m { icon = some (b64_encode t.value) })
      else if t.tag == 0x95
      then ok (record m { profile_class = some (profile_class t.value) })
      else if t.tag == 0xbf76
      then and_then (parse_access_rules t.value) (λ rules. ok (record m { access_rules = rules }))
      else ok m

  unfoldable pub metadata_loop : ProfileMetadata → List Tlv → Result Error ProfileMetadata
  metadata_loop m [] = ok m
  metadata_loop m (t ∷ ts) = and_then (set_field m t) (λ m'. metadata_loop m' ts)

  unfoldable pub parse_store_metadata : List ℕ → Result Error ProfileMetadata
  parse_store_metadata buf =
      and_then (ok_or (malformed "no StoreMetadataRequest") (find buf 0xbf25))
        λ request. metadata_loop default (iter request.value)

  unfoldable pub parse_metadata : List ℕ → Result Error ProfileMetadata
  parse_metadata b64_metadata = parse_store_metadata (decode b64_metadata)
