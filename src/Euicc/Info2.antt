-- ===== src/Euicc/Info2.antt =====
-- euicc/src/info2.rs: what the card says about itself. Texts are lists of bytes.
mod Versions
mod Tests
use mathlib.Core.List.{foldl}
use mu5250_open_ui.Base.{
  ℕ, Option, none, some, List, [], ◌∷◌, ◌++◌, map, String, ◌==◌, if◌then◌else◌,
}
use mu5250_open_ui.Base.Texts.{decimal}
use mu5250_open_ui.Base.Utf8.{from_utf8_lossy}
use mu5250_open_ui.Euicc.Der.{Tlv, prim, iter, to_u64, bit_names}
use mu5250_open_ui.Euicc.Hex.{encode}
use mu5250_open_ui.Euicc.Session.{Apdu, Outcome, done, ◌>>=◌, request}

pub record ExtCardResource : Type 0 where
  pub installed_application : ℕ
  pub free_non_volatile_memory : ℕ
  pub free_volatile_memory : ℕ

pub record CertificationDataObject : Type 0 where
  pub platform_label : Option (List ℕ)
  pub discovery_base_url : Option (List ℕ)

pub record EuiccInfo2 : Type 0 where
  pub profile_version : Option (List ℕ)
  pub svn : Option (List ℕ)
  pub euicc_firmware_ver : Option (List ℕ)
  pub ext_card_resource : Option ExtCardResource
  pub uicc_capability : List String
  pub ts102241_version : Option (List ℕ)
  pub globalplatform_version : Option (List ℕ)
  pub rsp_capability : List String
  pub euicc_ci_pkid_list_for_verification : List (List ℕ)
  pub euicc_ci_pkid_list_for_signing : List (List ℕ)
  pub euicc_category : Option String
  pub forbidden_profile_policy_rules : List String
  pub pp_version : Option (List ℕ)
  pub sas_acreditation_number : Option (List ℕ)
  pub certification_data_object : Option CertificationDataObject

-- `EuiccInfo2::default()`
abbrev pub default : EuiccInfo2
default = record {
  profile_version = none;
  svn = none;
  euicc_firmware_ver = none;
  ext_card_resource = none;
  uicc_capability = [];
  ts102241_version = none;
  globalplatform_version = none;
  rsp_capability = [];
  euicc_ci_pkid_list_for_verification = [];
  euicc_ci_pkid_list_for_signing = [];
  euicc_category = none;
  forbidden_profile_policy_rules = [];
  pp_version = none;
  sas_acreditation_number = none;
  certification_data_object = none;
}

-- `UICC_CAPABILITY`
abbrev pub uicc_capabilities : List String
uicc_capabilities =
    "contactlessSupport" ∷ "usimSupport" ∷ "isimSupport" ∷ "csimSupport" ∷ "akaMilenage" ∷ "akaCave"
    ∷ "akaTuak128" ∷ "akaTuak256" ∷ "rfu1" ∷ "rfu2" ∷ "gbaAuthenUsim" ∷ "gbaAuthenISim"
    ∷ "mbmsAuthenUsim" ∷ "eapClient" ∷ "javacard" ∷ "multos" ∷ "multipleUsimSupport"
    ∷ "multipleIsimSupport" ∷ "multipleCsimSupport" ∷ "berTlvFileSupport" ∷ "dfLinkSupport"
    ∷ "catTp" ∷ "getIdentity" ∷ "profile-a-x25519" ∷ "profile-b-p256" ∷ "suciCalculatorApi" ∷ []

-- `RSP_CAPABILITY`
abbrev pub rsp_capabilities : List String
rsp_capabilities =
    "additionalProfile" ∷ "crlSupport" ∷ "rpmSupport" ∷ "testProfileSupport"
    ∷ "deviceInfoExtensibilitySupport" ∷ []

-- `FORBIDDEN_PPR`
abbrev pub forbidden_ppr : List String
forbidden_ppr = "pprUpdateControl" ∷ "ppr1" ∷ "ppr2" ∷ "ppr3" ∷ []

-- Three octets as `a.b.c`.
unfoldable pub version : List ℕ → Option (List ℕ)
version (a ∷ (b ∷ (c ∷ []))) = some (decimal a ++ (b'.' ∷ (decimal b ++ (b'.' ∷ decimal c))))
version value = none

-- `version(value).or(old.take())`
abbrev pub version_or : List ℕ → Option (List ℕ) → Option (List ℕ)
version_or value old = elim (version value) [ none ↦ old | some v ↦ some v ]

unfoldable pub key_ids : List ℕ → List (List ℕ)
key_ids value = map (λ t. encode t.value) (iter value)

abbrev pub text : List ℕ → List ℕ
text value = from_utf8_lossy value

-- The loop over the elements of tag 84.
unfoldable pub set_resource : ExtCardResource → Tlv → ExtCardResource
set_resource r c =
    if c.tag == 0x81
    then record r { installed_application = to_u64 c.value }
    else if c.tag == 0x82
    then record r { free_non_volatile_memory = to_u64 c.value }
    else if c.tag == 0x83
    then record r { free_volatile_memory = to_u64 c.value }
    else r

unfoldable pub ext_card_resource : List ℕ → ExtCardResource
ext_card_resource value =
    foldl set_resource
      (record { installed_application = 0; free_non_volatile_memory = 0; free_volatile_memory = 0 })
      (iter value)

unfoldable pub euicc_category : ℕ → String
euicc_category n =
    if n == 1
    then "basicEuicc"
    else if n == 2
    then "mediumEuicc"
    else if n == 3
    then "contactlessEuicc"
    else "other"

-- The loop over the elements of tag AC.
unfoldable pub set_certification : CertificationDataObject → Tlv → CertificationDataObject
set_certification c f =
    if f.tag == 0x80
    then record c { platform_label = some (text f.value) }
    else if f.tag == 0x81
    then record c { discovery_base_url = some (text f.value) }
    else c

unfoldable pub certification_data_object : List ℕ → CertificationDataObject
certification_data_object value =
    foldl set_certification (record { platform_label = none; discovery_base_url = none })
      (iter value)

-- The match on the tag of one element.
unfoldable pub set_field : EuiccInfo2 → Tlv → EuiccInfo2
set_field info t =
    if t.tag == 0x81
    then record info { profile_version = version_or t.value info.profile_version }
    else if t.tag == 0x82
    then record info { svn = version_or t.value info.svn }
    else if t.tag == 0x83
    then record info { euicc_firmware_ver = version_or t.value info.euicc_firmware_ver }
    else if t.tag == 0x84
    then record info { ext_card_resource = some (ext_card_resource t.value) }
    else if t.tag == 0x85
    then record info { uicc_capability = bit_names t.value uicc_capabilities }
    else if t.tag == 0x86
    then record info { ts102241_version = version_or t.value info.ts102241_version }
    else if t.tag == 0x87
    then record info { globalplatform_version = version_or t.value info.globalplatform_version }
    else if t.tag == 0x88
    then record info { rsp_capability = bit_names t.value rsp_capabilities }
    else if t.tag == 0xa9
    then record info { euicc_ci_pkid_list_for_verification = key_ids t.value }
    else if t.tag == 0xaa
    then record info { euicc_ci_pkid_list_for_signing = key_ids t.value }
    else if t.tag == 0xab
    then record info { euicc_category = some (euicc_category (to_u64 t.value)) }
    else if t.tag == 0x99
    then record info { forbidden_profile_policy_rules = bit_names t.value forbidden_ppr }
    else if t.tag == 0x04
    then record info { pp_version = version_or t.value info.pp_version }
    else if t.tag == 0x0c
    then record info { sas_acreditation_number = some (text t.value) }
    else if t.tag == 0xac
    then record info { certification_data_object = some (certification_data_object t.value) }
    else info

unfoldable pub parse_info2 : List ℕ → EuiccInfo2
parse_info2 body = foldl set_field default (iter body)

-- GetEUICCInfo2.
unfoldable pub euicc_info2 : {W : Type 0} → Apdu W → ℕ → ℕ → W → Outcome W EuiccInfo2
euicc_info2 io channel fuel = do
  body ← request io channel fuel (prim 0xbf22 [])
  done (parse_info2 body)
