-- ===== src/Euicc/Es10c.antt =====
-- euicc/src/es10c.rs: the profile list of the card, and the calls that enable, disable, delete and name
-- a profile. Texts are lists of bytes; `b64_encode` stands for the crate base64.
mod RoundTrip
mod Identifiers
mod Listing
mod Tests
use mathlib.Core.List.{foldl}
use mu5250_open_ui.Base.{
  ℕ, zero, suc, Bool, true, false, not, ◌&&◌, ◌||◌, Option, none, some, List, [], ◌∷◌, ◌++◌, map,
  String, length, ltb, leb, ◌==◌, if◌then◌else◌,
}
use mu5250_open_ui.Base.Results.{Result, ok, err, and_then}
use mu5250_open_ui.Base.Strings.{str_eq}
use mu5250_open_ui.Base.Texts.{codes, decimal}
use mu5250_open_ui.Base.Utf8.{from_utf8_lossy}
use mu5250_open_ui.Euicc.Der.{Tlv, Node, prim, cons, nil, child, iter, find, filter_tag, to_u64}
use mu5250_open_ui.Euicc.Hex.{decode, iccid_to_bcd, bcd_to_iccid, hex_value, is_empty}
use mu5250_open_ui.Euicc.Session.{
  Apdu, Error, malformed, argument, Outcome, done, ◌>>=◌, lift, ok_or, request, result_code,
}
use mu5250_open_ui.Euicc.Hex

pub record ProfileInfo : Type 0 where
  pub iccid : List ℕ
  pub isdp_aid : List ℕ
  pub profile_state : Option String
  pub profile_nickname : Option (List ℕ)
  pub service_provider_name : Option (List ℕ)
  pub profile_name : Option (List ℕ)
  pub icon_type : Option String
  pub icon : Option (List ℕ)
  pub profile_class : Option String

-- `ProfileInfo::default()`
abbrev pub default : ProfileInfo
default = record {
  iccid = [];
  isdp_aid = [];
  profile_state = none;
  profile_nickname = none;
  service_provider_name = none;
  profile_name = none;
  icon_type = none;
  icon = none;
  profile_class = none;
}

abbrev pub text : List ℕ → List ℕ
text value = from_utf8_lossy value

unfoldable pub profile_state : ℕ → String
profile_state value = if value == 0 then "disabled" else if value == 1 then "enabled" else "unknown"

unfoldable pub profile_class : ℕ → String
profile_class value =
    if value == 0
    then "test"
    else if value == 1
    then "provisioning"
    else if value == 2
    then "operational"
    else "unknown"

unfoldable pub icon_type : ℕ → String
icon_type value = if value == 0 then "jpeg" else if value == 1 then "png" else "unknown"

module _ (b64_encode : List ℕ → List ℕ) where
  -- The match on the tag of one element.
  unfoldable pub set_field : ProfileInfo → Tlv → ProfileInfo
  set_field p t =
      if t.tag == 0x5a
      then record p { iccid = bcd_to_iccid t.value }
      else if t.tag == 0x4f
      then record p { isdp_aid = Hex.encode t.value }
      else if t.tag == 0x9f70
      then record p { profile_state = some (profile_state (to_u64 t.value)) }
      else if t.tag == 0x90
      then record p { profile_nickname = some (text t.value) }
      else if t.tag == 0x91
      then record p { service_provider_name = some (text t.value) }
      else if t.tag == 0x92
      then record p { profile_name = some (text t.value) }
      else if t.tag == 0x93
      then record p { icon_type = some (icon_type (to_u64 t.value)) }
      else if t.tag == 0x94
      then record p { icon = some (b64_encode t.value) }
      else if t.tag == 0x95
      then record p { profile_class = some (profile_class (to_u64 t.value)) }
      else p

  -- The loop over the elements of one entry.
  unfoldable pub profile_info : List ℕ → ProfileInfo
  profile_info value = foldl set_field default (iter value)

  unfoldable pub parse_profiles : List ℕ → Result Error (List ProfileInfo)
  parse_profiles body =
      and_then (ok_or (malformed "profile list error") (find body 0xa0))
        λ list. ok (map (λ info. profile_info info.value) (filter_tag 0xe3 (iter list.value)))

  -- GetProfilesInfo.
  unfoldable pub profiles : {W : Type 0} → Apdu W → ℕ → ℕ → W → Outcome W (List ProfileInfo)
  profiles io channel fuel = do
    body ← request io channel fuel (prim 0xbf2d [])
    lift (parse_profiles body)

-- `id.bytes().all(|b| b.is_ascii_hexdigit())`
unfoldable pub all_hexdigits : List ℕ → Bool
all_hexdigits [] = true
all_hexdigits (c ∷ cs) = elim (hex_value c) [ none ↦ false | some v ↦ true ] && all_hexdigits cs

unfoldable pub profile_id : List ℕ → Result Error Node
profile_id id =
    if length id == 32
    then and_then (ok_or (argument "ISD-P AID") (decode id)) (λ aid. ok (prim 0x4f aid))
    else if is_empty id || ltb 20 (length id) || not (all_hexdigits id)
    then err (argument "ICCID")
    else and_then (ok_or (argument "ICCID") (iccid_to_bcd id 10)) (λ bcd. ok (prim 0x5a bcd))

unfoldable pub switch_request : ℕ → List ℕ → Bool → Result Error Node
switch_request tag id refresh = and_then (profile_id id) λ node. ok (
    cons tag (
      child (cons 0xa0 (child node nil))
        (child (prim 0x81 ((if refresh then 0xff else 0x00) ∷ [])) nil)))

module _ {W : Type 0} (io : Apdu W) (channel fuel : ℕ) where
  unfoldable pub enable_profile : List ℕ → Bool → W → Outcome W ℕ
  enable_profile id refresh = do
    req ← lift (switch_request 0xbf31 id refresh)
    result_code io channel fuel req

  unfoldable pub disable_profile : List ℕ → Bool → W → Outcome W ℕ
  disable_profile id refresh = do
    req ← lift (switch_request 0xbf32 id refresh)
    result_code io channel fuel req

  unfoldable pub delete_profile : List ℕ → W → Outcome W ℕ
  delete_profile id = do
    node ← lift (profile_id id)
    result_code io channel fuel (cons 0xbf33 (child node nil))

  -- GetEuiccData, as hexadecimal digits.
  unfoldable pub eid : W → Outcome W (List ℕ)
  eid = do
    body ← request io channel fuel (cons 0xbf3e (child (prim 0x5c (0x5a ∷ [])) nil))
    t ← lift (ok_or (malformed "no EID") (find body 0x5a))
    done (Hex.encode t.value)

  unfoldable pub set_nickname : List ℕ → List ℕ → W → Outcome W ℕ
  set_nickname iccid nickname = do
    bcd ← lift (ok_or (argument "ICCID") (iccid_to_bcd iccid 10))
    result_code io channel fuel
        (cons 0xbf29 (child (prim 0x5a bcd) (child (prim 0x90 nickname) nil)))

-- The match on the call and the code; `""` for the codes without a name.
unfoldable pub result_name : List ℕ → ℕ → List ℕ
result_name op n =
    let is_call : String → Bool = λ name. str_eq op (codes name) in
    if n == 1 && is_call "set_nickname"
    then codes "iccidNotFound"
    else if n == 1
    then codes "iccidOrAidNotFound"
    else if (is_call "enable_profile" || is_call "delete_profile") && n == 2
    then codes "profileNotInDisabledState"
    else if is_call "disable_profile" && n == 2
    then codes "profileNotInEnabledState"
    else if n == 3 && not (is_call "set_nickname")
    then codes "disallowedByPolicy"
    else if is_call "enable_profile" && n == 4
    then codes "wrongProfileReenabling"
    else if (is_call "enable_profile" || is_call "disable_profile") && n == 5
    then codes "catBusy"
    else if n == 127
    then codes "undefinedError"
    else []

unfoldable pub result_reason : List ℕ → ℕ → List ℕ
unfolding result_name
result_reason op n =
    let named = result_name op n in
    if is_empty named then codes "unknown result " ++ decimal n else named
