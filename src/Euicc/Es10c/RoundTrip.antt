-- ===== src/Euicc/Es10c/RoundTrip.antt =====
-- The profile list that a card writes, as the reader shows it.
use mu5250_open_ui.Base.{
  ℕ, ◌≤◌, ◌≡◌, refl, ap, Bool, true, false, none, some, List, [], ◌∷◌, map, String, length,
  if◌then◌else◌, All, arith,
}
use mu5250_open_ui.Base.Results.{ok}
use mu5250_open_ui.Base.Utf8.{IsAscii, from_utf8_lossy-ascii}
use mu5250_open_ui.Euicc.Der.{
  Nodes, prim, cons, nil, child, find, find_first, filter_tag, to_u64, push_byte, encode_children,
  tag_of,
}
use mu5250_open_ui.Euicc.Der.RoundTrip.{AllEncodable, contents, tlv_of, tlvs, iter-children}
use mu5250_open_ui.Euicc.Hex
use mu5250_open_ui.Euicc.Hex.{iccid_to_bcd, bcd_to_iccid}
use mu5250_open_ui.Euicc.Hex.RoundTrip.{IsDigit}
use mu5250_open_ui.Euicc.Hex.Iccid.{bcd_to_iccid-iccid_to_bcd}
use mu5250_open_ui.Euicc.Es10c.{
  ProfileInfo, profile_state, profile_class, set_field, profile_info, parse_profiles,
}

pub data Class : Type 0 where
  test provisioning operational : Class

-- A profile as the card keeps it.
pub record Profile : Type 0 where
  pub iccid : List ℕ
  pub aid : List ℕ
  pub is_enabled : Bool
  pub nickname : List ℕ
  pub provider : List ℕ
  pub name : List ℕ
  pub class : Class

unfoldable pub class_code : Class → ℕ
class_code test = 0
class_code provisioning = 1
class_code operational = 2

unfoldable pub class_name : Class → String
class_name test = "test"
class_name provisioning = "provisioning"
class_name operational = "operational"

unfoldable pub bcd_of : List ℕ → List ℕ
bcd_of iccid = elim (iccid_to_bcd iccid 10) [ none ↦ [] | some bcd ↦ bcd ]

-- The elements of a profile's entry, as SGP.22 numbers them.
unfoldable pub fields : Profile → Nodes
fields p = child (prim 0x5a (bcd_of p.iccid)) (
    child (prim 0x4f p.aid) (
      child (prim 0x9f70 ((if p.is_enabled then 1 else 0) ∷ [])) (
        child (prim 0x90 p.nickname) (
          child (prim 0x91 p.provider)
            (child (prim 0x92 p.name) (child (prim 0x95 (class_code p.class ∷ [])) nil))))))

unfoldable pub entries : List Profile → Nodes
entries [] = nil
entries (p ∷ ps) = child (cons 0xe3 (fields p)) (entries ps)

-- The contents of the answer.
unfoldable pub answer : List Profile → Nodes
answer ps = child (cons 0xa0 (entries ps)) nil

-- What the reader should make of a profile.
unfoldable pub info_of : Profile → ProfileInfo
info_of p = record {
  iccid = p.iccid;
  isdp_aid = Hex.encode p.aid;
  profile_state = some (if p.is_enabled then "enabled" else "disabled");
  profile_nickname = some p.nickname;
  service_provider_name = some p.provider;
  profile_name = some p.name;
  icon_type = none;
  icon = none;
  profile_class = some (class_name p.class);
}

-- An ICCID of 1 to 20 digits, ASCII texts, and elements that the format can hold.
pub record IsProfile (p : Profile) : Type 0 where
  pub some_digit : 1 ≤ length p.iccid
  pub digits : All IsDigit p.iccid
  pub most_digits : length p.iccid ≤ 20
  pub nickname : All IsAscii p.nickname
  pub provider : All IsAscii p.provider
  pub name : All IsAscii p.name
  pub elements : AllEncodable (fields p)

iccid-bcd_of :
    (iccid : List ℕ)
    → 1 ≤ length iccid
    → All IsDigit iccid
    → length iccid ≤ 20
    → bcd_to_iccid (bcd_of iccid) ≡ iccid
unfolding bcd_of
iccid-bcd_of [] h digits fits = absurd (omega (arith, h))
iccid-bcd_of (d ∷ ds) h digits fits =
    let (out, e, _, back) = bcd_to_iccid-iccid_to_bcd d ds 10 digits fits in rw (bcd_of, e) back

state_name :
    (e : Bool)
    → profile_state (to_u64 ((if e then 1 else 0) ∷ [])) ≡ (if e then "enabled" else "disabled")
unfolding profile_state to_u64 push_byte
state_name true = refl
state_name false = refl

class_name_lem : (c : Class) → profile_class (to_u64 (class_code c ∷ [])) ≡ class_name c
unfolding profile_class to_u64 push_byte class_code class_name
class_name_lem test = refl
class_name_lem provisioning = refl
class_name_lem operational = refl

module _ (b64_encode : List ℕ → List ℕ) where
  profile_info-fields :
      (p : Profile)
      → IsProfile p
      → profile_info b64_encode (encode_children (fields p) []) ≡ info_of p
  unfolding profile_info info_of
  profile_info-fields p h = rw (iter-children (fields p) h.elements) (
      unfold fields tlvs tlv_of tag_of contents set_field in
      rw
        (
          iccid-bcd_of p.iccid h.some_digit h.digits h.most_digits,
          state_name p.is_enabled,
          from_utf8_lossy-ascii p.nickname h.nickname,
          from_utf8_lossy-ascii p.provider h.provider,
          from_utf8_lossy-ascii p.name h.name,
          class_name_lem p.class,
        )
        refl)

  entries_info :
      (ps : List Profile)
      → All IsProfile ps
      → map (λ info. profile_info b64_encode info.value) (filter_tag 0xe3 (tlvs (entries ps)))
        ≡ map info_of ps
  unfolding entries tlvs filter_tag tlv_of tag_of contents
  entries_info [] h = refl
  entries_info (p ∷ ps) h = rw (profile_info-fields p h.0, entries_info ps h.1) refl

  -- The reader shows the profiles of the list that the card writes, each with its ICCID as digits, its
  -- state, its texts and its class, in the card's order: for ICCIDs of 1 to 20 digits, ASCII texts, and
  -- elements that the format can hold.
  pub parse_profiles-answer :
      (ps : List Profile)
      → All IsProfile ps
      → AllEncodable (entries ps)
      → AllEncodable (answer ps)
      → parse_profiles b64_encode (encode_children (answer ps) []) ≡ ok (map info_of ps)
  unfolding parse_profiles
  parse_profiles-answer ps h es whole =
      let found : find (encode_children (answer ps) []) 0xa0
          ≡ some (tlv_of (cons 0xa0 (entries ps))) =
        unfold find in
        rw (iter-children (answer ps) whole)
          (unfold answer tlvs tlv_of tag_of find_first in refl) in
      rw found
        (unfold tlv_of contents in rw (iter-children (entries ps) es) (ap ok (entries_info ps h)))
