-- ===== src/Euicc/Info2/Versions.antt =====
-- The versions that the card states, each under a tag of its own.
use mathlib.Core.List.{foldl}
use mu5250_open_ui.Base.{
  ℕ, ◌≡◌, refl, ap, ◌∙◌, Bool, true, false, Option, none, some, List, [], ◌∷◌, ◌==◌, if◌then◌else◌,
  arith,
}
use mu5250_open_ui.Euicc.Der.{Tlv, iter}
use mu5250_open_ui.Euicc.Info2.{EuiccInfo2, default, version, version_or, set_field, parse_info2}

-- The last element with the tag whose contents are three octets.
unfoldable pub latest : ℕ → List Tlv → Option (List ℕ)
latest tag [] = none
latest tag (t ∷ ts) = elim (latest tag ts) [
  | none ↦ if t.tag == tag then version t.value else none
  | some v ↦ some v
]

abbrev or_else : Option (List ℕ) → Option (List ℕ) → Option (List ℕ)
or_else none old = old
or_else (some v) old = some v

later_wins :
    (o : Option (List ℕ)) (b : Bool) (v old : Option (List ℕ))
    → or_else o (if b then (elim v [ none ↦ old | some x ↦ some x ]) else old)
      ≡ or_else (elim o [ none ↦ if b then v else none | some x ↦ some x ]) old
later_wins (some x) b v old = refl
later_wins none false v old = refl
later_wins none true none old = refl
later_wins none true (some x) old = refl

module _ (f : EuiccInfo2 → Option (List ℕ)) (tag : ℕ)
    (step : (info : EuiccInfo2) (t : Tlv)
      → f (set_field info t) ≡ (if t.tag == tag then version_or t.value (f info) else f info)) where
  latest_step :
      (t : Tlv) (ts : List Tlv) (old : Option (List ℕ))
      → or_else (latest tag ts) (if t.tag == tag then version_or t.value old else old)
        ≡ or_else (latest tag (t ∷ ts)) old
  unfolding latest
  latest_step t ts old = later_wins (latest tag ts) (t.tag == tag) (version t.value) old

  fold-latest :
      (ts : List Tlv) (info : EuiccInfo2)
      → f (foldl set_field info ts) ≡ or_else (latest tag ts) (f info)
  fold-latest [] info = unfold latest in refl
  fold-latest (t ∷ ts) info =
      fold-latest ts (set_field info t)
      ∙ ap (or_else (latest tag ts)) (step info t)
      ∙ latest_step t ts (f info)

or_else_none : (o : Option (List ℕ)) → or_else o none ≡ o
or_else_none none = refl
or_else_none (some v) = refl

profile_version_step :
    (info : EuiccInfo2) (t : Tlv)
    → (set_field info t).profile_version
      ≡ (if t.tag == 0x81 then version_or t.value info.profile_version else info.profile_version)
unfolding set_field
profile_version_step info t = ground arith

svn_step :
    (info : EuiccInfo2) (t : Tlv)
    → (set_field info t).svn ≡ (if t.tag == 0x82 then version_or t.value info.svn else info.svn)
unfolding set_field
svn_step info t = ground arith

euicc_firmware_ver_step :
    (info : EuiccInfo2) (t : Tlv)
    → (set_field info t).euicc_firmware_ver ≡ (
        if t.tag == 0x83
        then version_or t.value info.euicc_firmware_ver
        else info.euicc_firmware_ver)
unfolding set_field
euicc_firmware_ver_step info t = ground arith

ts102241_version_step :
    (info : EuiccInfo2) (t : Tlv)
    → (set_field info t).ts102241_version
      ≡ (if t.tag == 0x86 then version_or t.value info.ts102241_version else info.ts102241_version)
unfolding set_field
ts102241_version_step info t = ground arith

globalplatform_version_step :
    (info : EuiccInfo2) (t : Tlv)
    → (set_field info t).globalplatform_version ≡ (
        if t.tag == 0x87
        then version_or t.value info.globalplatform_version
        else info.globalplatform_version)
unfolding set_field
globalplatform_version_step info t = ground arith

pp_version_step :
    (info : EuiccInfo2) (t : Tlv)
    → (set_field info t).pp_version
      ≡ (if t.tag == 0x04 then version_or t.value info.pp_version else info.pp_version)
unfolding set_field
pp_version_step info t = ground arith

-- Each version that the answer shows is that of the last element with its tag whose contents are three
-- octets, and there is none without such an element: the other elements do not touch it.
pub parse_info2-latest :
    (body : List ℕ)
    → ((parse_info2 body).profile_version ≡ latest 0x81 (iter body))
      × ((parse_info2 body).svn ≡ latest 0x82 (iter body))
      × ((parse_info2 body).euicc_firmware_ver ≡ latest 0x83 (iter body))
      × ((parse_info2 body).ts102241_version ≡ latest 0x86 (iter body))
      × ((parse_info2 body).globalplatform_version ≡ latest 0x87 (iter body))
      × ((parse_info2 body).pp_version ≡ latest 0x04 (iter body))
unfolding parse_info2
parse_info2-latest body =
    let ts = iter body in
    (
      fold-latest (λ i. i.profile_version) 0x81 profile_version_step ts default
          ∙ or_else_none (latest 0x81 ts),
      fold-latest (λ i. i.svn) 0x82 svn_step ts default ∙ or_else_none (latest 0x82 ts),
      fold-latest (λ i. i.euicc_firmware_ver) 0x83 euicc_firmware_ver_step ts default
          ∙ or_else_none (latest 0x83 ts),
      fold-latest (λ i. i.ts102241_version) 0x86 ts102241_version_step ts default
          ∙ or_else_none (latest 0x86 ts),
      fold-latest (λ i. i.globalplatform_version) 0x87 globalplatform_version_step ts default
          ∙ or_else_none (latest 0x87 ts),
      fold-latest (λ i. i.pp_version) 0x04 pp_version_step ts default
          ∙ or_else_none (latest 0x04 ts),
    )
