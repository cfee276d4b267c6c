-- ===== src/Euicc/Es10c/Tests.antt =====
-- Runs of the profile list and of the calls on profiles.
use mu5250_open_ui.Base.{ℕ, ◌+◌, ◌≡◌, ◌↔◌, refl, List, [], ◌∷◌, map, true, arith, length}
use mu5250_open_ui.Base.Results.{ok}
use mu5250_open_ui.Base.Strings.{str_eq}
use mu5250_open_ui.Base.Texts.{codes}
use mu5250_open_ui.Euicc.Der.{
  Node, prim, cons, encode, encode_children, encode_into, tag_of, encode_tag, encode_length,
}
use mu5250_open_ui.Euicc.Der.RoundTrip.{contents, AllEncodable, IsEncodable}
use mu5250_open_ui.Euicc.Hex.{
  iccid_to_bcd, decode, decode_pairs, pair_value, hex_value, swap_pairs, even_digits, repeat,
}
use mu5250_open_ui.Euicc.Session.{argument, done, failed}
use mu5250_open_ui.Euicc.Session.Card.{World, io, view, card, fresh}
use mu5250_open_ui.Euicc.Es10c.{
  profile_id, switch_request, all_hexdigits, enable_profile, profiles, result_name, result_reason,
}
use mu5250_open_ui.Euicc.Es10c.RoundTrip.{
  Profile, operational, class_code, bcd_of, fields, entries, answer, info_of, IsProfile,
}
use mu5250_open_ui.Euicc.Es10c.Identifiers.{IsIdentifier, profile_id-IsIdentifier}
use mu5250_open_ui.Euicc.Es10c.Listing.{profiles-answer}

result_reason_run : result_reason (codes "enable_profile") 5 ≡ codes "catBusy"
unfolding result_reason result_name str_eq
result_reason_run = refl

-- A call on something that is no identifier does not reach the card.
enable_profile_refused :
    (reply : List ℕ → List ℕ)
    → enable_profile (io reply) 1 9 (codes "12 4") true fresh ≡ failed (argument "ICCID") fresh
unfolding enable_profile switch_request profile_id all_hexdigits hex_value
enable_profile_refused reply = refl

profile_id-IsIdentifier_example :
    ((node : Node) × (profile_id (codes "8963000000000000001") ≡ ok node))
    ↔ IsIdentifier (codes "8963000000000000001")
profile_id-IsIdentifier_example = profile_id-IsIdentifier (codes "8963000000000000001")

abbrev smart : Profile
smart = record {
  iccid = codes "8963000000000000001";
  aid = 0xa0 ∷ 0x00 ∷ 0x00 ∷ 0x05 ∷ [];
  is_enabled = true;
  nickname = codes "Smart";
  provider = codes "SMART";
  name = codes "Operational";
  class = operational;
}

smart-IsProfile : IsProfile smart
unfolding fields tag_of contents bcd_of class_code iccid_to_bcd decode decode_pairs pair_value
    hex_value swap_pairs even_digits repeat
smart-IsProfile = record {
  some_digit = omega arith;
  digits = omega arith;
  most_digits = omega arith;
  nickname = omega arith;
  provider = omega arith;
  name = omega arith;
  elements = omega arith;
}

entries-AllEncodable : AllEncodable (entries (smart ∷ []))
unfolding entries fields tag_of contents encode_children encode_into bcd_of class_code iccid_to_bcd
    decode decode_pairs pair_value hex_value swap_pairs even_digits repeat encode_tag encode_length
entries-AllEncodable = omega arith

answer-AllEncodable : AllEncodable (answer (smart ∷ []))
unfolding answer entries fields tag_of contents encode_children encode_into bcd_of class_code
    iccid_to_bcd decode decode_pairs pair_value hex_value swap_pairs even_digits repeat encode_tag
    encode_length
answer-AllEncodable = omega arith

answer-IsEncodable : IsEncodable (cons 0xbf2d (answer (smart ∷ [])))
unfolding answer entries fields tag_of contents encode_children encode_into bcd_of class_code
    iccid_to_bcd decode decode_pairs pair_value hex_value swap_pairs even_digits repeat encode_tag
    encode_length
answer-IsEncodable = omega arith

abbrev listing : List ℕ → List ℕ
listing der = encode (cons 0xbf2d (answer (smart ∷ [])))

profiles-answer_example :
    (w' : World) × (profiles
        (λ b. b)
        (io listing)
        1
        (length (listing (encode (prim 0xbf2d []))) + 2)
        fresh
      ≡ done (map info_of (smart ∷ [])) w')
profiles-answer_example =
    profiles-answer (io listing) 1 (length (listing (encode (prim 0xbf2d []))) + 2) listing
      (view listing) (card listing) (omega arith) (λ b. b) (smart ∷ []) fresh refl
      (smart-IsProfile, tt) entries-AllEncodable answer-AllEncodable answer-IsEncodable refl refl
      (omega arith)
