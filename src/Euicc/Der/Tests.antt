-- ===== src/Euicc/Der/Tests.antt =====
-- Runs of the DER functions on the inputs of the source's own tests, and the theorems at them.
use mu5250_open_ui.Base.{String, ℕ, ◌≡◌, refl, List, [], ◌∷◌, ◌++◌, none, some, arith}
use mu5250_open_ui.Euicc.Der.{
  bit_names, byte_loop, bit_loop, clear_unused, Node, prim, cons, nil, child, tag_of, parse, iter,
  iter_loop, next, encode, encode_into, encode_children, from_u64, find,
}
use mu5250_open_ui.Euicc.Der.Prefix.{IsPrefix, parse-IsPrefix}
use mu5250_open_ui.Euicc.Der.BitNames.{marked, used_bits, bit_names-marked}
use mu5250_open_ui.Euicc.Der.RoundTrip.{IsEncodable, AllEncodable, contents, tlv_of, parse-encode}

-- EnableProfileRequest with refresh: BF31 { A0 { 5A iccid } 81 FF }
abbrev profile_id : Node
profile_id = cons 0xA0 (child (prim 0x5A (0x98 ∷ 0x10 ∷ [])) nil)

abbrev request : Node
request = cons 0xBF31 (child profile_id (child (prim 0x81 (0xFF ∷ [])) nil))

request_bytes :
    encode request
    ≡ 0xBF ∷ 0x31 ∷ 0x09 ∷ 0xA0 ∷ 0x04 ∷ 0x5A ∷ 0x02 ∷ 0x98 ∷ 0x10 ∷ 0x81 ∷ 0x01 ∷ 0xFF ∷ []
unfolding encode encode_into
request_bytes = refl

short_element :
    parse (0x5A ∷ 0x02 ∷ 0x89 ∷ 0x01 ∷ 0xFF ∷ [])
    ≡ some (record { tag = 0x5A; value = 0x89 ∷ 0x01 ∷ []; raw = 0x5A ∷ 0x02 ∷ 0x89 ∷ 0x01 ∷ [] })
unfolding parse
short_element = refl

truncated_element : parse (0x04 ∷ 0x05 ∷ 1 ∷ 2 ∷ []) ≡ none
unfolding parse
truncated_element = refl

length_over_four_bytes : parse (0x04 ∷ 0x85 ∷ 1 ∷ 1 ∷ 1 ∷ 1 ∷ 1 ∷ []) ≡ none
unfolding parse
length_over_four_bytes = refl

found :
    find (0x80 ∷ 0x01 ∷ 0x05 ∷ 0x0C ∷ 0x01 ∷ 0x61 ∷ []) 0x0C
    ≡ some (record { tag = 0x0C; value = 0x61 ∷ []; raw = 0x0C ∷ 0x01 ∷ 0x61 ∷ [] })
unfolding find iter iter_loop next parse
found = refl

integers : from_u64 300 ≡ 0x01 ∷ 0x2C ∷ []
unfolding from_u64
integers = refl

padded : from_u64 0x80 ≡ 0 ∷ 0x80 ∷ []
unfolding from_u64
padded = refl

parse-IsPrefix_example :
    (header : List ℕ) × (rest : List ℕ) × IsPrefix
      (0x5A ∷ 0x02 ∷ 0x89 ∷ 0x01 ∷ 0xFF ∷ [])
      (record { tag = 0x5A; value = 0x89 ∷ 0x01 ∷ []; raw = 0x5A ∷ 0x02 ∷ 0x89 ∷ 0x01 ∷ [] })
      header
      rest
parse-IsPrefix_example = parse-IsPrefix (0x5A ∷ 0x02 ∷ 0x89 ∷ 0x01 ∷ 0xFF ∷ []) short_element

request-IsEncodable : IsEncodable request
unfolding tag_of contents encode_children encode_into
request-IsEncodable = omega arith

children-AllEncodable : AllEncodable (child profile_id (child (prim 0x81 (0xFF ∷ [])) nil))
unfolding tag_of contents encode_children encode_into
children-AllEncodable = omega arith

parse-encode_example : parse (encode request ++ (7 ∷ [])) ≡ some (tlv_of request)
parse-encode_example = parse-encode request (7 ∷ []) request-IsEncodable

abbrev capabilities : List String
capabilities = "additionalProfile" ∷ "crlSupport" ∷ "rpmSupport" ∷ []

-- Five unused bits: the flags are 101, and the rest of the byte is not looked at.
bit_names_run : bit_names (5 ∷ (0xbf ∷ [])) capabilities ≡ "additionalProfile" ∷ ("rpmSupport" ∷ [])
unfolding bit_names byte_loop bit_loop clear_unused
bit_names_run = refl

bit_names-marked_example :
    bit_names (5 ∷ (0xbf ∷ [])) capabilities ≡ marked capabilities (used_bits 5 (0xbf ∷ []))
bit_names-marked_example = bit_names-marked 5 (0xbf ∷ []) capabilities (omega arith)
