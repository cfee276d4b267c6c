-- ===== src/Euicc/Download/Plan.antt =====
-- The segments of a package against its bytes.
use mu5250_open_ui.Base.{
  ℕ, ◌+◌, ◌≡◌, refl, sym, ap, ◌∙◌, Option, none, some, List, [], ◌∷◌, ◌++◌, append-nil,
  append_assoc, length-append, take-append_length, length, le→leb, arith,
}
use mu5250_open_ui.Base.Results.{ok, err, and_then}
use mu5250_open_ui.Euicc.Der.{
  Tlv, Node, Nodes, cons, nil, child, tag_of, encode, encode_children, find,
}
use mu5250_open_ui.Euicc.Der.RoundTrip.{
  contents, tlv_of, tlvs, iter-children, find-encode, tlv_of?, find_node, find-find_node,
  head_bytes, encode_head, encode_children_cons,
}
use mu5250_open_ui.Euicc.Session.{argument, ok_or}
use mu5250_open_ui.Euicc.Download.Segments.{
  Segment, get_first, find_with_offset, offset_loop, header, opened, plan_86, plan_88, plan_87,
  plan_from, bpp_segments,
}
use mu5250_open_ui.Euicc.Download.Parts.{
  Parts, IsPackage, with_second, last_parts, parts_of, pack, joined, joined_ok, header-tlv_of,
  joined_opened, second_node, find_second, find_elements, joined_second,
}

get_first_lem : (a b all : List ℕ) → all ≡ a ++ b → get_first (length a) all ≡ some a
get_first_lem a b all e =
    rw (e, le→leb (length a) (length (a ++ b)) (omega (arith, length-append a b)))
      (ap some (take-append_length a b))

module _ (p : Parts) (h : IsPackage p) where
  bytes : List ℕ
  bytes = encode_children (parts_of p) []

  node_86 : find_node 0xa3 (parts_of p) ≡ some (cons 0xa3 p.elements)
  unfolding parts_of last_parts find_node tag_of
  node_86 = find_elements p.second p.elements

  node_88 : find_node 0xa1 (parts_of p) ≡ some (cons 0xa1 p.configure)
  unfolding parts_of find_node tag_of
  node_88 = refl

  node_87 : find_node 0xa0 (parts_of p) ≡ some (cons 0xa0 p.first)
  unfolding parts_of find_node tag_of
  node_87 = refl

  node_second : find_node 0xa2 (parts_of p) ≡ second_node p.second
  unfolding parts_of last_parts find_node tag_of
  node_second = find_second p.second p.elements

  found_in :
      (tag : ℕ) (o : Option Node) → find_node tag (parts_of p) ≡ o → find bytes tag ≡ tlv_of? o
  unfolding bytes
  found_in tag o e = find-find_node tag (parts_of p) h.parts ∙ ap tlv_of? e

  joined_86 : joined (plan_86 bytes) ≡ some (encode_children (last_parts p) [])
  unfolding plan_86 last_parts joined encode_children
  joined_86 =
      let last = cons 0xa3 p.elements in
      ap (λ o. joined (elim o [ none ↦ err (argument "no sequenceOf86") ∷ [] | some t ↦ opened t ]))
        (found_in 0xa3 (some last) node_86)
      ∙ ap joined (sym (append-nil (opened (tlv_of last))))
      ∙ joined_opened 0xa3 p.elements [] [] h.elements refl
      ∙ ap some (sym (encode_children_cons last nil))

  joined_88 :
      joined (plan_88 bytes)
      ≡ some
          (encode_children (child (cons 0xa1 p.configure) (with_second p.second (last_parts p))) [])
  unfolding plan_88
  joined_88 =
      let seq88 = cons 0xa1 p.configure in
      let rest = with_second p.second (last_parts p) in
      let later : List Segment = elim (find bytes 0xa2) [
        | none ↦ plan_86 bytes
        | some t ↦ ok t.raw ∷ plan_86 bytes
      ] in
      let later_joined : joined later ≡ some (encode_children rest []) =
        joined_second (find bytes 0xa2) p.second (last_parts p) (plan_86 bytes)
          (found_in 0xa2 (second_node p.second) node_second) joined_86 in
      ap
        (λ o.
          joined
            (elim o [ none ↦ err (argument "no sequenceOf88") ∷ [] | some t ↦ opened t ++ later ]))
        (found_in 0xa1 (some seq88) node_88)
      ∙ joined_opened 0xa1 p.configure later (encode_children rest []) h.configure later_joined
      ∙ ap some (sym (encode_children_cons seq88 rest))

  joined_87 :
      joined (plan_87 bytes)
      ≡ some (
          encode_children
            (child
              (cons 0xa0 p.first)
              (child (cons 0xa1 p.configure) (with_second p.second (last_parts p))))
            [])
  unfolding plan_87 tlv_of
  joined_87 =
      let first = cons 0xa0 p.first in
      let rest = child (cons 0xa1 p.configure) (with_second p.second (last_parts p)) in
      ap
        (λ o. joined (elim o [
          | none ↦ err (argument "no firstSequenceOf87") ∷ []
          | some t ↦ ok t.raw ∷ plan_88 bytes
        ]))
        (found_in 0xa0 (some first) node_87)
      ∙ joined_ok (encode first) (encode_children rest []) (plan_88 bytes) joined_88
      ∙ ap some (sym (encode_children_cons first rest))

  first_at_start : offset_loop 0xbf23 0 (tlvs (parts_of p)) ≡ some (0, tlv_of (cons 0xbf23 p.init))
  unfolding parts_of tlvs tlv_of tag_of offset_loop
  first_at_start = refl

  found_init : find_with_offset bytes 0xbf23 ≡ some (0, tlv_of (cons 0xbf23 p.init))
  unfolding find_with_offset bytes
  found_init = ap (offset_loop 0xbf23 0) (iter-children (parts_of p) h.parts) ∙ first_at_start

  others : Nodes
  others =
      child (cons 0xa0 p.first)
        (child (cons 0xa1 p.configure) (with_second p.second (last_parts p)))

  opening : List ℕ
  opening = head_bytes (pack p) ++ encode (cons 0xbf23 p.init)

  contents_split : contents (pack p) ≡ encode (cons 0xbf23 p.init) ++ encode_children others []
  unfolding pack parts_of contents others
  contents_split = encode_children_cons (cons 0xbf23 p.init) others

  value_pack : (tlv_of (pack p)).value ≡ bytes
  unfolding tlv_of pack contents bytes
  value_pack = refl

  found_pack : find (encode (pack p)) 0xbf36 ≡ some (tlv_of (pack p))
  unfolding pack tag_of
  found_pack = find-encode (pack p) h.whole

  split_opening : encode (pack p) ≡ opening ++ encode_children others []
  unfolding opening others
  split_opening =
      let init = cons 0xbf23 p.init in
      encode_head (pack p)
      ∙ ap (λ b. head_bytes (pack p) ++ b) contents_split
      ∙ sym (append_assoc (head_bytes (pack p)) (encode init) (encode_children others []))

  -- The first segment is the opening of the package up to the end of its first element.
  first_segment :
      get_first
        (length (header (tlv_of (pack p))) + 0 + length (encode (cons 0xbf23 p.init)))
        (encode (pack p))
      ≡ some opening
  unfolding opening
  first_segment =
      let size : length (header (tlv_of (pack p))) + 0 + length (encode (cons 0xbf23 p.init))
          ≡ length opening =
        omega (
          arith,
          ap length (header-tlv_of (pack p)),
          length-append (head_bytes (pack p)) (encode (cons 0xbf23 p.init)),
        ) in
      rw size (get_first_lem opening (encode_children others []) (encode (pack p)) split_opening)

  located :
      (o : Option Tlv) {t : Tlv} {f : ℕ × Tlv}
      → o ≡ some t
      → find_with_offset t.value 0xbf23 ≡ some f
      → and_then (ok_or (argument "no BoundProfilePackage") o) (λ pk.
        and_then
          (ok_or (argument "no InitialiseSecureChannelRequest") (find_with_offset pk.value 0xbf23))
          (λ found. ok (plan_from pk found)))
        ≡ ok (plan_from t f)
  located o {t} {f} e e' = rw (e, e') refl

  plan_pack :
      plan_from (tlv_of (pack p)) (0, tlv_of (cons 0xbf23 p.init)) ≡ ok opening ∷ plan_87 bytes
  unfolding plan_from tlv_of
  plan_pack =
      ap (λ s. ok_or (argument "BoundProfilePackage") s ∷ plan_87 (contents (pack p))) first_segment
      ∙ ap (λ b. ok opening ∷ plan_87 b) value_pack

-- A package from the operator's server is sent to the card whole and in order: for the parts of SGP.22, of
-- which the second sequence of 87 is optional, and elements that the format can hold, no segment is an
-- error and the segments, joined, are the package's bytes.
pub bpp_segments-pack :
    (p : Parts)
    → IsPackage p
    → (plan : List Segment) × (bpp_segments (encode (pack p)) ≡ ok plan)
      × (joined plan ≡ some (encode (pack p)))
unfolding bpp_segments
bpp_segments-pack p h = (
  ok (opening p h) ∷ plan_87 (bytes p h),
  located p h (find (encode (pack p)) 0xbf36) (found_pack p h)
        (ap (λ b. find_with_offset b 0xbf23) (value_pack p h) ∙ found_init p h)
      ∙ ap ok (plan_pack p h),
  joined_ok (opening p h) (encode_children (others p h) []) (plan_87 (bytes p h))
        (unfold others in joined_87 p h)
      ∙ ap some (sym (split_opening p h)),
)
