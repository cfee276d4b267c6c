-- ===== src/Euicc/Es10b/Pending.antt =====
-- A notification that the card hands over, as the reader passes it on.
use mu5250_open_ui.Base.{ℕ, ◌≡◌, refl, ap, ◌∙◌, List, [], ◌∷◌, some, All}
use mu5250_open_ui.Base.Results.{ok}
use mu5250_open_ui.Base.Utf8.{IsAscii, from_utf8_lossy-ascii}
use mu5250_open_ui.Euicc.Der.{
  Node, Nodes, prim, cons, nil, child, from_u64, encode, encode_children, tag_of, find, find_any,
  find_first, contains,
}
use mu5250_open_ui.Euicc.Der.RoundTrip.{
  AllEncodable, contents, tlv_of, tlvs, iter-children, find_node, find-find_node,
}
use mu5250_open_ui.Euicc.Es10b.{metadata_of, parse_pending}

-- Its number, what happened, and the server to tell.
pub record Notification : Type 0 where
  pub seq_number : ℕ
  pub event : ℕ
  pub address : List ℕ
  pub more : Nodes

unfoldable pub fields : Notification → Nodes
fields n =
    child (prim 0x80 (from_u64 n.seq_number))
      (child (prim 0x81 (7 ∷ n.event ∷ [])) (child (prim 0x0c n.address) n.more))

-- A signed notification, or the result of an installation with its transaction.
pub data Kind : Type 0 where
  signed : Nodes → Kind
  installation : List ℕ → Nodes → Nodes → Kind

-- The children of the notification's element.
unfoldable pub parts : Kind → Notification → Nodes
parts (signed rest) n = child (cons 0xbf2f (fields n)) rest
parts (installation transaction rest signature) n =
    child (cons 0xbf27 (child (prim 0x80 transaction) (child (cons 0xbf2f (fields n)) rest)))
      signature

-- The result of an installation, between the two.
unfoldable pub inner_parts : Kind → Notification → Nodes
inner_parts (signed rest) n = nil
inner_parts (installation transaction rest signature) n =
    child (prim 0x80 transaction) (child (cons 0xbf2f (fields n)) rest)

unfoldable pub element : Kind → Notification → Node
element (signed rest) n = cons 0x30 (parts (signed rest) n)
element (installation transaction rest signature) n =
    cons 0xbf37 (parts (installation transaction rest signature) n)

unfoldable pub answer : Kind → Notification → Nodes
answer k n = child (cons 0xa0 (child (element k n) nil)) nil

-- Elements that the format can hold, with an ASCII address.
pub record IsPending (k : Kind) (n : Notification) : Type 0 where
  pub address : All IsAscii n.address
  pub list : AllEncodable (answer k n)
  pub element : AllEncodable (child (element k n) nil)
  pub parts : AllEncodable (parts k n)
  pub inner : AllEncodable (inner_parts k n)
  pub fields : AllEncodable (fields n)

found_list :
    (k : Kind) (n : Notification)
    → IsPending k n
    → find (encode_children (answer k n) []) 0xa0
      ≡ some (tlv_of (cons 0xa0 (child (element k n) nil)))
found_list k n h = find-find_node 0xa0 (answer k n) h.list ∙ unfold answer find_node tag_of in refl

found_element :
    (k : Kind) (n : Notification)
    → IsPending k n
    → find_any (encode_children (child (element k n) nil) []) (0xbf37 ∷ (0x30 ∷ []))
      ≡ some (tlv_of (element k n))
unfolding find_any
found_element (signed rest) n h =
    ap (find_first (λ t. contains (0xbf37 ∷ (0x30 ∷ [])) t.tag))
      (iter-children (child (element (signed rest) n) nil) h.element)
    ∙ unfold find_first contains tlvs tlv_of element tag_of in refl
found_element (installation transaction rest signature) n h =
    ap (find_first (λ t. contains (0xbf37 ∷ (0x30 ∷ [])) t.tag))
      (iter-children (child (element (installation transaction rest signature) n) nil) h.element)
    ∙ unfold find_first contains tlvs tlv_of element tag_of in refl

found_metadata :
    (k : Kind) (n : Notification)
    → IsPending k n
    → metadata_of (tlv_of (element k n)) ≡ some (tlv_of (cons 0xbf2f (fields n)))
unfolding metadata_of element tlv_of contents tag_of
found_metadata (signed rest) n h =
    find-find_node 0xbf2f (parts (signed rest) n) h.parts ∙ unfold parts find_node in refl
found_metadata (installation transaction rest signature) n h =
    let k = installation transaction rest signature in
    let outer : find (encode_children (parts k n) []) 0xbf27
        ≡ some (tlv_of (cons 0xbf27 (inner_parts k n))) =
      find-find_node 0xbf27 (parts k n) h.parts ∙ unfold parts inner_parts find_node in refl in
    let inner : find (encode_children (inner_parts k n) []) 0xbf2f
        ≡ some (tlv_of (cons 0xbf2f (fields n))) =
      find-find_node 0xbf2f (inner_parts k n) h.inner ∙ unfold inner_parts find_node in refl in
    rw (outer, inner) refl

found_address :
    (n : Notification)
    → AllEncodable (fields n)
    → find (encode_children (fields n) []) 0x0c ≡ some (tlv_of (prim 0x0c n.address))
found_address n h = find-find_node 0x0c (fields n) h ∙ unfold fields find_node tag_of in refl

-- A notification that the card hands over, signed or the result of an installation, whose metadata begin with
-- its number, one octet of events and an address of ASCII characters, and whose elements the format can
-- hold, is passed on whole, byte for byte, with the address of its server.
pub parse_pending-answer :
    (k : Kind) (n : Notification)
    → IsPending k n
    → parse_pending (encode_children (answer k n) [])
      ≡ ok (record { notification_address = n.address; der = encode (element k n) })
unfolding parse_pending tlv_of contents
parse_pending-answer k n h =
    rw
      (
        found_list k n h,
        found_element k n h,
        found_metadata k n h,
        found_address n h.fields,
        from_utf8_lossy-ascii n.address h.address,
      )
      refl
