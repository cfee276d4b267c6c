-- ===== src/Euicc/Download/Parts.antt =====
-- The parts of a package, and the bytes that segments join to.
use mu5250_open_ui.Base.{
  ℕ, ◌-◌, ◌≡◌, refl, sym, ap, ◌∙◌, Option, none, some, List, [], ◌∷◌, ◌++◌, append_assoc,
  length-append, take-append_length, map, length, take, arith,
}
use mu5250_open_ui.Base.Results.{ok, err}
use mu5250_open_ui.Euicc.Der.{Tlv, Node, Nodes, cons, nil, child, tag_of, encode, encode_children}
use mu5250_open_ui.Euicc.Der.RoundTrip.{
  IsEncodable, AllEncodable, contents, tlv_of, tlvs, iter-children, tlv_of?, find_node, head_bytes,
  encode_head, encode_children_cons,
}
use mu5250_open_ui.Euicc.Download.Segments.{Segment, header, opened}

-- The parts of a BoundProfilePackage of SGP.22; the second sequence of 87 is optional.
pub record Parts : Type 0 where
  pub init : Nodes
  pub first : Nodes
  pub configure : Nodes
  pub second : Option Nodes
  pub elements : Nodes

unfoldable pub with_second : Option Nodes → Nodes → Nodes
with_second none rest = rest
with_second (some second) rest = child (cons 0xa2 second) rest

unfoldable pub last_parts : Parts → Nodes
last_parts p = child (cons 0xa3 p.elements) nil

unfoldable pub parts_of : Parts → Nodes
unfolding with_second last_parts
parts_of p = child (cons 0xbf23 p.init) (
    child (cons 0xa0 p.first) (child (cons 0xa1 p.configure) (with_second p.second (last_parts p))))

unfoldable pub pack : Parts → Node
unfolding parts_of
pack p = cons 0xbf36 (parts_of p)

-- Elements that the format can hold.
pub record IsPackage (p : Parts) : Type 0 where
  pub whole : IsEncodable (pack p)
  pub parts : AllEncodable (parts_of p)
  pub configure : AllEncodable p.configure
  pub elements : AllEncodable p.elements

-- The bytes that the segments send, if none of them is an error.
unfoldable pub joined : List Segment → Option (List ℕ)
joined [] = some []
joined (err e ∷ ss) = none
joined (ok b ∷ ss) = elim (joined ss) [ none ↦ none | some r ↦ some (b ++ r) ]

pub joined_ok :
    (b r : List ℕ) (ss : List Segment) → joined ss ≡ some r → joined (ok b ∷ ss) ≡ some (b ++ r)
unfolding joined
joined_ok b r ss e = ap (λ o. elim o [ none ↦ none | some x ↦ some (b ++ x) ]) e

pub joined_elements :
    (ns : Nodes) (ss : List Segment) (r : List ℕ)
    → joined ss ≡ some r
    → joined (map (λ c. ok c.raw) (tlvs ns) ++ ss) ≡ some (encode_children ns [] ++ r)
unfolding tlvs tlv_of encode_children
joined_elements nil ss r e = e
joined_elements (child n ns) ss r e =
    joined_ok (encode n) (encode_children ns [] ++ r) (map (λ c. ok c.raw) (tlvs ns) ++ ss)
      (joined_elements ns ss r e)
    ∙ ap some (
        sym (append_assoc (encode n) (encode_children ns []) r)
        ∙ ap (λ b. b ++ r) (sym (encode_children_cons n ns)))

pub header-tlv_of : (n : Node) → header (tlv_of n) ≡ head_bytes n
unfolding header tlv_of
header-tlv_of n =
    let size : length (encode n) - length (contents n) ≡ length (head_bytes n) =
      omega (arith, ap length (encode_head n), length-append (head_bytes n) (contents n)) in
    ap (λ k. take k (encode n)) size
    ∙ ap (take (length (head_bytes n))) (encode_head n)
    ∙ take-append_length (head_bytes n) (contents n)

pub joined_opened :
    (tag : ℕ) (ns : Nodes) (ss : List Segment) (r : List ℕ)
    → AllEncodable ns
    → joined ss ≡ some r
    → joined (opened (tlv_of (cons tag ns)) ++ ss) ≡ some (encode (cons tag ns) ++ r)
unfolding tlv_of contents
joined_opened tag ns ss r h e =
    let n = cons tag ns in
    let body = encode_children ns [] in
    ap (λ ts. joined (ok (header (tlv_of n)) ∷ (map (λ c. ok c.raw) ts ++ ss))) (iter-children ns h)
    ∙ joined_ok (header (tlv_of n)) (body ++ r) (map (λ c. ok c.raw) (tlvs ns) ++ ss)
        (joined_elements ns ss r e)
    ∙ ap some (
        ap (λ b. b ++ (body ++ r)) (header-tlv_of n)
        ∙ sym (append_assoc (head_bytes n) body r)
        ∙ ap (λ b. b ++ r) (sym (encode_head n)))

pub second_node : Option Nodes → Option Node
second_node none = none
second_node (some ns) = some (cons 0xa2 ns)

pub find_second :
    (second : Option Nodes) (es : Nodes)
    → find_node 0xa2 (with_second second (child (cons 0xa3 es) nil)) ≡ second_node second
unfolding with_second find_node tag_of second_node
find_second none es = refl
find_second (some ns) es = refl

pub find_elements :
    (second : Option Nodes) (es : Nodes)
    → find_node 0xa3 (with_second second (child (cons 0xa3 es) nil)) ≡ some (cons 0xa3 es)
unfolding with_second find_node tag_of
find_elements none es = refl
find_elements (some ns) es = refl

pub joined_second :
    (o : Option Tlv) (second : Option Nodes) (last : Nodes) (ss : List Segment)
    → o ≡ tlv_of? (second_node second)
    → joined ss ≡ some (encode_children last [])
    → joined (elim o [ none ↦ ss | some t ↦ ok t.raw ∷ ss ])
      ≡ some (encode_children (with_second second last) [])
unfolding second_node with_second tlv_of
joined_second o none last ss found e =
    ap (λ x. joined (elim x [ none ↦ ss | some t ↦ ok t.raw ∷ ss ])) found ∙ e
joined_second o (some ns) last ss found e =
    ap (λ x. joined (elim x [ none ↦ ss | some t ↦ ok t.raw ∷ ss ])) found
    ∙ joined_ok (encode (cons 0xa2 ns)) (encode_children last []) ss e
    ∙ ap some (sym (encode_children_cons (cons 0xa2 ns) last))
