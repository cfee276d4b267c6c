-- ===== src/Euicc/Der/RoundTrip.antt =====
-- `parse` reads back what `encode` wrote, whatever follows it.
use mu5250_open_ui.Base.{
  ℕ, ◌+◌, ◌^◌, ◌≤◌, ◌<◌, ◌≡◌, ◌≢◌, ◌==◌, if◌then◌else◌, Option, none, refl, sym, ap, ◌∙◌, List, [],
  ◌∷◌, ◌++◌, some, length, take, drop, arith, append_assoc, append-nil, length-append,
  take-append_length, drop-append_length, lt→ltb, le→leb,
}
use mu5250_open_ui.Euicc.Der.{
  Tlv, Node, Nodes, prim, cons, nil, child, tag_of, parse, encode_tag, encode_length, encode,
  encode_into, encode_children, iter, from_u64, usize_mod, find, find_first,
}
use mu5250_open_ui.Euicc.Der.Header.{
  IsTag, parse_tag-encode_tag, parse_length-encode_length, length-encode_tag, length-encode_length,
}
use mu5250_open_ui.Euicc.Der.Integers.{length-from_u64}
use mu5250_open_ui.Euicc.Der.Prefix.{iter-parse}

-- The contents of an element: literal, or the encoded children.
unfoldable pub contents : Node → List ℕ
contents (prim tag value) = value
contents (cons tag children) = encode_children children []

module _ (a b v r : List ℕ) where
  drop_header : drop (length a + length b) (a ++ (b ++ (v ++ r))) ≡ v ++ r
  drop_header =
      rw (← length-append a b, ← append_assoc a b (v ++ r)) (drop-append_length (a ++ b) (v ++ r))

  take_element : take (length a + length b + length v) (a ++ (b ++ (v ++ r))) ≡ a ++ (b ++ v)
  take_element =
      rw
        (
          ← length-append a b,
          ← length-append (a ++ b) v,
          ← append_assoc b v r,
          ← append_assoc a (b ++ v) r,
          ← append_assoc a b v,
        )
        (take-append_length ((a ++ b) ++ v) r)

  length_element : length a + length b + length v ≤ length (a ++ (b ++ (v ++ r)))
  length_element =
      omega (arith, length-append a (b ++ (v ++ r)), length-append b (v ++ r), length-append v r)

-- Reading the header and the contents off any buffer that begins with them.
parse-header :
    (tag : ℕ) (value rest : List ℕ)
    → IsTag tag
    → length value < 2 ^ 32
    → parse (encode_tag tag ++ (encode_length (length value) ++ (value ++ rest)))
      ≡ some (record {
        tag = tag;
        value = value;
        raw = encode_tag tag ++ (encode_length (length value) ++ value);
      })
unfolding parse
parse-header tag value rest t h =
    let a = encode_tag tag in
    let b = encode_length (length value) in
    let bound : length a + length b + length value < usize_mod =
      omega (arith, length-encode_tag tag, length-encode_length (length value) h) in
    rw
      (
        parse_tag-encode_tag tag (b ++ (value ++ rest)) t,
        parse_length-encode_length (length value) a (value ++ rest) h,
        lt→ltb _ _ bound,
        le→leb _ _ (length_element a b value rest),
        drop_header a b value rest,
        take_element a b value rest,
        take-append_length value rest,
      )
      refl

encode-parts :
    (n : Node)
    → encode n ≡ encode_tag (tag_of n) ++ (encode_length (length (contents n)) ++ contents n)
unfolding encode encode_into contents tag_of
encode-parts (prim tag value) = append_assoc (encode_tag tag) (encode_length (length value)) value
encode-parts (cons tag children) =
    append_assoc (encode_tag tag) (encode_length (length (encode_children children [])))
      (encode_children children [])

-- What `parse` makes of an encoded node.
unfoldable pub tlv_of : Node → Tlv
tlv_of n = record { tag = tag_of n; value = contents n; raw = encode n }

-- A node that the format can hold: its tag is one, and its length fits four octets.
pub record IsEncodable (n : Node) : Type 0 where
  pub tag : IsTag (tag_of n)
  pub fits : length (contents n) < 2 ^ 32

-- `parse` reads an encoded node back: its tag, its contents and the whole element, whatever bytes
-- follow it, for every node with a valid tag and less than 2^32 bytes of contents.
pub parse-encode :
    (n : Node) (rest : List ℕ) → IsEncodable n → parse (encode n ++ rest) ≡ some (tlv_of n)
unfolding tlv_of
parse-encode n rest h =
    rw (encode-parts n, append_assoc, append_assoc)
      (parse-header (tag_of n) (contents n) rest h.tag h.fits)

encode_into-append : (n : Node) (out : List ℕ) → encode_into n out ≡ out ++ encode n
unfolding encode encode_into
encode_into-append (prim tag value) out = simp append_assoc
encode_into-append (cons tag children) out = simp append_assoc

-- The children are written one behind the other.
pub encode_children-append :
    (ns : Nodes) (out : List ℕ) → encode_children ns out ≡ out ++ encode_children ns []
unfolding encode_children
encode_children-append nil out = sym (append-nil out)
encode_children-append (child n ns) out =
    rw (encode_children-append ns (encode_into n out), encode_children-append ns (encode_into n []))
      (simp (encode_into-append, append_assoc))

iter-encode :
    (n : Node) (rest : List ℕ) → IsEncodable n → iter (encode n ++ rest) ≡ tlv_of n ∷ iter rest
iter-encode n rest h =
    iter-parse (encode n ++ rest)
    ∙ rw (parse-encode n rest h) (unfold tlv_of in rw (drop-append_length (encode n) rest))

-- The elements that a reader should find in the contents of a node with these children.
unfoldable pub tlvs : Nodes → List Tlv
tlvs nil = []
tlvs (child n ns) = tlv_of n ∷ tlvs ns

abbrev pub AllEncodable : Nodes → Type 0
AllEncodable nil = Unit
AllEncodable (child n ns) = IsEncodable n × AllEncodable ns

-- `iter` reads back every child that the encoder wrote, in order, and then goes on with the bytes
-- behind them, for children that the format can hold.
pub iter-encode_children :
    (ns : Nodes) (rest : List ℕ)
    → AllEncodable ns
    → iter (encode_children ns [] ++ rest) ≡ tlvs ns ++ iter rest
unfolding tlvs encode_children
iter-encode_children nil rest h = refl
iter-encode_children (child n ns) rest h =
    rw (encode_children-append ns (encode_into n []), encode_into-append n [], append_assoc)
      (iter-encode n (encode_children ns [] ++ rest) h.0
        ∙ ap (λ ts. tlv_of n ∷ ts) (iter-encode_children ns rest h.1))

iter-nil : iter [] ≡ []
iter-nil = iter-parse [] ∙ unfold parse in refl

-- The elements of the contents are the children, for children that the format can hold.
pub iter-children : (ns : Nodes) → AllEncodable ns → iter (encode_children ns []) ≡ tlvs ns
iter-children ns hs =
    rw (← append-nil (encode_children ns []))
      (iter-encode_children ns [] hs ∙ rw iter-nil (append-nil (tlvs ns)))

-- Reading a constructed node back and then its contents gives its children, for a node that the
-- format can hold with children that it can hold.
pub iter-parse-encode :
    (tag : ℕ) (children : Nodes) (rest : List ℕ)
    → IsEncodable (cons tag children)
    → AllEncodable children
    → (t : Tlv) × (parse (encode (cons tag children) ++ rest) ≡ some t)
      × (t.tag ≡ tag)
      × (iter t.value ≡ tlvs children)
unfolding tlv_of
iter-parse-encode tag children rest h hs = (
  tlv_of (cons tag children),
  parse-encode (cons tag children) rest h,
  unfold tag_of in refl,
  unfold contents in iter-children children hs,
)

pub encode_some : (n : Node) → encode n ≢ []
encode_some n e = absurd (
    omega (
      arith,
      ap length e,
      ap length (encode-parts n),
      length-append (encode_tag (tag_of n)) (encode_length (length (contents n)) ++ contents n),
      (length-encode_tag (tag_of n)).0,
    ))

pub length-encode :
    (n : Node) → length (contents n) < 2 ^ 32 → length (encode n) ≤ 7 + length (contents n)
length-encode n h = omega (
  arith,
  ap length (encode-parts n),
  length-append (encode_tag (tag_of n)) (encode_length (length (contents n)) ++ contents n),
  length-append (encode_length (length (contents n))) (contents n),
  (length-encode_tag (tag_of n)).1,
  (length-encode_length (length (contents n)) h).1,
)

-- A search finds the element that stands first.
find_first-tag :
    (n : Node) (ts : List Tlv)
    → find_first (λ t. t.tag == tag_of n) (tlv_of n ∷ ts) ≡ some (tlv_of n)
unfolding find_first tlv_of
find_first-tag n ts = ground (arith)

pub find-encode : (n : Node) → IsEncodable n → find (encode n) (tag_of n) ≡ some (tlv_of n)
unfolding find
find-encode n h =
    ap (λ b. find_first (λ t. t.tag == tag_of n) (iter b)) (sym (append-nil (encode n)))
    ∙ ap (find_first (λ t. t.tag == tag_of n)) (iter-encode n [] h)
    ∙ find_first-tag n (iter [])

pub find-child :
    (n : Node) (ns : Nodes)
    → AllEncodable (child n ns)
    → find (encode_children (child n ns) []) (tag_of n) ≡ some (tlv_of n)
unfolding find
find-child n ns h =
    ap (find_first (λ t. t.tag == tag_of n)) (iter-children (child n ns) h)
    ∙ unfold tlvs in find_first-tag n (tlvs ns)

pub integer-IsEncodable : (n : ℕ) → IsEncodable (prim 0x80 (from_u64 n))
unfolding tag_of contents
integer-IsEncodable n = omega (arith, length-from_u64 n)

-- An element that holds an INTEGER only.
pub integer_only-IsEncodable :
    (tag n : ℕ) → IsTag tag → IsEncodable (cons tag (child (prim 0x80 (from_u64 n)) nil))
integer_only-IsEncodable tag n h =
    let code = prim 0x80 (from_u64 n) in
    let small : length (contents code) ≤ 9 = unfold contents in length-from_u64 n in
    let size : length (encode code) ≤ 16 =
      omega (arith, small, length-encode code (omega (arith, small))) in
    record {
      tag = unfold tag_of in h;
      fits = unfold contents encode_children in unfold encode in omega (arith, size);
    }

-- The first child with a tag.
unfoldable pub find_node : ℕ → Nodes → Option Node
find_node tag nil = none
find_node tag (child n ns) =
    let later = find_node tag ns in if tag_of n == tag then some n else later

abbrev pub tlv_of? : Option Node → Option Tlv
tlv_of? none = none
tlv_of? (some n) = some (tlv_of n)

find_first-find_node :
    (tag : ℕ) (ns : Nodes) → find_first (λ t. t.tag == tag) (tlvs ns) ≡ tlv_of? (find_node tag ns)
unfolding find_first tlvs find_node tlv_of
find_first-find_node tag nil = refl
find_first-find_node tag (child n ns) = ground (arith, find_first-find_node tag ns)

-- A search by tag finds the first child that has it, or nothing when no child has.
pub find-find_node :
    (tag : ℕ) (ns : Nodes)
    → AllEncodable ns
    → find (encode_children ns []) tag ≡ tlv_of? (find_node tag ns)
unfolding find
find-find_node tag ns h =
    ap (find_first (λ t. t.tag == tag)) (iter-children ns h) ∙ find_first-find_node tag ns

-- The first child's bytes, and then those of the others.
pub encode_children_cons :
    (n : Node) (ns : Nodes) → encode_children (child n ns) [] ≡ encode n ++ encode_children ns []
unfolding encode_children
encode_children_cons n ns =
    encode_children-append ns (encode_into n [])
    ∙ ap (λ b. b ++ encode_children ns []) (encode_into-append n [])

-- Tag and length, as they are written.
abbrev pub head_bytes : Node → List ℕ
head_bytes n = encode_tag (tag_of n) ++ encode_length (length (contents n))

pub encode_head : (n : Node) → encode n ≡ head_bytes n ++ contents n
encode_head n =
    encode-parts n
    ∙ sym (append_assoc (encode_tag (tag_of n)) (encode_length (length (contents n))) (contents n))
