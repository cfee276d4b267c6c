-- ===== src/Euicc/Session/Answers.antt =====
-- Requests over a session with a card that keeps to the protocol.
use mu5250_open_ui.Base.{ℕ, ◌+◌, ◌^◌, ◌≤◌, ◌<◌, ◌≡◌, refl, sym, ap, ◌∙◌, List, [], some, length}
use mu5250_open_ui.Euicc.Der.{
  Node, prim, cons, nil, child, encode, encode_children, tag_of, find, from_u64,
}
use mu5250_open_ui.Euicc.Der.Header.{IsTag}
use mu5250_open_ui.Euicc.Der.Integers.{to_u64-from_u64}
use mu5250_open_ui.Euicc.Der.RoundTrip.{
  IsEncodable, contents, tlv_of, encode_some, integer-IsEncodable, integer_only-IsEncodable,
  find-encode, find-child,
}
use mu5250_open_ui.Euicc.Session.{request, result_code, Apdu, done, command}
use mu5250_open_ui.Euicc.Session.Blocks.{>>=-done, found_then}
use mu5250_open_ui.Euicc.Session.Delivery.{View, IsCard, command-answer}

module _ {W : Type 0} (io : Apdu W) (channel : ℕ) (answer : List ℕ → List ℕ)
    (v : View io channel answer) (card : IsCard io channel answer v) (in_range : channel < 20) where
  -- For such a card, a request gets the contents of the element that the card answers with, when this has
  -- the tag of the request and is one that the format can hold.
  pub request-answer :
      (fuel : ℕ) (req reply : Node) (w : W)
      → answer (encode req) ≡ encode reply
      → tag_of reply ≡ tag_of req
      → IsEncodable reply
      → v.got w ≡ []
      → v.blocks w ≡ 0
      → length (answer (encode req)) + 2 ≤ fuel
      → (w' : W) × (request io channel fuel req w ≡ done (contents reply) w')
  unfolding request
  request-answer fuel req reply w e same fits empty first h =
      let (w', q) =
        command-answer io channel answer v card in_range fuel (encode req) w (encode_some req) empty
          first h in
      let found : find (answer (encode req)) (tag_of req) ≡ some (tlv_of reply) =
        ap (λ b. find b (tag_of req)) e
        ∙ ap (find (encode reply)) (sym same)
        ∙ find-encode reply fits in
      (
        w',
        >>=-done (command io channel fuel (encode req)) _ w w' q
            ∙ found_then (find (answer (encode req)) (tag_of req)) _ _ w' found
            ∙ unfold tlv_of in refl,
      )

  -- For such a card that answers with a number, the result code is that number.
  pub result_code-answer :
      (fuel n : ℕ) (req : Node) (w : W)
      → answer (encode req) ≡ encode (cons (tag_of req) (child (prim 0x80 (from_u64 n)) nil))
      → IsTag (tag_of req)
      → n < 2 ^ 64
      → v.got w ≡ []
      → v.blocks w ≡ 0
      → length (answer (encode req)) + 2 ≤ fuel
      → (w' : W) × (result_code io channel fuel req w ≡ done n w')
  unfolding result_code contents tlv_of
  result_code-answer fuel n req w e tag small empty first h =
      let code = prim 0x80 (from_u64 n) in
      let code-IsEncodable : IsEncodable code = integer-IsEncodable n in
      let (w', q) =
        request-answer fuel req (cons (tag_of req) (child code nil)) w e (unfold tag_of in refl)
          (integer_only-IsEncodable (tag_of req) n tag) empty first h in
      let found : find (encode_children (child code nil) []) 0x80 ≡ some (tlv_of code) =
        unfold tag_of in find-child code nil (code-IsEncodable, tt) in
      (
        w',
        >>=-done (request io channel fuel req) _ w w' q
            ∙ found_then (find (encode_children (child code nil) []) 0x80) _ _ w' found
            ∙ ap (λ m. done m w') (to_u64-from_u64 n small),
      )
