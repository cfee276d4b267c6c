-- ===== src/Euicc/Es10c/Listing.antt =====
-- The profile list over a session with a card that keeps to the protocol.
use mu5250_open_ui.Base.{ℕ, ◌+◌, ◌≤◌, ◌<◌, ◌≡◌, refl, ap, ◌∙◌, List, [], map, All, length}
use mu5250_open_ui.Euicc.Der.{prim, cons, encode, tag_of}
use mu5250_open_ui.Euicc.Der.RoundTrip.{IsEncodable, AllEncodable, contents}
use mu5250_open_ui.Euicc.Session.{Apdu, done, lift, request}
use mu5250_open_ui.Euicc.Session.Blocks.{>>=-done}
use mu5250_open_ui.Euicc.Session.Answers.{request-answer}
use mu5250_open_ui.Euicc.Session.Delivery.{View, IsCard}
use mu5250_open_ui.Euicc.Es10c.{profiles}
use mu5250_open_ui.Euicc.Es10c.RoundTrip.{
  Profile, IsProfile, entries, answer, info_of, parse_profiles-answer,
}

-- With a card that keeps to the protocol and answers the request for its profile list with the profiles
-- `ps`, the call lists them, on a channel below 20: for ICCIDs of 1 to 20 digits, ASCII texts, and
-- elements that the format can hold. The fuel is at least two more than the length of the card's answer.
pub profiles-answer :
    {W : Type 0} (io : Apdu W) (channel fuel : ℕ) (reply : List ℕ → List ℕ)
    (v : View io channel reply)
    → IsCard io channel reply v
    → channel < 20
    → (b64_encode : List ℕ → List ℕ) (ps : List Profile) (w : W)
    → reply (encode (prim 0xbf2d [])) ≡ encode (cons 0xbf2d (answer ps))
    → All IsProfile ps
    → AllEncodable (entries ps)
    → AllEncodable (answer ps)
    → IsEncodable (cons 0xbf2d (answer ps))
    → v.got w ≡ []
    → v.blocks w ≡ 0
    → length (reply (encode (prim 0xbf2d []))) + 2 ≤ fuel
    → (w' : W) × (profiles b64_encode io channel fuel w ≡ done (map info_of ps) w')
unfolding profiles contents
profiles-answer io channel fuel reply v card low b64_encode ps w e h es whole fits empty first
      enough =
    let req = prim 0xbf2d [] in
    let (w', q) =
      request-answer io channel reply v card low fuel req (cons 0xbf2d (answer ps)) w e
        (unfold tag_of in refl) fits empty first enough in
    (
      w',
      >>=-done (request io channel fuel req) _ w w' q
          ∙ ap (λ r. lift r w') (parse_profiles-answer b64_encode ps h es whole),
    )
