-- ===== src/Euicc/Session/Card.antt =====
-- A card that keeps to the protocol: it collects the blocks of a request, answers it by `reply`, and
-- announces two bytes at a time. It is a device for the tests of this crate.
use mu5250_open_ui.Base.{
  ℕ, suc, refl, ap, List, [], ◌∷◌, ◌++◌, none, some, drop, arith, get_elem?, ◌==◌, Bool, false,
  if◌then◌else◌,
}
use mu5250_open_ui.Base.Results.{Result, ok}
use mu5250_open_ui.Euicc.Session.{Apdu, Error}
use mu5250_open_ui.Euicc.Session.Blocks.{iso_class}
use mu5250_open_ui.Euicc.Session.Delivery.{View, IsCard, Delivers, whole, part}

pub record World : Type 0 where
  pub got : List ℕ
  pub blocks : ℕ
  pub rest : List ℕ

-- Two bytes of the rest and `6102`, or the last of them and `9000`.
unfoldable give : ℕ → List ℕ → Result Error (List ℕ) × List ℕ
give n [] = (ok (0x90 ∷ (0x00 ∷ [])), [])
give n (a ∷ []) = (ok (a ∷ (0x90 ∷ (0x00 ∷ []))), [])
give n (a ∷ (b ∷ [])) = (ok (a ∷ (b ∷ (0x90 ∷ (0x00 ∷ [])))), [])
give n (a ∷ (b ∷ (c ∷ rest))) = (ok (a ∷ (b ∷ (0x61 ∷ (0x02 ∷ [])))), c ∷ rest)

abbrev is_byte : ℕ → ℕ → List ℕ → Bool
is_byte i b apdu = elim (get_elem? apdu i) [ none ↦ false | some c ↦ c == b ]

unfoldable pub transmit : (List ℕ → List ℕ) → List ℕ → World → Result Error (List ℕ) × World
unfolding give
transmit reply apdu w =
    if is_byte 1 0xc0 apdu
    then (let (r, rest) = give 2 w.rest in
        (r, record { got = w.got; blocks = w.blocks; rest = rest }))
    else if is_byte 2 0x91 apdu
    then (
      ok (0x61 ∷ (0x02 ∷ [])),
      record { got = w.got; blocks = w.blocks; rest = reply (w.got ++ drop 5 apdu) },
    )
    else (
      ok (0x90 ∷ (0x00 ∷ [])),
      record { got = w.got ++ drop 5 apdu; blocks = suc w.blocks; rest = w.rest },
    )

abbrev pub io : (List ℕ → List ℕ) → Apdu World
io reply = record {
  open_channel = λ aid w. (ok 1, w);
  close_channel = λ c w. w;
  transmit = transmit reply;
}

abbrev pub view : (reply : List ℕ → List ℕ) → View (io reply) 1 reply
view reply = record {
  got = λ w. w.got;
  blocks = λ w. w.blocks;
  rest = λ w. w.rest;
  announced = λ w. 2;
}

fetch-Delivers :
    (reply : List ℕ → List ℕ) (g : List ℕ) (n : ℕ) (rest : List ℕ)
    → Delivers (io reply) 1 reply (view reply) 1 rest (
        transmit reply
          (0x81 ∷ (0xc0 ∷ (0x00 ∷ (0x00 ∷ (0x02 ∷ [])))))
          (record { got = g; blocks = n; rest = rest }))
unfolding transmit
fetch-Delivers reply g n [] = whole refl
fetch-Delivers reply g n (a ∷ []) = whole refl
fetch-Delivers reply g n (a ∷ (b ∷ [])) = whole refl
fetch-Delivers reply g n (a ∷ (b ∷ (c ∷ rest))) = part (a ∷ (b ∷ [])) 2 refl (omega arith) refl refl

pub card : (reply : List ℕ → List ℕ) → IsCard (io reply) 1 reply (view reply)
unfolding transmit iso_class
card reply = record {
  keeps = λ seq block w at small. (refl, refl, ap suc at);
  answers = λ seq block w at small. part [] 2 refl (omega arith) refl refl;
  fetches = λ w. fetch-Delivers reply w.got w.blocks w.rest;
}

abbrev pub fresh : World
fresh = record { got = []; blocks = 0; rest = [] }
