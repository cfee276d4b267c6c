-- ===== src/Euicc/Session.antt =====
-- euicc/src/lib.rs: an open session with the ISD-R of an eUICC, over the trait `Apdu`.
-- A call takes the world `W` behind the trait and returns it with what it gives. The loop that follows
-- `61xx` ends only when the card ends it: it has fuel, and `unfinished` means that the fuel ran out.
pub mod Blocks
pub mod Delivery
pub mod Answers
pub mod Card
mod Tests
use mu5250_open_ui.Base.{
  ℕ, zero, suc, ◌+◌, ◌-◌, ◌*◌, ◌/◌, ◌%◌, Bool, true, false, Option, none, some, List, [], ◌∷◌, ◌++◌,
  String, length, take, drop, bit_and, bit_or, leb, ◌==◌, if◌then◌else◌,
}
use mu5250_open_ui.Base.Results.{Result, ok, err}
use mu5250_open_ui.Euicc.Der.{Tlv, Node, find, to_u64, encode, tag_of}

-- Largest ES10 STORE DATA block.
abbrev pub mss : ℕ
mss = 120

pub data Error : Type 0 where
  transport : List ℕ → Error
  status : ℕ → ℕ → Error
  malformed argument : String → Error

abbrev pub isd_r_aid : List ℕ
isd_r_aid =
    0xa0 ∷ 0x00 ∷ 0x00 ∷ 0x05 ∷ 0x59 ∷ 0x10 ∷ 0x10 ∷ 0xff ∷ 0xff ∷ 0xff ∷ 0xff ∷ 0x89 ∷ 0x00 ∷ 0x00
    ∷ 0x01 ∷ 0x00 ∷ []

-- The trait `Apdu`.
pub record Apdu (W : Type 0) : Type 0 where
  pub open_channel : List ℕ → W → Result Error ℕ × W
  pub close_channel : ℕ → W → W
  pub transmit : List ℕ → W → Result Error (List ℕ) × W

-- What a call of the session leaves.
pub data Outcome (W A : Type 0) : Type 0 where
  done : A → W → Outcome W A
  failed : Error → W → Outcome W A
  unfinished : Outcome W A

infixl 5 ◌>>=◌
abbrev pub ◌>>=◌ : {W A B : Type 0} → (W → Outcome W A) → (A → W → Outcome W B) → W → Outcome W B
◌>>=◌ m f w = elim (m w) [
  | done a w' ↦ f a w'
  | failed e w' ↦ failed e w'
  | unfinished ↦ unfinished
]

abbrev pub lift : {W A : Type 0} → Result Error A → W → Outcome W A
lift (ok a) w = done a w
lift (err e) w = failed e w

abbrev pub ok_or : {A : Type 0} → Error → Option A → Result Error A
ok_or e none = err e
ok_or e (some a) = ok a

-- `Euicc::class`, for the channel of the session.
unfoldable pub class : ℕ → ℕ → ℕ
class channel base =
    if leb channel 3
    then bit_or (bit_and base 0xfc) channel
    else bit_or (bit_or (bit_and base 0xb0) 0x40) (bit_and (channel - 4) 0x0f)

-- `rx.pop()` twice: the data, SW1 and SW2, if there are two bytes.
unfoldable pub split_status : List ℕ → Option (List ℕ × ℕ × ℕ)
split_status [] = none
split_status (a ∷ []) = none
split_status (a ∷ (b ∷ [])) = some ([], a, b)
split_status (a ∷ (b ∷ (c ∷ rx))) = elim (split_status (b ∷ (c ∷ rx))) [
  | none ↦ none
  | some (bytes, sw1, sw2) ↦ some (a ∷ bytes, sw1, sw2)
]

-- `der.chunks(MSS)`: each block takes a byte at least, so their number is at most that of the bytes.
unfoldable pub chunk_loop : ℕ → List ℕ → List (List ℕ)
chunk_loop zero bytes = []
chunk_loop (suc fuel) [] = []
chunk_loop (suc fuel) (b ∷ bytes) = take mss (b ∷ bytes) ∷ chunk_loop fuel (drop mss (b ∷ bytes))

unfoldable pub chunks : List ℕ → List (List ℕ)
chunks bytes = chunk_loop (length bytes) bytes

abbrev pub get_response : ℕ → ℕ → List ℕ
get_response channel le = class channel 0x80 ∷ (0xc0 ∷ (0x00 ∷ (0x00 ∷ (le ∷ []))))

-- One block of a command, which is the last one or not.
abbrev pub store_data : ℕ → Bool → ℕ → List ℕ → List ℕ
store_data channel last seq block =
    class channel 0x80
    ∷ (0xe2 ∷ ((if last then 0x91 else 0x11) ∷ (bit_and seq 0xff ∷ (length block % 256 ∷ block))))

abbrev pub is_last : List (List ℕ) → Bool
is_last [] = true
is_last (b ∷ bs) = false

module _ {W : Type 0} (io : Apdu W) (channel : ℕ) where
  -- The loop of `transmit_collect`: the response data so far is `out`.
  unfoldable pub collect : ℕ → List ℕ → List ℕ → W → Outcome W (List ℕ)
  collect zero apdu out w = unfinished
  collect (suc fuel) apdu out w =
      let (r, w') = io.transmit apdu w in
      elim r [
        | err e ↦ failed e w'
        | ok rx ↦ elim (split_status rx) [
          | none ↦ failed (malformed "response shorter than a status word") w'
          | some (bytes, sw1, sw2) ↦
              let more = collect fuel (get_response channel sw2) (out ++ bytes) w' in
              if sw1 == 0x61
              then more
              else if bit_and sw1 0xf0 == 0x90
              then done (out ++ bytes) w'
              else failed (status sw1 sw2) w'
        ]
      ]

  -- The loop of `command` from block `seq` on.
  unfoldable pub send_blocks : ℕ → ℕ → List (List ℕ) → List ℕ → W → Outcome W (List ℕ)
  send_blocks fuel seq [] out w = done out w
  send_blocks fuel seq (block ∷ blocks) out w =
      elim (collect fuel (store_data channel (is_last blocks) seq block) out w) [
        | done out' w' ↦ send_blocks fuel (suc seq) blocks out' w'
        | failed e w' ↦ failed e w'
        | unfinished ↦ unfinished
      ]

  unfoldable pub command : ℕ → List ℕ → W → Outcome W (List ℕ)
  command fuel der w = send_blocks fuel 0 (chunks der) [] w

  -- The contents of the response element with the request's tag.
  unfoldable pub request : ℕ → Node → W → Outcome W (List ℕ)
  request fuel req = do
    resp ← command fuel (encode req)
    t ← lift (ok_or (malformed "response tag differs from the request") (find resp (tag_of req)))
    done t.value

  unfoldable pub result_code : ℕ → Node → W → Outcome W ℕ
  result_code fuel req = do
    body ← request fuel req
    t ← lift (ok_or (malformed "no result code") (find body 0x80))
    done (to_u64 t.value)

-- `Euicc::open` gives the channel of the session, and dropping the session closes it.
unfoldable pub open_session : {W : Type 0} → Apdu W → W → Result Error ℕ × W
open_session io w = io.open_channel isd_r_aid w

unfoldable pub drop_session : {W : Type 0} → Apdu W → ℕ → W → W
drop_session io channel w = io.close_channel channel w
