-- ===== src/Euicc/Session/Blocks.antt =====
-- The blocks of a command, and the status words behind a response.
use mu5250_open_ui.Base.{
  ℕ, zero, suc, ◌+◌, ◌-◌, ◌≤◌, ◌<◌, ◌≡◌, refl, ap, ◌∙◌, List, [], ◌∷◌, ◌++◌, Option, some, length,
  take, drop, arith, All, length-drop, length-take, take-append-drop, if◌then◌else◌, leb,
}
use mu5250_open_ui.Base.Bits.{holds_below, agree_below}
use mu5250_open_ui.Euicc.Der.{Tlv}
use mu5250_open_ui.Euicc.Session.{
  Error, Outcome, done, failed, unfinished, ◌>>=◌, lift, ok_or, mss, chunks, chunk_loop,
  split_status, class,
}

unfoldable pub concat : List (List ℕ) → List ℕ
concat [] = []
concat (b ∷ bs) = b ++ concat bs

-- A block that a command may carry.
abbrev pub IsBlock : List ℕ → Type 0
IsBlock b = (1 ≤ length b) × (length b ≤ 120)

drop_shorter : (n : ℕ) (b : ℕ) (bytes : List ℕ) → length (drop (suc n) (b ∷ bytes)) ≤ length bytes
drop_shorter n b bytes = omega (arith, length-drop n bytes)

concat-chunk_loop :
    (fuel : ℕ) (bytes : List ℕ) → length bytes ≤ fuel → concat (chunk_loop fuel bytes) ≡ bytes
unfolding concat chunk_loop
concat-chunk_loop zero [] h = refl
concat-chunk_loop zero (b ∷ bytes) h = absurd (omega arith)
concat-chunk_loop (suc fuel) [] h = refl
concat-chunk_loop (suc fuel) (b ∷ bytes) h =
    ap (λ t. take mss (b ∷ bytes) ++ t)
      (concat-chunk_loop fuel (drop mss (b ∷ bytes)) (omega (arith, drop_shorter 119 b bytes)))
    ∙ take-append-drop mss (b ∷ bytes)

pub concat-chunks : (bytes : List ℕ) → concat (chunks bytes) ≡ bytes
unfolding chunks
concat-chunks bytes = concat-chunk_loop (length bytes) bytes (omega arith)

chunk_loop-IsBlock : (fuel : ℕ) (bytes : List ℕ) → All IsBlock (chunk_loop fuel bytes)
unfolding chunk_loop
chunk_loop-IsBlock zero bytes = tt
chunk_loop-IsBlock (suc fuel) [] = tt
chunk_loop-IsBlock (suc fuel) (b ∷ bytes) = (
  (omega (arith, length-take mss (b ∷ bytes)), omega (arith, length-take mss (b ∷ bytes))),
  chunk_loop-IsBlock fuel (drop mss (b ∷ bytes)),
)

pub chunks-IsBlock : (bytes : List ℕ) → All IsBlock (chunks bytes)
unfolding chunks
chunks-IsBlock bytes = chunk_loop-IsBlock (length bytes) bytes

pub split_status-append :
    (bytes : List ℕ) (a b : ℕ) → split_status (bytes ++ (a ∷ (b ∷ []))) ≡ some (bytes, a, b)
unfolding split_status
split_status-append [] a b = refl
split_status-append (x ∷ []) a b = refl
split_status-append (x ∷ (y ∷ [])) a b = refl
split_status-append (x ∷ (y ∷ (z ∷ zs))) a b =
    ground (arith, split_status-append (y ∷ (z ∷ zs)) a b)

-- The class byte of ISO 7816-4 for a channel: 0 to 3, or 4 to 19 in the further range.
unfoldable pub iso_class : ℕ → ℕ
iso_class channel = if leb channel 3 then 0x80 + channel else 0xc0 + (channel - 4)

pub class-iso_class : (channel : ℕ) → channel < 20 → class channel 0x80 ≡ iso_class channel
unfolding class iso_class holds_below
class-iso_class = agree_below 20 (λ c. class c 0x80) iso_class refl

-- A call goes on behind one that is done.
pub >>=-done :
    {W A B : Type 0} (m : W → Outcome W A) (f : A → W → Outcome W B) {a : A} (w w' : W)
    → m w ≡ done a w'
    → (m >>= f) w ≡ f a w'
>>=-done m f w w' e =
    ap (λ o. elim o [ done b v ↦ f b v | failed x v ↦ failed x v | unfinished ↦ unfinished ]) e

-- A call goes on behind a search that finds.
pub found_then :
    {W B : Type 0} (o : Option Tlv) (e : Error) (f : Tlv → W → Outcome W B) {t : Tlv} (w : W)
    → o ≡ some t
    → (lift (ok_or e o) >>= f) w ≡ f t w
found_then o e f w h = rw h refl

-- The blocks of a command have 1 to 120 bytes each, and joined they are the command's bytes.
pub chunks-bounded : (bytes : List ℕ) → All IsBlock (chunks bytes) × (concat (chunks bytes) ≡ bytes)
chunks-bounded bytes = (chunks-IsBlock bytes, concat-chunks bytes)
