-- ===== src/Base/Utf8.antt =====
-- `String::from_utf8_lossy`: each longest invalid piece of a byte sequence becomes U+FFFD.
use mu5250_open_ui.Base.Tests.{ltb, leb, ◌==◌, if◌then◌else◌}
use mu5250_open_ui.Base.Lists.{All}
use Prim.Native.Nat.{ℕ, ◌+◌, ◌-◌, ◌/◌, ◌%◌, ◌<◌}
use mathlib.Core.Path.{◌≡◌, refl, ap}
use native.Mathlib.Omega.{arith}
use mathlib.Core.Bool.{Bool, ◌&&◌, ◌||◌}
use mathlib.Core.Option.{Option, some}
use mathlib.Core.List.{List, [], ◌∷◌, ◌++◌}

-- A character that has begun: its bytes so far, and for each byte to come the range that it has.
pub data Pending : Type 0 where
  none : Pending
  begun : List ℕ → ℕ → ℕ → ℕ → Pending

abbrev pub between : ℕ → ℕ → ℕ → Bool
between lo hi b = leb lo b && leb b hi

abbrev pub replacement : List ℕ
replacement = 0xef ∷ (0xbf ∷ (0xbd ∷ []))

-- What a first byte writes, and what it leaves pending: the number of bytes to come and the range
-- of the next one.
unfoldable pub first_byte : ℕ → List ℕ × Pending
first_byte b =
    if leb b 0x7f
    then (b ∷ [], none)
    else if between 0xc2 0xdf b
    then ([], begun (b ∷ []) 1 0x80 0xbf)
    else if b == 0xe0
    then ([], begun (b ∷ []) 2 0xa0 0xbf)
    else if b == 0xed
    then ([], begun (b ∷ []) 2 0x80 0x9f)
    else if between 0xe1 0xef b
    then ([], begun (b ∷ []) 2 0x80 0xbf)
    else if b == 0xf0
    then ([], begun (b ∷ []) 3 0x90 0xbf)
    else if between 0xf1 0xf3 b
    then ([], begun (b ∷ []) 3 0x80 0xbf)
    else if b == 0xf4
    then ([], begun (b ∷ []) 3 0x80 0x8f)
    else (replacement, none)

unfoldable pub next_byte : Pending → ℕ → List ℕ × Pending
unfolding first_byte
next_byte none b = first_byte b
next_byte (begun bytes left lo hi) b =
    if between lo hi b
    then (if left == 1
        then (bytes ++ b ∷ [], none)
        else ([], begun (bytes ++ b ∷ []) (left - 1) 0x80 0xbf))
    else (replacement ++ (first_byte b).0, (first_byte b).1)

unfoldable pub lossy_from : Pending → List ℕ → List ℕ
unfolding next_byte
lossy_from none [] = []
lossy_from (begun bytes left lo hi) [] = replacement
lossy_from p (b ∷ bs) = (next_byte p b).0 ++ lossy_from (next_byte p b).1 bs

unfoldable pub from_utf8_lossy : List ℕ → List ℕ
unfolding lossy_from
from_utf8_lossy bytes = lossy_from none bytes

abbrev pub IsAscii : ℕ → Type 0
IsAscii c = c < 128

next_byte-ascii : (c : ℕ) → c < 128 → next_byte none c ≡ (c ∷ [], none)
unfolding next_byte first_byte
next_byte-ascii c h = ground (arith, h)

-- A text of ASCII characters is left as it is.
pub from_utf8_lossy-ascii : (s : List ℕ) → All IsAscii s → from_utf8_lossy s ≡ s
unfolding from_utf8_lossy
from_utf8_lossy-ascii [] h = unfold lossy_from in refl
from_utf8_lossy-ascii (c ∷ s) h =
    unfold lossy_from in rw (next_byte-ascii c h.0) (ap (λ t. c ∷ t) (from_utf8_lossy-ascii s h.1))

-- A character of two bytes that is cut after its first one.
pub from_utf8_lossy-cut :
    (s : List ℕ) → All IsAscii s → from_utf8_lossy (s ++ (0xc3 ∷ [])) ≡ s ++ replacement
unfolding from_utf8_lossy
from_utf8_lossy-cut [] h = unfold lossy_from next_byte first_byte in refl
from_utf8_lossy-cut (c ∷ s) h =
    unfold lossy_from in rw (next_byte-ascii c h.0) (ap (λ t. c ∷ t) (from_utf8_lossy-cut s h.1))

-- `char::from_u32` and `char::encode_utf8`, of Rust's standard library.
unfoldable pub from_u32 : ℕ → Option ℕ
from_u32 c = if (leb 0xd800 c && leb c 0xdfff) || leb 0x110000 c then Option.none else some c

unfoldable pub encode_utf8 : ℕ → List ℕ
encode_utf8 c =
    if ltb c 0x80
    then c ∷ []
    else if ltb c 0x800
    then (0xc0 + c / 64) ∷ ((0x80 + c % 64) ∷ [])
    else if ltb c 0x10000
    then (0xe0 + c / 4096) ∷ ((0x80 + c / 64 % 64) ∷ ((0x80 + c % 64) ∷ []))
    else (0xf0 + c / 262144)
      ∷ ((0x80 + c / 4096 % 64) ∷ ((0x80 + c / 64 % 64) ∷ ((0x80 + c % 64) ∷ [])))
