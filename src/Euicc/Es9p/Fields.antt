-- ===== src/Euicc/Es9p/Fields.antt =====
-- The sizes of the fields of a status.
use mu5250_open_ui.Base.{
  ℕ, suc, ◌+◌, ◌<◌, ◌≡◌, refl, ap, some, List, [], ◌∷◌, ◌++◌, length, take, All, length-append,
  arith,
}
use mu5250_open_ui.Base.Texts.{codes}
use mu5250_open_ui.Base.Utf8.{IsAscii, from_utf8_lossy-cut, replacement}
use mu5250_open_ui.Euicc.Es9p.Json.{Json, str, c_bytes, get}
use mu5250_open_ui.Euicc.Es9p.Status.{Status, apply, into_error, field, text, code_len}

abbrev pub IsText : ℕ → Type 0
IsText b = (0 < b) × (b < 128)

c_bytes-append : (s t : List ℕ) → All IsText s → c_bytes (s ++ t) ≡ s ++ c_bytes t
unfolding c_bytes
c_bytes-append [] t h = refl
c_bytes-append (b ∷ s) t h = ground (arith, h.0.0, c_bytes-append s t h.1)

IsText-IsAscii : (s : List ℕ) → All IsText s → All IsAscii s
IsText-IsAscii [] h = tt
IsText-IsAscii (b ∷ s) h = (h.0.1, IsText-IsAscii s h.1)

-- A text of one byte less than the field holds, and `é` behind it, cut in the middle of that character.
take_cut : (s : List ℕ) (t : List ℕ) → take (suc (length s)) (s ++ (0xc3 ∷ t)) ≡ s ++ (0xc3 ∷ [])
take_cut [] t = refl
take_cut (b ∷ s) t = ap (λ r. b ∷ r) (take_cut s t)

field_cut :
    (s : List ℕ) (cap : ℕ)
    → All IsText s
    → suc (length s) ≡ cap
    → length (text (field (s ++ (0xc3 ∷ (0xa9 ∷ []))) cap)) ≡ cap + 2
unfolding field text c_bytes
field_cut s cap h e = rw (c_bytes-append s (0xc3 ∷ (0xa9 ∷ [])) h) (
    rw (← e) (
      rw (take_cut s (0xa9 ∷ [])) (
        rw (from_utf8_lossy-cut s (IsText-IsAscii s h))
          (rw (length-append s replacement) (omega arith)))))

-- A subject code of the server that has seven ASCII characters and `é` is cut after the first byte of
-- `é`, and the status then has a code of ten bytes, above the eight that a code is said to have at most.
pub subject_code_exceeds :
    (st : Status) (reported : Json) (s : List ℕ)
    → All IsText s
    → length s ≡ 7
    → get (codes "subjectCode") reported ≡ some (str (s ++ (0xc3 ∷ (0xa9 ∷ []))))
    → length (into_error (apply st reported)).subject_code ≡ 10
unfolding apply into_error
subject_code_exceeds st reported s h e g = rw g (field_cut s code_len h (omega arith))
