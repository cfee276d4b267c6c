-- ===== src/Euicc/Download/Segments.antt =====
-- The segments in which a package from the operator's server goes to the card.
use mu5250_open_ui.Base.{
  ℕ, ◌+◌, ◌-◌, Option, none, some, List, [], ◌∷◌, ◌++◌, map, length, take, leb, ◌==◌, if◌then◌else◌,
}
use mu5250_open_ui.Base.Results.{Result, ok, err, and_then}
use mu5250_open_ui.Euicc.Der.{Tlv, find, iter}
use mu5250_open_ui.Euicc.Session.{Error, argument, ok_or}

-- The loop over the elements, at offset `offset`.
unfoldable pub offset_loop : ℕ → ℕ → List Tlv → Option (ℕ × Tlv)
offset_loop tag offset [] = none
offset_loop tag offset (t ∷ ts) =
    let later = offset_loop tag (offset + length t.raw) ts in
    if t.tag == tag then some (offset, t) else later

unfoldable pub find_with_offset : List ℕ → ℕ → Option (ℕ × Tlv)
unfolding offset_loop
find_with_offset buf tag = offset_loop tag 0 (iter buf)

-- Tag and length of an element.
unfoldable pub header : Tlv → List ℕ
header t = take (length t.raw - length t.value) t.raw

-- `bytes.get(..n)`
abbrev pub get_first : ℕ → List ℕ → Option (List ℕ)
get_first n bytes = if leb n (length bytes) then some (take n bytes) else none

abbrev pub Segment : Type 0
Segment = Result Error (List ℕ)

-- An element's header, and then each of its elements.
abbrev pub opened : Tlv → List Segment
opened t = ok (header t) ∷ map (λ c. ok c.raw) (iter t.value)

-- From the last part on.
unfoldable pub plan_86 : List ℕ → List Segment
plan_86 parts = elim (find parts 0xa3) [
  | none ↦ err (argument "no sequenceOf86") ∷ []
  | some seq86 ↦ opened seq86
]

unfoldable pub plan_88 : List ℕ → List Segment
unfolding plan_86
plan_88 parts = elim (find parts 0xa1) [
  | none ↦ err (argument "no sequenceOf88") ∷ []
  | some seq88 ↦ opened seq88 ++ (elim (find parts 0xa2) [
    | none ↦ plan_86 parts
    | some second87 ↦ ok second87.raw ∷ plan_86 parts
  ])
]

unfoldable pub plan_87 : List ℕ → List Segment
unfolding plan_88
plan_87 parts = elim (find parts 0xa0) [
  | none ↦ err (argument "no firstSequenceOf87") ∷ []
  | some first87 ↦ ok first87.raw ∷ plan_88 parts
]

-- The segments, with the first element at its offset: the first segment ends where this element ends.
unfoldable pub plan_from : Tlv → ℕ × Tlv → List Segment
plan_from pack (offset, init) =
    let first_len = length (header pack) + offset + length init.raw in
    ok_or (argument "BoundProfilePackage") (get_first first_len pack.raw) ∷ plan_87 pack.value

unfoldable pub bpp_segments : List ℕ → Result Error (List Segment)
bpp_segments bpp = and_then (ok_or (argument "no BoundProfilePackage") (find bpp 0xbf36)) λ pack.
    and_then
      (ok_or (argument "no InitialiseSecureChannelRequest") (find_with_offset pack.value 0xbf23))
      (λ found. ok (plan_from pack found))
