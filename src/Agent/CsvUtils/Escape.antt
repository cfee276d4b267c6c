-- ===== src/Agent/CsvUtils/Escape.antt =====
-- A field as it is read from lines that end with a line feed, as those do that the agent writes.
use mu5250_open_ui.Base.{
  ℕ, ◌≡◌, ◌⊎◌, inl, inr, refl, sym, ap, ◌∙◌, Bool, true, false, ◌||◌, Bool-cases, List, [], ◌∷◌,
  ◌++◌, append_assoc, ◌==◌, ==_iff, if◌then◌else◌,
}
use mu5250_open_ui.Agent.CsvUtils.{contains, doubled, csv_escape}

abbrev push : ℕ → List ℕ × List ℕ → List ℕ × List ℕ
push c (field, rest) = (c ∷ field, rest)

-- Inside quotes, to the quote that no quote follows.
unfoldable pub quoted : List ℕ → List ℕ × List ℕ
quoted [] = ([], [])
quoted (c ∷ []) = if c == 34 then ([], []) else (c ∷ [], [])
quoted (c ∷ (d ∷ rest)) =
    let two = quoted rest in
    let one = quoted (d ∷ rest) in
    if c == 34 then (if d == 34 then push 34 two else ([], d ∷ rest)) else push c one

-- Outside quotes, to the next comma or line feed.
unfoldable pub plain : List ℕ → List ℕ × List ℕ
plain [] = ([], [])
plain (c ∷ rest) =
    let later = plain rest in if c == b',' || c == 10 then ([], c ∷ rest) else push c later

unfoldable pub read_field : List ℕ → List ℕ × List ℕ
read_field [] = ([], [])
read_field (c ∷ rest) = if c == 34 then quoted rest else plain (c ∷ rest)

neither : (a b : Bool) → (a || b) ≡ false → (a ≡ false) × (b ≡ false)
neither true b h = cc
neither false b h = (refl, h)

quoted_other :
    (c : ℕ) (rest : List ℕ) → (c == 34) ≡ false → quoted (c ∷ rest) ≡ push c (quoted rest)
unfolding quoted
quoted_other c [] e = rw e refl
quoted_other c (d ∷ rest) e = rw e refl

quoted_pair : (rest : List ℕ) → quoted (34 ∷ (34 ∷ rest)) ≡ push 34 (quoted rest)
unfolding quoted
quoted_pair rest = refl

quoted-doubled :
    (s : List ℕ) (c : ℕ) (rest : List ℕ)
    → (c == 34) ≡ false
    → quoted (doubled s ++ (34 ∷ (c ∷ rest))) ≡ (s, c ∷ rest)
unfolding doubled
quoted-doubled [] c rest e = unfold quoted in rw e refl
quoted-doubled (x ∷ s) c rest e = elim (Bool-cases (x == 34)) [
  | inl q ↦ rw q (
      quoted_pair (doubled s ++ (34 ∷ (c ∷ rest)))
      ∙ ap (push 34) (quoted-doubled s c rest e)
      ∙ ap (λ y. (y ∷ s, c ∷ rest)) (sym ((==_iff x 34).0 q)))
  | inr o ↦
      rw o (
        quoted_other x (doubled s ++ (34 ∷ (c ∷ rest))) o ∙ ap (push x) (quoted-doubled s c rest e))
]

plain_stop :
    (s : List ℕ) (c : ℕ) (rest : List ℕ)
    → contains b',' s ≡ false
    → contains 10 s ≡ false
    → (c == b',' || c == 10) ≡ true
    → plain (s ++ (c ∷ rest)) ≡ (s, c ∷ rest)
unfolding plain contains
plain_stop [] c rest h k e = rw e refl
plain_stop (x ∷ s) c rest h k e =
    let (x1, h') = neither (x == b',') (contains b',' s) h in
    let (x2, k') = neither (x == 10) (contains 10 s) k in
    rw (x1, x2) (ap (push x) (plain_stop s c rest h' k' e))

no_quote : (c : ℕ) → (c ≡ b',') ⊎ (c ≡ 10) → (c == 34) ≡ false
no_quote c (inl e) = rw e refl
no_quote c (inr e) = rw e refl

ends : (c : ℕ) → (c ≡ b',') ⊎ (c ≡ 10) → (c == b',' || c == 10) ≡ true
ends c (inl e) = rw e refl
ends c (inr e) = rw e refl

read_plain :
    (s : List ℕ) (c : ℕ) (rest : List ℕ)
    → (c ≡ b',') ⊎ (c ≡ 10)
    → (contains b',' s || contains 34 s || contains 10 s) ≡ false
    → read_field (s ++ (c ∷ rest)) ≡ (s, c ∷ rest)
unfolding read_field
read_plain [] c rest end h =
    rw (no_quote c end)
      (plain_stop [] c rest (unfold contains in refl) (unfold contains in refl) (ends c end))
read_plain (x ∷ s) c rest end h =
    let (others, line) =
      neither (contains b',' (x ∷ s) || contains 34 (x ∷ s)) (contains 10 (x ∷ s)) h in
    let (comma, quote) = neither (contains b',' (x ∷ s)) (contains 34 (x ∷ s)) others in
    let first : (x == 34) ≡ false =
      (neither (x == 34) (contains 34 s) (unfold contains in quote)).0 in
    rw first (plain_stop (x ∷ s) c rest comma line (ends c end))

-- A reader that ends a field without quotes at a comma or a line feed, and only there, reads a field back
-- as it was before it was escaped, up to the comma or line feed behind it. To a reader that also ends lines
-- at a carriage return this does not apply, since such a character alone is not quoted.
pub read_field-csv_escape :
    (s : List ℕ) (c : ℕ) (rest : List ℕ)
    → (c ≡ b',') ⊎ (c ≡ 10)
    → read_field (csv_escape s ++ (c ∷ rest)) ≡ (s, c ∷ rest)
unfolding csv_escape
read_field-csv_escape s c rest end =
    elim (Bool-cases (contains b',' s || contains 34 s || contains 10 s)) [
      | inl special ↦ rw special (
          unfold read_field in
          ap quoted (append_assoc (doubled s) (34 ∷ []) (c ∷ rest))
          ∙ quoted-doubled s c rest (no_quote c end))
      | inr usual ↦ rw usual (read_plain s c rest end usual)
    ]
