-- ===== src/Helper/Download/ActivationCode/Accepted.antt =====
-- Which activation codes are accepted, and what is read from them.
use mu5250_open_ui.Base.{
  ℕ, ◌≤◌, ◌<◌, ◌≡◌, ◌↔◌, ◌⊎◌, refl, sym, ap, ◌∙◌, Bool, true, false, not, ◌||◌, List, [], ◌∷◌,
  length, All, arith, map, get_elem?, some, ◌&&◌, ◌==◌, ltb, le→ltb_false, ltb_false→le,
  if◌then◌else◌,
}
use mu5250_open_ui.Base.Results.{Result, ok, err}
use mathlib.Core.Path.{subst}
use mu5250_open_ui.Base.Strings.{str_eq_iff}
use mu5250_open_ui.Base.Texts.{codes}
use mu5250_open_ui.Base.Split.{split, join, IsSplit, split-IsSplit, join-split, split-join}
use mu5250_open_ui.Helper.Address.{valid_address}
use mu5250_open_ui.Helper.Download.ActivationCode.{
  max_code_bytes, CodeError, too_long, no_prefix, invalid_address, trim, utf8, is_control,
  any_control, is_prefix, is_required, to_ascii_lowercase, eq_ignore_ascii_case, from_fields,
  parse_activation_code,
}
use mu5250_open_ui.Helper.Download.Steps.{ActivationCode}

-- No character of the category Cc.
abbrev pub IsPlain : ℕ → Type 0
IsPlain c = (0x20 ≤ c) × ((c < 0x7f) ⊎ (0x9f < c))

-- At least three fields, from which `a` is read.
pub record IsRead (fields : List (List ℕ)) (a : ActivationCode) : Type 0 where
  pub lpa : List ℕ
  pub address : List ℕ
  pub id : List ℕ
  pub rest : List (List ℕ)
  pub are : fields ≡ lpa ∷ (address ∷ (id ∷ rest))
  pub is_lpa : map to_ascii_lowercase lpa ≡ codes "lpa:1"
  pub is_server : valid_address a.smdp ≡ true
  pub smdp : a.smdp ≡ utf8 (trim address)
  pub matching_id : a.matching_id ≡ utf8 id
  pub required : (a.confirmation_required ≡ true) ↔ (get_elem? fields 4 ≡ some (codes "1"))

-- The code is made up of such fields between dollar signs.
pub record IsCode (code : List ℕ) (a : ActivationCode) : Type 0 where
  pub fields : List (List ℕ)
  pub is_text : trim code ≡ join b'$' fields
  pub separated : IsSplit b'$' fields
  pub is_short : length (utf8 (trim code)) ≤ 512
  pub is_plain : All IsPlain (trim code)
  pub is_read : IsRead fields a

is_control-IsPlain : (c : ℕ) → (is_control c ≡ false) ↔ IsPlain c
unfolding is_control
is_control-IsPlain c = ground arith

neither : (a b : Bool) → (a || b) ≡ false → (a ≡ false) × (b ≡ false)
neither true b h = cc
neither false b h = (refl, h)

any_control-IsPlain : (text : List ℕ) → any_control text ≡ false → All IsPlain text
unfolding any_control
any_control-IsPlain [] h = tt
any_control-IsPlain (c ∷ cs) h =
    let n = neither (is_control c) (any_control cs) h in
    ((is_control-IsPlain c).0 n.0, any_control-IsPlain cs n.1)

IsPlain-any_control : (text : List ℕ) → All IsPlain text → any_control text ≡ false
unfolding any_control
IsPlain-any_control [] h = refl
IsPlain-any_control (c ∷ cs) h = rw ((is_control-IsPlain c).1 h.0) (IsPlain-any_control cs h.1)

cells_iff :
    (x y : ℕ) (b : Bool) (xs ys : List ℕ)
    → (b ≡ true) ↔ (xs ≡ ys)
    → ((x == y && b) ≡ true) ↔ (x ∷ xs ≡ y ∷ ys)
cells_iff x y b xs ys h = ((λ e. ground (arith, h)), λ e. ground (arith, h))

-- Comparing without case is comparing in lower case.
eq_ignore_iff :
    (cs ds : List ℕ)
    → (eq_ignore_ascii_case cs ds ≡ true) ↔ (map to_ascii_lowercase cs ≡ map to_ascii_lowercase ds)
unfolding eq_ignore_ascii_case
eq_ignore_iff [] [] = ((λ h. refl), λ h. refl)
eq_ignore_iff [] (d ∷ ds) = ((λ h. cc), λ h. cc)
eq_ignore_iff (c ∷ cs) [] = ((λ h. cc), λ h. cc)
eq_ignore_iff (c ∷ cs) (d ∷ ds) =
    cells_iff (to_ascii_lowercase c) (to_ascii_lowercase d) (eq_ignore_ascii_case cs ds)
      (map to_ascii_lowercase cs) (map to_ascii_lowercase ds) (eq_ignore_iff cs ds)

is_required_iff :
    (lpa address id : List ℕ) (rest : List (List ℕ))
    → (is_required rest ≡ true) ↔ (get_elem? (lpa ∷ (address ∷ (id ∷ rest))) 4 ≡ some (codes "1"))
is_required_iff lpa address id [] = ((λ h. cc), λ h. cc)
is_required_iff lpa address id (oid ∷ []) = ((λ h. cc), λ h. cc)
is_required_iff lpa address id (oid ∷ (flag ∷ rest)) =
    ((λ h. ap some ((str_eq_iff flag (codes "1")).0 h)), λ h. (str_eq_iff flag (codes "1")).1 cc)

-- Two Boolean values that say the same.
same_test : {P : Type 0} (a b : Bool) → (a ≡ true) ↔ P → (b ≡ true) ↔ P → a ≡ b
same_test true b h k = sym (k.1 (h.0 refl))
same_test false true h k = h.1 (k.0 refl)
same_test false false h k = refl

tested :
    (p v : Bool) (c a : ActivationCode)
    → (if not p then err no_prefix else if not v then err invalid_address else ok c) ≡ ok a
    → (p ≡ true) × (v ≡ true) × (c ≡ a)
tested true true c a h = (refl, refl, cc)
tested true false c a h = cc
tested false v c a h = cc

few : (p : Bool) (e f : CodeError) (a : ActivationCode) → (if p then err e else err f) ≡ ok a → ⊥
few true e f a h = cc
few false e f a h = cc

from_fields-IsRead :
    (fields : List (List ℕ)) (a : ActivationCode) → from_fields fields ≡ ok a → IsRead fields a
unfolding from_fields
from_fields-IsRead [] a h = cc
from_fields-IsRead (lpa ∷ []) a h = elim (few (is_prefix lpa) _ _ a h) [ ]
from_fields-IsRead (lpa ∷ (address ∷ [])) a h = elim (few (is_prefix lpa) _ _ a h) [ ]
from_fields-IsRead (lpa ∷ (address ∷ (id ∷ rest))) a h =
    let t = tested (is_prefix lpa) (valid_address (utf8 (trim address))) _ a h in
    rw (← t.2) (record {
      lpa = lpa;
      address = address;
      id = id;
      rest = rest;
      are = refl;
      is_lpa = (eq_ignore_iff lpa (codes "LPA:1")).0 t.0;
      is_server = t.1;
      smdp = refl;
      matching_id = refl;
      required = is_required_iff lpa address id rest;
    })

passed :
    (b : Bool) (r : Result CodeError ActivationCode) (a : ActivationCode)
    → (if b then err too_long else r) ≡ ok a
    → (b ≡ false) × (r ≡ ok a)
passed true r a h = cc
passed false r a h = (refl, h)

all_tested :
    (text : List ℕ)
    → length (utf8 text) ≤ 512
    → All IsPlain text
    → (ltb max_code_bytes (length (utf8 text)) || any_control text) ≡ false
all_tested text l p = rw (IsPlain-any_control text p, le→ltb_false 512 (length (utf8 text)) l) refl

three_fields :
    (lpa address id : List ℕ) (rest : List (List ℕ)) (a : ActivationCode)
    → is_prefix lpa ≡ true
    → valid_address a.smdp ≡ true
    → a.smdp ≡ utf8 (trim address)
    → a.matching_id ≡ utf8 id
    → a.confirmation_required ≡ is_required rest
    → from_fields (lpa ∷ (address ∷ (id ∷ rest))) ≡ ok a
unfolding from_fields
three_fields lpa address id rest a p v s m c =
    let server : valid_address (utf8 (trim address)) ≡ true = rw (← s) v in
    rw (p, server, ← s, ← m, ← c) refl

IsRead-from_fields :
    (fields : List (List ℕ)) (a : ActivationCode) → IsRead fields a → from_fields fields ≡ ok a
IsRead-from_fields fields a r =
    let required : (a.confirmation_required ≡ true)
        ↔ (get_elem? (r.lpa ∷ (r.address ∷ (r.id ∷ r.rest))) 4 ≡ some (codes "1")) =
      subst (λ fs. (a.confirmation_required ≡ true) ↔ (get_elem? fs 4 ≡ some (codes "1"))) r.are
        r.required in
    ap from_fields r.are
    ∙ three_fields r.lpa r.address r.id r.rest a ((eq_ignore_iff r.lpa (codes "LPA:1")).1 r.is_lpa)
        r.is_server r.smdp r.matching_id
        (same_test a.confirmation_required (is_required r.rest) required
          (is_required_iff r.lpa r.address r.id r.rest))

accepts_sound :
    (code : List ℕ) (a : ActivationCode) → parse_activation_code code ≡ ok a → IsCode code a
unfolding parse_activation_code
accepts_sound code a h =
    let text = trim code in
    let p = passed _ (from_fields (split b'$' text)) a h in
    let n = neither (ltb max_code_bytes (length (utf8 text))) (any_control text) p.0 in
    record {
      fields = split b'$' text;
      is_text = sym (join-split b'$' text);
      separated = split-IsSplit b'$' text;
      is_short = ltb_false→le 512 (length (utf8 text)) n.0;
      is_plain = any_control-IsPlain text n.1;
      is_read = from_fields-IsRead (split b'$' text) a p.1;
    }

accepts_complete :
    (code : List ℕ) (a : ActivationCode) → IsCode code a → parse_activation_code code ≡ ok a
unfolding parse_activation_code
accepts_complete code a c =
    let fields : split b'$' (trim code) ≡ c.fields =
      ap (split b'$') c.is_text ∙ split-join b'$' c.fields c.separated in
    rw (all_tested (trim code) c.is_short c.is_plain, fields)
      (IsRead-from_fields c.fields a c.is_read)

-- A code is accepted, and `a` is what is read from it, exactly where, without the white space around
-- it, it has at most 512 bytes, no control character, and at least three fields between
-- dollar signs: LPA:1 in any case, a valid server address, which is `a.smdp`, and `a.matching_id`. A
-- confirmation code is required exactly where the fifth field is 1.
pub parse_activation_code-accepts :
    (code : List ℕ) (a : ActivationCode) → (parse_activation_code code ≡ ok a) ↔ IsCode code a
parse_activation_code-accepts code a = (accepts_sound code a, accepts_complete code a)
