-- ===== src/Helper/Address/Server.antt =====
-- What an address that `valid_address` accepts is: a name of labels, and a port behind it.
use mu5250_open_ui.Base.{
  ℕ, ◌+◌, ◌-◌, ◌*◌, ◌≤◌, ◌<◌, ◌≡◌, ◌≢◌, ◌⊎◌, inl, inr, refl, sym, ap, Bool, true, false, not, ◌&&◌,
  Option, none, some, List, [], ◌∷◌, ◌++◌, length, All, arith, leb, leb→le, ◌==◌, ==_iff,
  if◌then◌else◌,
}
use mu5250_open_ui.Base.Split.{split, join, rsplit_once, join-split, IsLast, rsplit_once-IsLast}
use mu5250_open_ui.Euicc.Hex.{is_empty}
use mu5250_open_ui.Helper.Address.{
  is_digit, is_alphanumeric, all, last, u16_digits, parse_u16, is_bad_port, is_hyphen, is_name_byte,
  starts_with_hyphen, valid_label, is_number, valid_host, valid_address,
}

abbrev pub IsDigit : ℕ → Type 0
IsDigit b = (b'0' ≤ b) × (b ≤ b'9')

abbrev pub IsNameByte : ℕ → Type 0
IsNameByte b = IsDigit b ⊎ ((b'A' ≤ b) × (b ≤ b'Z')) ⊎ ((b'a' ≤ b) × (b ≤ b'z')) ⊎ (b ≡ b'-')

-- A label of a host name.
pub record IsLabel (l : List ℕ) : Type 0 where
  pub not_empty : 1 ≤ length l
  pub not_long : length l ≤ 63
  pub no_hyphen_first : (rest : List ℕ) → l ≢ b'-' ∷ rest
  pub no_hyphen_last : last l ≢ some b'-'
  pub name : All IsNameByte l

-- The number that digits write, behind `n`.
abbrev pub value : ℕ → List ℕ → ℕ
value n [] = n
value n (b ∷ bs) = value (n * 10 + (b - b'0')) bs

-- Decimal digits of a port, with a plus sign in front or without.
pub record IsPort (text : List ℕ) : Type 0 where
  pub sign : List ℕ
  pub digits : List ℕ
  pub is_text : text ≡ sign ++ digits
  pub is_sign : (sign ≡ []) ⊎ (sign ≡ b'+' ∷ [])
  pub all_digits : All IsDigit digits
  pub in_range : (0 < value 0 digits) × (value 0 digits ≤ 65535)

-- At least two labels, the last one no number, in at most 253 bytes.
pub record IsHost (host : List ℕ) : Type 0 where
  pub labels : List (List ℕ)
  pub is_joined : host ≡ join b'.' labels
  pub several : 2 ≤ length labels
  pub short : length host ≤ 253
  pub each : All IsLabel labels
  pub last_name : (l : List ℕ) → last labels ≡ some l → ¬ All IsDigit l

-- A host name with or without a port.
abbrev pub IsServer : List ℕ → Type 0
IsServer address =
    IsHost address
    ⊎ ((host port : List ℕ) × (address ≡ host ++ b':' ∷ port) × IsHost host × IsPort port)

both : (a b : Bool) → (a && b) ≡ true → (a ≡ true) × (b ≡ true)
both true true h = (refl, refl)
both true false h = cc
both false b h = cc

no : (a : Bool) → not a ≡ true → a ≡ false
no true h = cc
no false h = refl

is_digit-IsDigit : (b : ℕ) → is_digit b ≡ true → IsDigit b
unfolding is_digit
is_digit-IsDigit b h = ground arith

IsDigit-is_digit : (b : ℕ) → IsDigit b → is_digit b ≡ true
unfolding is_digit
IsDigit-is_digit b h = ground arith

is_name_byte-IsNameByte : (b : ℕ) → is_name_byte b ≡ true → IsNameByte b
unfolding is_name_byte is_alphanumeric is_digit
is_name_byte-IsNameByte b h = ground arith

all-All :
    {A : Type 0} {P : A → Type 0} (p : A → Bool)
    → ((x : A) → p x ≡ true → P x)
    → (xs : List A) → all p xs ≡ true
    → All P xs
unfolding all
all-All p f [] h = tt
all-All p f (x ∷ xs) h = let hs = both (p x) (all p xs) h in (f x hs.0, all-All p f xs hs.1)

All-all :
    {A : Type 0} {P : A → Type 0} (p : A → Bool)
    → ((x : A) → P x → p x ≡ true)
    → (xs : List A) → All P xs
    → all p xs ≡ true
unfolding all
All-all p f [] h = refl
All-all p f (x ∷ xs) h = rw (f x h.0) (All-all p f xs h.1)

refused_not : (a b : Bool) → (if a then false else b) ≡ true → (a ≡ false) × (b ≡ true)
refused_not true b h = cc
refused_not false b h = (refl, h)

guarded :
    (b : Bool) (o : Option ℕ) (m : ℕ) → (if b then o else none) ≡ some m → (b ≡ true) × (o ≡ some m)
guarded true o m h = (refl, h)
guarded false o m h = cc

u16_digits-value :
    (n m : ℕ) (bs : List ℕ)
    → n ≤ 65535
    → u16_digits n bs ≡ some m
    → All IsDigit bs × (value n bs ≡ m) × (m ≤ 65535)
unfolding u16_digits
u16_digits-value n m [] l h = (tt, cc, ground arith)
u16_digits-value n m (b ∷ bs) l h =
    let k = n * 10 + (b - b'0') in
    let g = guarded (is_digit b && leb k 65535) (u16_digits k bs) m h in
    let es = both (is_digit b) (leb k 65535) g.0 in
    let r = u16_digits-value k m bs (leb→le k 65535 es.1) g.1 in
    ((is_digit-IsDigit b es.0, r.0), r.1, r.2)

accepted-IsPort :
    (sign digits : List ℕ) (o : Option ℕ)
    → u16_digits 0 digits ≡ o
    → (sign ≡ []) ⊎ (sign ≡ b'+' ∷ [])
    → is_bad_port o ≡ false
    → IsPort (sign ++ digits)
accepted-IsPort sign digits none e s h = cc
accepted-IsPort sign digits (some m) e s h =
    let r = u16_digits-value 0 m digits (omega arith) e in
    record {
      sign = sign;
      digits = digits;
      is_text = refl;
      is_sign = s;
      all_digits = r.0;
      in_range = (ground (arith, r.1, h), omega (arith, r.1, r.2));
    }

signed-IsPort :
    (plus : Bool) (b : ℕ) (rest : List ℕ)
    → (plus ≡ true → b ≡ b'+')
    → is_bad_port (if plus then u16_digits 0 rest else u16_digits 0 (b ∷ rest)) ≡ false
    → IsPort (b ∷ rest)
signed-IsPort true b rest e h =
    rw (e refl) (accepted-IsPort (b'+' ∷ []) rest (u16_digits 0 rest) refl (inr refl) h)
signed-IsPort false b rest e h =
    accepted-IsPort [] (b ∷ rest) (u16_digits 0 (b ∷ rest)) refl (inl refl) h

parse_u16-IsPort : (text : List ℕ) → is_bad_port (parse_u16 text) ≡ false → IsPort text
unfolding parse_u16
parse_u16-IsPort [] h = cc
parse_u16-IsPort (b ∷ []) h = accepted-IsPort [] (b ∷ []) (u16_digits 0 (b ∷ [])) refl (inl refl) h
parse_u16-IsPort (b ∷ (c ∷ bs)) h = signed-IsPort (b == b'+') b (c ∷ bs) (==_iff b b'+').0 h

no_hyphen_first : (l rest : List ℕ) → starts_with_hyphen l ≡ false → l ≢ b'-' ∷ rest
no_hyphen_first l rest h e = cc (ap starts_with_hyphen e)

no_hyphen_last : (o : Option ℕ) → is_hyphen o ≡ false → o ≢ some b'-'
no_hyphen_last o h e = cc (ap is_hyphen e)

not_empty : (l : List ℕ) → is_empty l ≡ false → 1 ≤ length l
not_empty [] h = cc
not_empty (b ∷ bs) h = omega arith

valid_label-IsLabel : (l : List ℕ) → valid_label l ≡ true → IsLabel l
unfolding valid_label
valid_label-IsLabel l h =
    let h1 = both (not (is_empty l)) _ h in
    let h2 = both (leb (length l) 63) _ h1.1 in
    let h3 = both (not (starts_with_hyphen l)) _ h2.1 in
    let h4 = both (not (is_hyphen (last l))) _ h3.1 in
    record {
      not_empty = not_empty l (no _ h1.0);
      not_long = leb→le (length l) 63 h2.0;
      no_hyphen_first = λ rest. no_hyphen_first l rest (no _ h3.0);
      no_hyphen_last = no_hyphen_last (last l) (no _ h4.0);
      name = all-All is_name_byte is_name_byte-IsNameByte l h4.1;
    }

not_number : (o : Option (List ℕ)) (l : List ℕ) → is_number o ≡ false → o ≡ some l → ¬ All IsDigit l
not_number o l h e d = cc (ap is_number e, All-all is_digit IsDigit-is_digit l d)

valid_host-IsHost : (host : List ℕ) → valid_host host ≡ true → IsHost host
unfolding valid_host
valid_host-IsHost host h =
    let labels = split b'.' host in
    let h1 = both (not (is_empty host)) _ h in
    let h2 = both (leb (length host) 253) _ h1.1 in
    let h3 = both (leb 2 (length labels)) _ h2.1 in
    let h4 = both (all valid_label labels) _ h3.1 in
    record {
      labels = labels;
      is_joined = sym (join-split b'.' host);
      several = leb→le 2 (length labels) h3.0;
      short = leb→le (length host) 253 h2.0;
      each = all-All valid_label valid_label-IsLabel labels h4.0;
      last_name = λ l. not_number (last labels) l (no _ h4.1);
    }

accepted_address :
    (address : List ℕ) (o : Option (List ℕ × List ℕ))
    → IsLast b':' address o
    → elim o as (λ _. Bool) [
      | some (host, port) ↦ if is_bad_port (parse_u16 port) then false else valid_host host
      | none ↦ valid_host address
    ]
      ≡ true
    → IsServer address
accepted_address address none l h = inl (valid_host-IsHost address h)
accepted_address address (some (host, port)) l h =
    let g = refused_not (is_bad_port (parse_u16 port)) (valid_host host) h in
    inr (host, port, l.0, valid_host-IsHost host g.1, parse_u16-IsPort port g.0)

-- An address that is accepted is a DNS name, with a port behind a colon or without. The name has
-- at most 253 bytes in two or more labels of 1 to 63 letters, digits and hyphens, with no hyphen at an
-- end, and the last label is no number. The port is a decimal number from 1 to 65535, with a plus
-- sign or without.
pub valid_address-IsServer : (address : List ℕ) → valid_address address ≡ true → IsServer address
unfolding valid_address
valid_address-IsServer address h =
    accepted_address address (rsplit_once b':' address) (rsplit_once-IsLast b':' address) h
