-- ===== src/Euicc/Es8p/Rules.antt =====
-- The access rules that the metadata of a profile may have.
use mu5250_open_ui.Base.{
  ℕ, ◌≡◌, refl, sym, ap, ◌∙◌, Option, none, some, List, [], ◌∷◌, ◌++◌, append_assoc, append-nil,
  arith,
}
use mu5250_open_ui.Base.Options.{◌>>=◌}
use mu5250_open_ui.Base.Results.{Result, ok, err, and_then}
use mu5250_open_ui.Euicc.Der.{Tlv, iter, filter_tag}
use mu5250_open_ui.Euicc.Hex.{encode}
use mu5250_open_ui.Euicc.Session.{Error}
use mu5250_open_ui.Euicc.Es8p.{
  AccessRule, text, rule_loop, one_ref_do, with_hash, access_rule, entry_loop, parse_access_rules,
}

-- `result.ok()`
abbrev pub ok_of : {A : Type 0} → Result Error A → Option A
ok_of (ok a) = some a
ok_of (err e) = none

abbrev pub sole : List Tlv → Option Tlv
sole [] = none
sole (t ∷ []) = some t
sole (t ∷ (u ∷ ts)) = none

abbrev pub at_most_one : List Tlv → Option (Option Tlv)
at_most_one [] = some none
at_most_one (t ∷ []) = some (some t)
at_most_one (t ∷ (u ∷ ts)) = none

abbrev pub name_text : Option Tlv → Option (List ℕ)
name_text none = none
name_text (some t) = some (text t.value)

-- The rule of an entry: one REF-DO with one certificate hash and at most one package name.
unfoldable pub rule_of : Tlv → Option AccessRule
rule_of entry = do
  ref_do ← sole (filter_tag 0xe1 (iter entry.value))
  hash ← sole (filter_tag 0xc1 (iter ref_do.value))
  name ← at_most_one (filter_tag 0xca (iter ref_do.value))
  some (record { certificate_hash = some (encode hash.value); package_name = name_text name })

unfoldable pub rules_of : List Tlv → Option (List AccessRule)
rules_of [] = some []
rules_of (t ∷ ts) = let rest = rules_of ts in rule_of t >>= λ r. rest >>= λ rs. some (r ∷ rs)

unfoldable merge : (List ℕ → List ℕ) → Option (List ℕ) → List Tlv → Option (Option (List ℕ))
merge f old [] = some old
merge f none (t ∷ ts) = merge f (some (f t.value)) ts
merge f (some old) (t ∷ ts) = none

unfoldable merged : Option (List ℕ) → Option (List ℕ) → List Tlv → Option AccessRule
merged h n ts = merge encode h (filter_tag 0xc1 ts) >>= λ h'.
    merge text n (filter_tag 0xca ts) >>= λ n'.
    some (record { certificate_hash = h'; package_name = n' })

bind_none : {A B : Type 0} (m : Option A) → ◌≡◌ {A = Option B} (m >>= λ a. none) none
bind_none none = refl
bind_none (some a) = refl

rule_loop-merged :
    (h n : Option (List ℕ)) (ts : List Tlv)
    → ok_of (rule_loop (record { certificate_hash = h; package_name = n }) ts) ≡ merged h n ts
unfolding rule_loop merged merge filter_tag
rule_loop-merged h n [] = refl
rule_loop-merged none none (t ∷ ts) = ground (
  arith,
  rule_loop-merged (some (encode t.value)) none ts,
  rule_loop-merged none (some (text t.value)) ts,
  rule_loop-merged none none ts,
)
rule_loop-merged (some h) none (t ∷ ts) =
    ground
      (arith, rule_loop-merged (some h) (some (text t.value)) ts, rule_loop-merged (some h) none ts)
rule_loop-merged none (some n) (t ∷ ts) = ground (
  arith,
  rule_loop-merged (some (encode t.value)) (some n) ts,
  rule_loop-merged none (some n) ts,
  bind_none {B = AccessRule} (merge encode none (filter_tag 0xc1 ts)),
)
rule_loop-merged (some h) (some n) (t ∷ ts) = ground (
  arith,
  rule_loop-merged (some h) (some n) ts,
  bind_none {B = AccessRule} (merge encode (some h) (filter_tag 0xc1 ts)),
)

ok_of-and_then :
    {A B : Type 0} (m : Result Error A) (f : A → Result Error B)
    → ok_of (and_then m f) ≡ (ok_of m >>= λ a. ok_of (f a))
ok_of-and_then (ok a) f = refl
ok_of-and_then (err e) f = refl

-- What the loop and the check behind it make of the elements of a REF-DO.
merged_rule :
    (hs ns : List Tlv)
    → ((merge encode none hs >>= λ h.
          merge text none ns >>= λ n. some (record { certificate_hash = h; package_name = n }))
        >>= λ r. ok_of (with_hash r))
      ≡ (sole hs >>= λ hash. at_most_one ns >>= λ name.
          some
            (record { certificate_hash = some (encode hash.value); package_name = name_text name }))
unfolding merge
merged_rule [] [] = refl
merged_rule [] (n ∷ []) = refl
merged_rule [] (n ∷ (m ∷ ns)) = refl
merged_rule (h ∷ []) [] = refl
merged_rule (h ∷ []) (n ∷ []) = refl
merged_rule (h ∷ []) (n ∷ (m ∷ ns)) = refl
merged_rule (h ∷ (g ∷ hs)) ns = refl

ok_of-one_ref_do : (ts : List Tlv) → ok_of (one_ref_do ts) ≡ sole ts
unfolding one_ref_do
ok_of-one_ref_do [] = refl
ok_of-one_ref_do (t ∷ []) = refl
ok_of-one_ref_do (t ∷ (u ∷ ts)) = refl

bind_agree :
    {A B : Type 0} (m : Option A) (f g : A → Option B)
    → ((a : A) → f a ≡ g a)
    → (m >>= f) ≡ (m >>= g)
bind_agree none f g h = refl
bind_agree (some a) f g h = h a

ref_do_rule :
    (ts : List Tlv)
    → ok_of (
        and_then (rule_loop (record { certificate_hash = none; package_name = none }) ts) with_hash)
      ≡ (sole (filter_tag 0xc1 ts) >>= λ hash. at_most_one (filter_tag 0xca ts) >>= λ name.
          some
            (record { certificate_hash = some (encode hash.value); package_name = name_text name }))
ref_do_rule ts =
    ok_of-and_then (rule_loop (record { certificate_hash = none; package_name = none }) ts)
      with_hash
    ∙ ap (λ m. m >>= λ r. ok_of (with_hash r)) (rule_loop-merged none none ts)
    ∙ unfold merged in merged_rule (filter_tag 0xc1 ts) (filter_tag 0xca ts)

access_rule-rule_of : (entry : Tlv) → ok_of (access_rule entry) ≡ rule_of entry
unfolding access_rule rule_of
access_rule-rule_of entry =
    let dos = filter_tag 0xe1 (iter entry.value) in
    ok_of-and_then (one_ref_do dos) _
    ∙ ap
        (λ m. m >>= λ r. ok_of (
          and_then
            (rule_loop (record { certificate_hash = none; package_name = none }) (iter r.value))
            with_hash))
        (ok_of-one_ref_do dos)
    ∙ bind_agree (sole dos) _ _ (λ r. ref_do_rule (iter r.value))

entry_loop-rules_of :
    (rs : List AccessRule) (ts : List Tlv)
    → ok_of (entry_loop rs ts) ≡ (rules_of ts >>= λ r. some (rs ++ r))
unfolding entry_loop rules_of
entry_loop-rules_of rs [] = ap some (sym (append-nil rs))
entry_loop-rules_of rs (t ∷ ts) =
    ok_of-and_then (access_rule t) (λ r. entry_loop (rs ++ r ∷ []) ts)
    ∙ ap (λ m. m >>= λ r. ok_of (entry_loop (rs ++ r ∷ []) ts)) (access_rule-rule_of t)
    ∙ bind_agree (rule_of t) _
        (λ r. (rules_of ts >>= λ more. some (r ∷ more)) >>= λ all. some (rs ++ all))
        (λ r. entry_loop-rules_of (rs ++ r ∷ []) ts ∙ rules_behind rs r (rules_of ts))
    ∙ bind_bind (rule_of t) (rules_of ts) rs
  where
    rules_behind :
        (rs : List AccessRule) (r : AccessRule) (m : Option (List AccessRule))
        → (m >>= λ more. some ((rs ++ r ∷ []) ++ more))
          ≡ ((m >>= λ more. some (r ∷ more)) >>= λ all. some (rs ++ all))
    rules_behind rs r none = refl
    rules_behind rs r (some more) = ap some (append_assoc rs (r ∷ []) more)

    bind_bind :
        (m : Option AccessRule) (n : Option (List AccessRule)) (rs : List AccessRule)
        → (m >>= λ r. (n >>= λ more. some (r ∷ more)) >>= λ all. some (rs ++ all))
          ≡ ((m >>= λ r. n >>= λ more. some (r ∷ more)) >>= λ all. some (rs ++ all))
    bind_bind none n rs = refl
    bind_bind (some r) n rs = refl

-- The access rules are accepted exactly when each entry holds one REF-DO, with one certificate hash and
-- at most one package name, and then they are these in order; any other entry fails them all.
pub parse_access_rules-rules_of :
    (value : List ℕ) → ok_of (parse_access_rules value) ≡ rules_of (filter_tag 0xe2 (iter value))
unfolding parse_access_rules
parse_access_rules-rules_of value =
    entry_loop-rules_of [] (filter_tag 0xe2 (iter value))
    ∙ bind_some (rules_of (filter_tag 0xe2 (iter value)))
  where
    bind_some : (m : Option (List AccessRule)) → (m >>= λ r. some ([] ++ r)) ≡ m
    bind_some none = refl
    bind_some (some r) = refl
