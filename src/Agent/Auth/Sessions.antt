-- ===== src/Agent/Auth/Sessions.antt =====
-- Sessions: who gets a token, how long it serves, and how many there are.
use mu5250_open_ui.Base.{
  ℕ, ◌+◌, ◌-◌, ◌≤◌, ◌<◌, ◌≡◌, ◌≢◌, ◌⊎◌, refl, ap, ◌∙◌, true, Option, none, some, List, [], ◌∷◌,
  ◌++◌, length, arith, ltb, leb, Bool-cases, inl, inr, length-append, ltb→lt, ltb_false→le,
  leb_false→lt,
}
use mu5250_open_ui.Base.Strings.{str_eq, str_eq_self, str_eq_iff, lookup, lookup-remove}
use mu5250_open_ui.Agent.Auth.{
  AuthState, LoginAttempt, Token, LoginResult, ok, locked, Outside, refused, passed, CredentialKind,
  login_gate, login_against, is_stored, iterated_hash, new_token, clear_failures, live_tokens,
  remove_first, push_token, slide, validate, token_ttl, max_tokens,
}
use mu5250_open_ui.Agent.Auth.Attempts.{gate-cases, attempts_of}
use mu5250_open_ui.Agent.Auth.Lockout.{login_while_locked}

-- Some token has the value, has not expired at `now`, and was opened by a credential of the kind.
abbrev pub HasSession : ℕ → List ℕ → CredentialKind → List Token → Type 0
HasSession now value kind [] = ⊥
HasSession now value kind (t ∷ ts) =
    ((t.value ≡ value) × (now < t.expires) × (t.kind ≡ kind)) ⊎ HasSession now value kind ts

slide_sound :
    (now e : ℕ) (value : List ℕ) (kind : CredentialKind) (ts : List Token)
    → (slide value e (live_tokens now ts)).1 ≡ some kind
    → HasSession now value kind ts
unfolding slide live_tokens
slide_sound now e value kind [] h = cc
slide_sound now e value kind (t ∷ ts) h = elim (Bool-cases (ltb now t.expires)) [
  | inr dead ↦ inr (slide_sound now e value kind ts (rw dead at h))
  | inl live ↦ elim (Bool-cases (str_eq t.value value)) [
    | inl same ↦ inl ((str_eq_iff t.value value).0 same, ground arith, ground arith)
    | inr other ↦ inr (slide_sound now e value kind ts (ground arith))
  ]
]

-- A bearer token is accepted only for a session that has not expired, and with its kind.
pub validate_sound :
    (now : ℕ) (value : List ℕ) (s : AuthState) (kind : CredentialKind)
    → (validate now value s).1 ≡ some kind
    → HasSession now value kind s.tokens
unfolding validate
validate_sound now value s kind h = slide_sound now (now + token_ttl) value kind s.tokens h

slide_again :
    (e e' later : ℕ) (value : List ℕ) (kind : CredentialKind) (ts : List Token)
    → (slide value e ts).1 ≡ some kind
    → later < e
    → (slide value e' (live_tokens later (slide value e ts).0)).1 ≡ some kind
unfolding slide live_tokens
slide_again e e' later value kind [] h lt = cc
slide_again e e' later value kind (t ∷ ts) h lt =
    ground (arith, slide_again e e' later value kind ts)

-- Each use of a session renews it: a token that is accepted is accepted again at any time less than
-- the session length after that, with the same kind.
pub validate_slides :
    (now later : ℕ) (value : List ℕ) (s : AuthState) (kind : CredentialKind)
    → (validate now value s).1 ≡ some kind
    → later < now + token_ttl
    → (validate later value (validate now value s).0).1 ≡ some kind
unfolding validate
validate_slides now later value s kind h lt =
    slide_again (now + token_ttl) (later + token_ttl) later value kind (live_tokens now s.tokens) h
      lt

abbrev pub NoToken : List ℕ → List Token → Type 0
NoToken value [] = Unit
NoToken value (t ∷ ts) = (t.value ≢ value) × NoToken value ts

live_tokens-NoToken :
    (now : ℕ) (value : List ℕ) (ts : List Token)
    → NoToken value ts
    → NoToken value (live_tokens now ts)
unfolding live_tokens
live_tokens-NoToken now value [] h = h
live_tokens-NoToken now value (t ∷ ts) h = elim (Bool-cases (ltb now t.expires)) [
  | inl e ↦ rw e (h.0, live_tokens-NoToken now value ts h.1)
  | inr e ↦ rw e (live_tokens-NoToken now value ts h.1)
]

slide_last :
    (later e : ℕ) (t : Token) (ts : List Token)
    → NoToken t.value ts
    → later < t.expires
    → (slide t.value e (live_tokens later (ts ++ t ∷ []))).1 ≡ some t.kind
unfolding slide live_tokens
slide_last later e t [] h lt = ground (arith, str_eq_self t.value)
slide_last later e t (u ∷ ts) h lt =
    ground (arith, str_eq_iff u.value t.value, slide_last later e t ts)

remove_first-NoToken :
    (value : List ℕ) (ts : List Token) → NoToken value ts → NoToken value (remove_first ts)
remove_first-NoToken value [] h = h
remove_first-NoToken value (t ∷ ts) h = h.1

slide-push_token :
    (now later e : ℕ) (t : Token) (ts : List Token)
    → NoToken t.value ts
    → later < t.expires
    → (slide t.value e (live_tokens later (push_token now t ts))).1 ≡ some t.kind
unfolding push_token
slide-push_token now later e t ts h lt =
    let live = live_tokens-NoToken now t.value ts h in
    elim (Bool-cases (leb max_tokens (length (live_tokens now ts)))) [
      | inl full ↦ rw full (
          slide_last later e t (remove_first (live_tokens now ts))
            (remove_first-NoToken t.value (live_tokens now ts) live) lt)
      | inr room ↦ rw room (slide_last later e t (live_tokens now ts) live lt)
    ]

pub length-live_tokens : (now : ℕ) (ts : List Token) → length (live_tokens now ts) ≤ length ts
unfolding live_tokens
length-live_tokens now [] = omega arith
length-live_tokens now (t ∷ ts) = ground (arith, length-live_tokens now ts)

length-remove_first : (ts : List Token) → length (remove_first ts) ≡ length ts - 1
length-remove_first [] = omega arith
length-remove_first (t ∷ ts) = omega arith

pub length-push_token :
    (now : ℕ) (t : Token) (ts : List Token)
    → length ts ≤ max_tokens
    → length (push_token now t ts) ≤ max_tokens
unfolding push_token
length-push_token now t ts h =
    let live = length-live_tokens now ts in
    elim (Bool-cases (leb max_tokens (length (live_tokens now ts)))) [
      | inl full ↦
          rw (full, length-append (remove_first (live_tokens now ts)) (t ∷ []))
            (omega (arith, length-remove_first (live_tokens now ts)))
      | inr room ↦
          rw (room, length-append (live_tokens now ts) (t ∷ []))
            (omega (arith, leb_false→lt max_tokens (length (live_tokens now ts)) room))
    ]

stored_cases :
    (stored : Option (List ℕ)) (hash : List ℕ) → is_stored stored hash ≡ true → stored ≡ some hash
unfolding is_stored
stored_cases none hash e = cc
stored_cases (some h) hash e = ap some ((str_eq_iff h hash).0 e)

module _ (sha256 : List ℕ → List ℕ) (o : Outside) (credential : List ℕ) (stored : Option (List ℕ))
    (ip : List ℕ) (kind : CredentialKind) where
  abbrev pub login : AuthState → AuthState × LoginResult
  login s = login_against sha256 o credential stored ip kind s

  abbrev hash_of : AuthState → List ℕ
  hash_of s = iterated_hash sha256 s.salt credential

  -- What a login that succeeds leaves.
  record Opened (s : AuthState) (token : List ℕ) : Type 0 where
    matches : is_stored stored (hash_of s) ≡ true
    value : token ≡ new_token sha256 o (hash_of s)
    tokens :
        (login s).0.tokens
        ≡ push_token o.instant
            (record { value = token; expires = o.instant + token_ttl; kind = kind })
            s.tokens
    cleared : lookup ip (login s).0.failed_logins ≡ none

  gate_ok :
      (s' s : AuthState) (token : List ℕ)
      → (login_gate sha256 o credential stored ip kind (passed s') s).1 ≡ ok token
      → (is_stored stored (hash_of s') ≡ true) × (token ≡ new_token sha256 o (hash_of s'))
  unfolding login_gate
  gate_ok s' s token h = ground arith

  gate_opened :
      (s' s : AuthState)
      → is_stored stored (hash_of s') ≡ true
      → ((login_gate sha256 o credential stored ip kind (passed s') s).0.tokens
          ≡ push_token o.instant
              (record {
                value = new_token sha256 o (hash_of s');
                expires = o.instant + token_ttl;
                kind = kind;
              })
              s'.tokens)
        × (lookup ip (login_gate sha256 o credential stored ip kind (passed s') s).0.failed_logins
            ≡ none)
  unfolding login_gate
  gate_opened s' s e = rw e (refl, lookup-remove ip ip s'.failed_logins ∙ rw (str_eq_self ip))

  login-Opened : (s : AuthState) (token : List ℕ) → (login s).1 ≡ ok token → Opened s token
  unfolding login_against
  login-Opened s token h = elim (gate-cases ip o.epoch s) [
    | inl (n, shut) ↦ absurd (refused_ok n (rw shut at h))
    | inr (inl unlocked) ↦
        let (e, v) = gate_ok s s token (rw unlocked at h) in
        let (ts, cleared) = gate_opened s s e in
        record {
          matches = e;
          value = v;
          tokens = rw (unlocked, v) ts;
          cleared = rw unlocked cleared;
        }
    | inr (inr lapsed) ↦
        let s' = clear_failures ip s in
        let (e, v) = gate_ok s' s token (rw lapsed at h) in
        let (ts, cleared) = gate_opened s' s e in
        record { matches = e; value = v; tokens = rw (lapsed, v) ts; cleared = rw lapsed cleared }
  ]
    where
      refused_ok :
          (n : ℕ) → (login_gate sha256 o credential stored ip kind (refused n) s).1 ≡ ok token → ⊥
      refused_ok n e = unfold login_gate in cc

  -- A login succeeds only with the credential whose salted hash is stored, and never while its
  -- client is locked out; it forgets the client's failures.
  pub login_sound :
      (s : AuthState) (token : List ℕ)
      → (login s).1 ≡ ok token
      → (stored ≡ some (iterated_hash sha256 s.salt credential))
        × ((a : LoginAttempt) → attempts_of ip s ≡ some a → 5 ≤ a.count → a.locked_until ≤ o.epoch)
        × (attempts_of ip (login s).0 ≡ none)
  login_sound s token h =
      let opened = login-Opened s token h in
      (is_stored_sound (hash_of s) opened.matches, not_locked, opened.cleared)
    where
      is_stored_sound : (hash : List ℕ) → is_stored stored hash ≡ true → stored ≡ some hash
      is_stored_sound hash e = stored_cases stored hash e

      locked_ok : {n : ℕ} → login s ≡ (s, locked n) → ⊥
      locked_ok e = cc (ap (λ (r : AuthState × LoginResult). r.1) e, h)

      not_locked :
          (a : LoginAttempt) → attempts_of ip s ≡ some a → 5 ≤ a.count → a.locked_until ≤ o.epoch
      not_locked a e le = elim (Bool-cases (ltb o.epoch a.locked_until)) [
        | inr late ↦ ltb_false→le o.epoch a.locked_until late
        | inl early ↦ absurd (
            locked_ok (
              login_while_locked sha256 ip o credential stored kind s a e le
                (ltb→lt o.epoch a.locked_until early)))
      ]

  -- The token that a login returns opens a session of its kind: where no session had that token before, the
  -- first call behind the login accepts it, if it comes less than the session length after it.
  pub login_opens_session :
      (s : AuthState) (token : List ℕ) (later : ℕ)
      → (login s).1 ≡ ok token
      → NoToken token s.tokens
      → later < o.instant + token_ttl
      → (validate later token (login s).0).1 ≡ some kind
  unfolding validate
  login_opens_session s token later h fresh lt =
      let opened = login-Opened s token h in
      rw (opened.tokens) (
        slide-push_token o.instant later (later + token_ttl)
          (record { value = token; expires = o.instant + token_ttl; kind = kind }) s.tokens fresh
          lt)
