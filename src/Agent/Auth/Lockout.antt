-- ===== src/Agent/Auth/Lockout.antt =====
-- The lockout by client address.
use mu5250_open_ui.Base.{
  ℕ, suc, ◌+◌, ◌-◌, ◌^◌, ◌≤◌, ◌<◌, ◌≡◌, ◌≢◌, refl, ◌∙◌, ap, true, false, Option, none, some, List,
  [], ◌∷◌, length, arith, Bool-cases, inl, inr,
}
use mu5250_open_ui.Base.Strings.{
  str_eq_iff, lookup, remove, IsMap, insert-IsMap, retain-IsMap, remove-IsMap, lookup-remove,
}
use mu5250_open_ui.Agent.Auth.{
  AuthState, LoginAttempt, LoginResult, locked, Outside, refused, passed, CredentialKind, password,
  pin, validate_pin, login_password, login_pin, lockout_gate, login_gate, login_against, is_stored,
  iterated_hash, record_failed_login, failed, is_recent, or_new, clear_failures,
}
use mu5250_open_ui.Agent.Auth.Attempts.{
  attempts_of, lookup-record_failed_login, lookup-record_failed_login_ne, HasFailed, failed_row,
  record_failed_login-HasFailed, gate-cases,
}

-- A login with a password or a PIN: its clocks, which of the two, and the credential.
abbrev pub Attempt : Type 0
Attempt = Outside × CredentialKind × List ℕ

-- The hash that a credential of the kind is compared with.
abbrev pub stored_for : CredentialKind → Option (List ℕ) → Option (List ℕ) → Option (List ℕ)
stored_for password password_hash pin_hash = password_hash
stored_for pin password_hash pin_hash = pin_hash

module _ (sha256 : List ℕ → List ℕ) (ip : List ℕ) where
  -- The method for the kind.
  abbrev login_with : CredentialKind → Outside → List ℕ → AuthState → AuthState × LoginResult
  login_with password o credential s = login_password sha256 o credential ip s
  login_with pin o credential s = login_pin sha256 o credential ip s

  abbrev login : Attempt → AuthState → AuthState × LoginResult
  login a s = login_with a.1 a.0 a.2 s

  -- The state after a list of logins.
  pub after : List Attempt → AuthState → AuthState
  after [] s = s
  after (a ∷ rest) s = after rest (login a s).0

  -- Each credential is wrong for the hash that is stored for its kind.
  abbrev pub AllWrong : List ℕ → Option (List ℕ) → Option (List ℕ) → List Attempt → Type 0
  AllWrong salt password_hash pin_hash [] = Unit
  AllWrong salt password_hash pin_hash (a ∷ rest) =
      (is_stored (stored_for a.1 password_hash pin_hash) (iterated_hash sha256 salt a.2) ≡ false)
      × AllWrong salt password_hash pin_hash rest

  gate_none : (now : ℕ) (s : AuthState) → attempts_of ip s ≡ none → lockout_gate ip now s ≡ passed s
  unfolding lockout_gate
  gate_none now s e = rw (e, lockout_gate)

  gate_few :
      (now : ℕ) (s : AuthState) (a : LoginAttempt)
      → attempts_of ip s ≡ some a
      → a.count < 5
      → lockout_gate ip now s ≡ passed s
  unfolding lockout_gate
  gate_few now s a e lt = rw (e, lockout_gate) (ground arith)

  gate_locked :
      (now : ℕ) (s : AuthState) (a : LoginAttempt)
      → attempts_of ip s ≡ some a
      → 5 ≤ a.count
      → now < a.locked_until
      → lockout_gate ip now s ≡ refused (a.locked_until - now)
  unfolding lockout_gate
  gate_locked now s a e le lt = rw (e, lockout_gate) (ground arith)

  against_wrong :
      (o : Outside) (credential : List ℕ) (stored : Option (List ℕ)) (kind : CredentialKind)
      (s : AuthState)
      → lockout_gate ip o.epoch s ≡ passed s
      → is_stored stored (iterated_hash sha256 s.salt credential) ≡ false
      → (login_against sha256 o credential stored ip kind s).0 ≡ record_failed_login ip o.epoch s
  unfolding login_against login_gate
  against_wrong o credential stored kind s unlocked wrong = rw (unlocked, login_gate, wrong)

  with_wrong :
      (kind : CredentialKind) (o : Outside) (credential : List ℕ) (s : AuthState)
      → lockout_gate ip o.epoch s ≡ passed s
      → is_stored
          (stored_for kind s.password_hash s.pin_hash)
          (iterated_hash sha256 s.salt credential)
        ≡ false
      → (login_with kind o credential s).0 ≡ record_failed_login ip o.epoch s
  unfolding login_password login_pin
  with_wrong password o credential s unlocked wrong =
      against_wrong o credential s.password_hash password s unlocked wrong
  with_wrong pin o credential s unlocked wrong = elim (Bool-cases (validate_pin credential)) [
    | inl valid ↦ rw valid (against_wrong o credential s.pin_hash pin s unlocked wrong)
    | inr malformed ↦ rw malformed refl
  ]

  login_wrong :
      (a : Attempt) (s : AuthState)
      → lockout_gate ip a.0.epoch s ≡ passed s
      → is_stored (stored_for a.1 s.password_hash s.pin_hash) (iterated_hash sha256 s.salt a.2)
        ≡ false
      → (login a s).0 ≡ record_failed_login ip a.0.epoch s
  login_wrong a s unlocked wrong = with_wrong a.1 a.0 a.2 s unlocked wrong

  -- Each login comes within an hour of the one before it.
  abbrev pub Timely : ℕ → List Attempt → Type 0
  Timely last [] = Unit
  Timely last (a ∷ rest) =
      (a.0.epoch - last < 3600) × (a.0.epoch + 30 < 2 ^ 64) × Timely a.0.epoch rest

  abbrev pub last_epoch : ℕ → List Attempt → ℕ
  last_epoch last [] = last
  last_epoch last (a ∷ rest) = last_epoch a.0.epoch rest

  after-HasFailed :
      (attempts : List Attempt) (count last : ℕ) (s : AuthState)
      → HasFailed ip count last s
      → count + length attempts ≤ 5
      → AllWrong s.salt s.password_hash s.pin_hash attempts
      → Timely last attempts
      → HasFailed ip (count + length attempts) (last_epoch last attempts) (after attempts s)
  unfolding after
  after-HasFailed [] count last s h le wrong timely =
      let e : count + 0 ≡ count = omega arith in rw e h
  after-HasFailed (a ∷ rest) count last s h le wrong timely =
      let unlocked = gate_few a.0.epoch s h.row h.stored (omega (arith, h.counted)) in
      let e : count + suc (length rest) ≡ suc count + length rest = omega arith in
      let next =
        record_failed_login-HasFailed ip a.0.epoch count last s h (omega arith) timely.0 timely.1 in
      rw (e, login_wrong a s unlocked wrong.0)
        (after-HasFailed rest (suc count) a.0.epoch (record_failed_login ip a.0.epoch s) next
          (omega arith) (unfold record_failed_login in wrong.1) timely.2)

  first-HasFailed :
      (now : ℕ) (s : AuthState)
      → IsMap s.failed_logins
      → attempts_of ip s ≡ none
      → now + 30 < 2 ^ 64
      → HasFailed ip 1 now (record_failed_login ip now s)
  first-HasFailed now s m e fits =
      let row = failed now (or_new now none) in
      let (counted, at, until) = failed_row now 0 now (or_new now none) refl (omega arith) fits in
      record {
        is_map =
            unfold record_failed_login in
            insert-IsMap ip _ _ (retain-IsMap (is_recent now) s.failed_logins m);
        row = row;
        stored = lookup-record_failed_login ip now s m ∙ rw e;
        counted = counted;
        at = at;
        until = until;
      }

  pub login_while_locked :
      (o : Outside) (credential : List ℕ) (any_stored : Option (List ℕ)) (any_kind : CredentialKind)
      (s : AuthState) (a : LoginAttempt)
      → attempts_of ip s ≡ some a
      → 5 ≤ a.count
      → o.epoch < a.locked_until
      → login_against sha256 o credential any_stored ip any_kind s
        ≡ (s, locked (a.locked_until - o.epoch))
  unfolding login_against login_gate
  login_while_locked o credential any_stored any_kind s a e le lt =
      rw (gate_locked o.epoch s a e le lt)

  -- From a state with no failures of a client and one row for each other, five wrong logins of it, by password
  -- or PIN, each within an hour of the one before, at times to which 30 seconds can be added in 64 bits,
  -- lock it out: until 30 seconds after the last, a login with any password and
  -- one with any PIN of six digits are refused, also the right ones, with the seconds left, and nothing
  -- changes. A PIN of another form does not come to this test.
  pub lockout_arms :
      (first : Attempt) (attempts : List Attempt) (s : AuthState)
      → IsMap s.failed_logins
      → attempts_of ip s ≡ none
      → length attempts ≡ 4
      → AllWrong s.salt s.password_hash s.pin_hash (first ∷ attempts)
      → first.0.epoch + 30 < 2 ^ 64
      → Timely first.0.epoch attempts
      → (o : Outside) (any_password any_pin : List ℕ) → validate_pin any_pin ≡ true
      → o.epoch < last_epoch first.0.epoch attempts + 30
      → (login_password sha256 o any_password ip (after (first ∷ attempts) s)
          ≡ (after (first ∷ attempts) s, locked (last_epoch first.0.epoch attempts + 30 - o.epoch)))
        × (login_pin sha256 o any_pin ip (after (first ∷ attempts) s) ≡ (
          after (first ∷ attempts) s,
          locked (last_epoch first.0.epoch attempts + 30 - o.epoch),
        ))
  unfolding login_password login_pin
  lockout_arms first attempts s m e four wrong fits timely o any_password any_pin valid early =
      let start = gate_none first.0.epoch s e in
      let s1 = record_failed_login ip first.0.epoch s in
      let one = first-HasFailed first.0.epoch s m e fits in
      let h =
        after-HasFailed attempts 1 first.0.epoch s1 one (omega arith)
          (unfold record_failed_login in wrong.1) timely in
      let same : after (first ∷ attempts) s ≡ after attempts s1 =
        unfold after in ap (after attempts) (login_wrong first s start wrong.0) in
      let until : h.row.locked_until ≡ last_epoch first.0.epoch attempts + 30 =
        h.until (omega arith) in
      rw (same, valid, ← until)
        (
          login_while_locked o any_password (after attempts s1).password_hash password
              (after attempts s1) h.row h.stored (omega (arith, h.counted)) (omega (arith, until)),
          login_while_locked o any_pin (after attempts s1).pin_hash pin (after attempts s1) h.row
              h.stored (omega (arith, h.counted)) (omega (arith, until)),
        )

module _ (sha256 : List ℕ → List ℕ) (ip other : List ℕ) (o : Outside) (credential : List ℕ)
    (stored : Option (List ℕ)) (kind : CredentialKind) {a : LoginAttempt}
    (early : o.epoch < a.locked_until) (ne : other ≢ ip) where
  row_kept :
      (s : AuthState)
      → IsMap s.failed_logins
      → attempts_of ip s ≡ some a
      → attempts_of ip (record_failed_login other o.epoch s) ≡ some a
  row_kept s m e =
      lookup-record_failed_login_ne other ip o.epoch s m ne
      ∙ rw e (unfold is_recent in ground arith)

  row_kept_remove :
      (s : AuthState)
      → attempts_of ip s ≡ some a
      → lookup ip (remove other s.failed_logins) ≡ some a
  row_kept_remove s e = lookup-remove other ip s.failed_logins ∙ ground (arith, str_eq_iff other ip)

  row_kept_gate :
      (s' s : AuthState)
      → IsMap s'.failed_logins
      → attempts_of ip s' ≡ some a
      → attempts_of ip (login_gate sha256 o credential stored other kind (passed s') s).0 ≡ some a
  unfolding login_gate
  row_kept_gate s' s m e =
      elim (Bool-cases (is_stored stored (iterated_hash sha256 s'.salt credential))) [
        | inl right ↦ rw right (row_kept_remove s' e)
        | inr wrong ↦ rw wrong (row_kept s' m e)
      ]

  -- What another client does never shortens a lockout: while a client is locked out, its row stays
  -- as it is through any login of another address, right, wrong or refused.
  pub lockout_is_kept :
      (s : AuthState)
      → IsMap s.failed_logins
      → attempts_of ip s ≡ some a
      → attempts_of ip (login_against sha256 o credential stored other kind s).0 ≡ some a
  unfolding login_against
  lockout_is_kept s m e = elim (gate-cases other o.epoch s) [
    | inl (n, shut) ↦ rw shut (unfold login_gate in e)
    | inr (inl unlocked) ↦ rw unlocked (row_kept_gate s s m e)
    | inr (inr lapsed) ↦ rw lapsed (
        row_kept_gate (clear_failures other s) s (remove-IsMap other s.failed_logins m)
          (row_kept_remove s e))
  ]
