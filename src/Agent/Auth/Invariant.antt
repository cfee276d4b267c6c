-- ===== src/Agent/Auth/Invariant.antt =====
-- What holds of the state after any calls of the methods.
use mu5250_open_ui.Base.{
  ℕ, ◌+◌, ◌≤◌, ◌≡◌, refl, Option, List, [], ◌∷◌, length, arith, Bool-cases, inl, inr,
}
use mu5250_open_ui.Base.Strings.{IsMap, remove-IsMap, retain-IsMap, insert-IsMap}
use mu5250_open_ui.Agent.Auth
use mu5250_open_ui.Agent.Auth.{
  AuthState, Token, LoginResult, Outside, Gate, refused, passed, CredentialKind, lockout_gate,
  login_gate, login_against, is_stored, iterated_hash, is_recent, record_failed_login,
  clear_failures, live_tokens, slide, validate_pin, max_tokens,
}
use mu5250_open_ui.Agent.Auth.Attempts.{gate-cases}
use mu5250_open_ui.Agent.Auth.Sessions.{length-push_token, length-live_tokens}

-- The methods of `AuthState` with their arguments.
pub data Call : Type 0 where
  login_password login_pin : Outside → List ℕ → List ℕ → Call
  set_password set_pin : List ℕ → Call
  validate : ℕ → List ℕ → Call

-- At most ten sessions, and one row for each client.
pub record IsValid (s : AuthState) : Type 0 where
  pub sessions : length s.tokens ≤ max_tokens
  pub rows : IsMap s.failed_logins

record_failed_login-IsValid :
    (ip : List ℕ) (now : ℕ) (s : AuthState) → IsValid s → IsValid (record_failed_login ip now s)
unfolding record_failed_login
record_failed_login-IsValid ip now s v = record {
  sessions = v.sessions;
  rows = insert-IsMap ip _ _ (retain-IsMap (is_recent now) s.failed_logins v.rows);
}

length-slide : (value : List ℕ) (e : ℕ) (ts : List Token) → length (slide value e ts).0 ≡ length ts
unfolding slide
length-slide value e [] = refl
length-slide value e (t ∷ ts) = ground (arith, length-slide value e ts)

validate-IsValid :
    (now : ℕ) (value : List ℕ) (s : AuthState) → IsValid s → IsValid (Auth.validate now value s).0
unfolding Auth.validate
validate-IsValid now value s v = record {
  sessions = omega (
    arith,
    v.sessions,
    length-slide value (now + Auth.token_ttl) (live_tokens now s.tokens),
    length-live_tokens now s.tokens,
  );
  rows = v.rows;
}

module _ (sha256 : List ℕ → List ℕ) where
  module _ (o : Outside) (credential : List ℕ) (stored : Option (List ℕ)) (ip : List ℕ)
      (kind : CredentialKind) where
    gate-IsValid :
        (s' s : AuthState)
        → IsValid s'
        → IsValid (login_gate sha256 o credential stored ip kind (passed s') s).0
    unfolding login_gate
    gate-IsValid s' s v =
        elim (Bool-cases (is_stored stored (iterated_hash sha256 s'.salt credential))) [
          | inl right ↦ rw right (record {
            sessions = length-push_token o.instant _ s'.tokens v.sessions;
            rows = remove-IsMap ip s'.failed_logins v.rows;
          })
          | inr wrong ↦ rw wrong (record_failed_login-IsValid ip o.epoch s' v)
        ]

    login_against-IsValid :
        (s : AuthState) → IsValid s → IsValid (login_against sha256 o credential stored ip kind s).0
    unfolding login_against
    login_against-IsValid s v = elim (gate-cases ip o.epoch s) [
      | inl (n, shut) ↦ rw shut (unfold login_gate in v)
      | inr (inl unlocked) ↦ rw unlocked (gate-IsValid s s v)
      | inr (inr lapsed) ↦ rw lapsed (
          gate-IsValid (clear_failures ip s) s
            (record { sessions = v.sessions; rows = remove-IsMap ip s.failed_logins v.rows }))
    ]

  login_pin-IsValid :
      (o : Outside) (c ip : List ℕ) (s : AuthState)
      → IsValid s
      → IsValid (Auth.login_pin sha256 o c ip s).0
  unfolding Auth.login_pin
  login_pin-IsValid o c ip s v = elim (Bool-cases (validate_pin c)) [
    | inl good ↦ rw good (login_against-IsValid o c s.pin_hash ip CredentialKind.pin s v)
    | inr bad ↦ rw bad (record_failed_login-IsValid ip o.epoch s v)
  ]

  set_pin-IsValid : (c : List ℕ) (s : AuthState) → IsValid s → IsValid (Auth.set_pin sha256 c s).0
  unfolding Auth.set_pin
  set_pin-IsValid c s v = elim (Bool-cases (validate_pin c)) [
    | inl good ↦ rw good (record { sessions = v.sessions; rows = v.rows })
    | inr bad ↦ rw bad v
  ]

  -- The state after one call.
  pub after_call : Call → AuthState → AuthState
  after_call (Call.login_password o c ip) s = (Auth.login_password sha256 o c ip s).0
  after_call (Call.login_pin o c ip) s = (Auth.login_pin sha256 o c ip s).0
  after_call (Call.set_password c) s = Auth.set_password sha256 c s
  after_call (Call.set_pin c) s = (Auth.set_pin sha256 c s).0
  after_call (Call.validate now value) s = (Auth.validate now value s).0

  pub after_calls : List Call → AuthState → AuthState
  after_calls [] s = s
  after_calls (c ∷ cs) s = after_calls cs (after_call c s)

  after_call-IsValid : (c : Call) (s : AuthState) → IsValid s → IsValid (after_call c s)
  unfolding after_call
  after_call-IsValid (Call.login_password o c ip) s v =
      unfold Auth.login_password in
      login_against-IsValid o c s.password_hash ip CredentialKind.password s v
  after_call-IsValid (Call.login_pin o c ip) s v = login_pin-IsValid o c ip s v
  after_call-IsValid (Call.set_password c) s v =
      unfold Auth.set_password in record { sessions = v.sessions; rows = v.rows }
  after_call-IsValid (Call.set_pin c) s v = set_pin-IsValid c s v
  after_call-IsValid (Call.validate now value) s v = validate-IsValid now value s v

  -- However often and in whatever order the methods are called, from a state with at most ten
  -- sessions and one row for each client there are never more than ten sessions, nor two rows for
  -- one client.
  pub after_calls-IsValid :
      (calls : List Call) (s : AuthState) → IsValid s → IsValid (after_calls calls s)
  unfolding after_calls
  after_calls-IsValid [] s v = v
  after_calls-IsValid (c ∷ cs) s v =
      after_calls-IsValid cs (after_call c s) (after_call-IsValid c s v)
