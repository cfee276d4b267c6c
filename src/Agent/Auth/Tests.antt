-- ===== src/Agent/Auth/Tests.antt =====
-- Runs of the login and session methods, and the theorems at concrete states. SHA-256 is replaced
-- by a constant function, which the theorems allow.
use mu5250_open_ui.Base.{ℕ, ◌+◌, ◌-◌, ◌≤◌, ◌≡◌, refl, none, some, List, [], ◌∷◌, arith}
use mu5250_open_ui.Base.Strings.{str_eq, str_eq_self, lookup}
use mu5250_open_ui.Base.Texts.{codes}
use mu5250_open_ui.Agent.Auth.{
  AuthState, LoginAttempt, Outside, Token, LoginResult, ok, locked, CredentialKind, password, pin,
  validate_pin, login_password, login_pin, login_against, login_gate, lockout_gate, new_token,
  hex_encode, validate, slide, live_tokens, is_stored, iterated_hash,
}
use mu5250_open_ui.Agent.Auth.Attempts.{attempts_of}
use mu5250_open_ui.Agent.Auth.Lockout.{Attempt, lockout_arms, after}
use mu5250_open_ui.Agent.Auth.Sessions.{
  validate_sound, HasSession, login_sound, login_opens_session,
}
use mu5250_open_ui.Agent.Auth.Invariant.{IsValid, Call, after_calls, after_calls-IsValid}

abbrev sha : List ℕ → List ℕ
sha bytes = 1 ∷ []

abbrev ip : List ℕ
ip = 10 ∷ 0 ∷ 0 ∷ 7 ∷ []

abbrev other_ip : List ℕ
other_ip = 10 ∷ 0 ∷ 0 ∷ 8 ∷ []

abbrev at : ℕ → Outside
at epoch = record { epoch = epoch; instant = epoch; random = [] }

-- No password is set, so every login fails.
abbrev fresh : AuthState
fresh = record {
  password_hash = none;
  pin_hash = none;
  salt = 5 ∷ [];
  tokens = [];
  failed_logins = [];
}

abbrev guess : ℕ → CredentialKind → Attempt
guess epoch kind = (at epoch, kind, 1 ∷ [])

abbrev five : List Attempt
five =
    guess 10 password
    ∷ (guess 11 pin ∷ (guess 12 password ∷ (guess 13 password ∷ (guess 14 password ∷ []))))

lockout_arms_example :
    (login_password sha (at 30) (2 ∷ []) ip (after sha ip five fresh)
      ≡ (after sha ip five fresh, locked (14 + 30 - 30)))
    × (login_pin sha (at 30) (codes "123456") ip (after sha ip five fresh)
        ≡ (after sha ip five fresh, locked (14 + 30 - 30)))
lockout_arms_example =
    lockout_arms sha ip (guess 10 password)
      (guess 11 pin ∷ (guess 12 password ∷ (guess 13 password ∷ (guess 14 password ∷ [])))) fresh tt
      (unfold lookup in refl) refl (unfold is_stored in (refl, (refl, (refl, (refl, (refl, tt))))))
      (omega arith) (omega arith) (at 30) (2 ∷ []) (codes "123456") (unfold validate_pin in refl)
      (omega arith)

abbrev locked_out : AuthState
locked_out = record fresh {
  failed_logins = (ip, record { count = 5; locked_until = 44; last_attempt = 14 }) ∷ [];
}

abbrev open_session : Token
open_session = record { value = 7 ∷ []; expires = 100; kind = password }

abbrev with_session : AuthState
with_session = record fresh { tokens = open_session ∷ [] }

session_accepted : (validate 50 (7 ∷ []) with_session).1 ≡ some password
unfolding validate slide live_tokens str_eq
session_accepted = refl

session_expired : (validate 100 (7 ∷ []) with_session).1 ≡ none
unfolding validate slide live_tokens str_eq
session_expired = refl

validate_sound_example : HasSession 50 (7 ∷ []) password with_session.tokens
validate_sound_example = validate_sound 50 (7 ∷ []) with_session password session_accepted

abbrev registered : AuthState
registered = record fresh { password_hash = some (iterated_hash sha (5 ∷ []) (1 ∷ [])) }

abbrev enter : AuthState × LoginResult
enter = login_against sha (at 10) (1 ∷ []) registered.password_hash ip password registered

-- The token of that login: two hex digits, since the stand-in for SHA-256 returns one byte.
entered : enter.1 ≡ ok (b'0' ∷ b'1' ∷ [])
unfolding login_against login_gate lockout_gate lookup is_stored new_token hex_encode
entered = rw (str_eq_self (iterated_hash sha (5 ∷ []) (1 ∷ [])))

login_sound_example :
    (registered.password_hash ≡ some (iterated_hash sha (5 ∷ []) (1 ∷ [])))
    × ((a : LoginAttempt) → attempts_of ip registered ≡ some a → 5 ≤ a.count → a.locked_until ≤ 10)
    × (attempts_of ip enter.0 ≡ none)
login_sound_example =
    login_sound sha (at 10) (1 ∷ []) registered.password_hash ip password registered
      (b'0' ∷ b'1' ∷ []) entered

login_opens_session_example : (validate 2000 (b'0' ∷ b'1' ∷ []) enter.0).1 ≡ some password
login_opens_session_example =
    login_opens_session sha (at 10) (1 ∷ []) registered.password_hash ip password registered
      (b'0' ∷ b'1' ∷ []) 2000 entered tt (omega arith)

after_calls-IsValid_example : IsValid (
    after_calls sha
      (Call.set_password (1 ∷ []) ∷ Call.login_password (at 10) (1 ∷ []) ip ∷ [])
      fresh)
after_calls-IsValid_example =
    after_calls-IsValid sha
      (Call.set_password (1 ∷ []) ∷ Call.login_password (at 10) (1 ∷ []) ip ∷ []) fresh
      (record { sessions = omega arith; rows = tt })
