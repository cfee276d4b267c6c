-- ===== src/Agent/Auth.antt =====
-- agent/src/auth.rs: logins against salted hashes, lockout by client address, and sliding sessions.
-- Each method returns the new state. The clocks and the random bytes are arguments: `epoch` is
-- `epoch_secs()`, `instant` is `Instant::now()` in nanoseconds, `random` is what /dev/urandom gave.
-- SHA-256 comes from a crate and is a parameter. The methods are modelled as they run one at a time.
mod Attempts
mod Lockout
mod Sessions
mod Invariant
mod Tests
use mu5250_open_ui.Base.{
  ℕ, zero, suc, ◌+◌, ◌-◌, ◌*◌, ◌/◌, ◌%◌, ◌^◌, Bool, true, false, not, ◌&&◌, ◌||◌, Option, none,
  some, List, [], ◌∷◌, ◌++◌, length, take, bit_and, ltb, leb, ◌==◌, if◌then◌else◌,
}
use mu5250_open_ui.Base.Strings.{str_eq, lookup, remove, retain, insert}

abbrev pub token_ttl : ℕ
token_ttl = 3600 * 1_000_000_000

abbrev pub max_tokens : ℕ
max_tokens = 10

abbrev pub hash_iterations : ℕ
hash_iterations = 10_000

abbrev pub max_login_attempts : ℕ
max_login_attempts = 5

abbrev pub login_lockout_secs : ℕ
login_lockout_secs = 30

abbrev pub login_attempt_ttl_secs : ℕ
login_attempt_ttl_secs = 3600

pub data CredentialKind : Type 0 where
  password pin : CredentialKind

pub record Token : Type 0 where
  pub value : List ℕ
  pub expires : ℕ
  pub kind : CredentialKind

pub record LoginAttempt : Type 0 where
  pub count : ℕ
  pub locked_until : ℕ
  pub last_attempt : ℕ

pub record AuthState : Type 0 where
  pub password_hash : Option (List ℕ)
  pub pin_hash : Option (List ℕ)
  pub salt : List ℕ
  pub tokens : List Token
  pub failed_logins : List (List ℕ × LoginAttempt)

pub data LoginResult : Type 0 where
  ok : List ℕ → LoginResult
  invalid : LoginResult
  locked : ℕ → LoginResult

-- The characters of `LUT`.
unfoldable pub hex_digit : ℕ → ℕ
hex_digit n = if ltb n 10 then b'0' + n else b'a' + (n - 10)

unfoldable pub hex_encode : List ℕ → List ℕ
unfolding hex_digit
hex_encode [] = []
hex_encode (b ∷ bytes) = hex_digit (b / 16) ∷ hex_digit (bit_and b 0x0f) ∷ hex_encode bytes

unfoldable pub all_digits : List ℕ → Bool
all_digits [] = true
all_digits (b ∷ bs) = (leb b'0' b && leb b b'9') && all_digits bs

-- `Ok` is true. The length of a `&str` is its number of bytes.
unfoldable pub validate_pin : List ℕ → Bool
unfolding all_digits
validate_pin credential = length credential == 6 && all_digits credential

-- `u64::to_le_bytes`
unfoldable pub le_bytes : ℕ → ℕ → List ℕ
le_bytes zero n = []
le_bytes (suc count) n = n % 256 ∷ le_bytes count (n / 256)

-- `tokens.retain(|t| t.expires > now)`
unfoldable pub live_tokens : ℕ → List Token → List Token
live_tokens now [] = []
live_tokens now (t ∷ ts) =
    let rest = live_tokens now ts in if ltb now t.expires then t ∷ rest else rest

-- `tokens.remove(0)`
abbrev pub remove_first : List Token → List Token
remove_first [] = []
remove_first (t ∷ ts) = ts

unfoldable pub push_token : ℕ → Token → List Token → List Token
push_token now t tokens =
    let live = live_tokens now tokens in
    let room = if leb max_tokens (length live) then remove_first live else live in room ++ (t ∷ [])

-- `u64` and `u32` sums keep their low bits.
abbrev pub add_u64 : ℕ → ℕ → ℕ
add_u64 a b = (a + b) % 2 ^ 64

-- The rows that `record_failed_login` keeps: still locked, or a failure within the last hour.
unfoldable pub is_recent : ℕ → LoginAttempt → Bool
is_recent now a = ltb now a.locked_until || ltb (now - a.last_attempt) login_attempt_ttl_secs

abbrev pub or_new : ℕ → Option LoginAttempt → LoginAttempt
or_new now none = record { count = 0; locked_until = 0; last_attempt = now }
or_new now (some a) = a

unfoldable pub failed : ℕ → LoginAttempt → LoginAttempt
failed now entry =
    let count = (entry.count + 1) % 2 ^ 32 in
    record {
      count = count;
      last_attempt = now;
      locked_until =
          if leb max_login_attempts count
          then add_u64 now login_lockout_secs
          else entry.locked_until;
    }

unfoldable pub record_failed_login : List ℕ → ℕ → AuthState → AuthState
record_failed_login ip now s =
    let attempts = retain (is_recent now) s.failed_logins in
    record s { failed_logins = insert ip (failed now (or_new now (lookup ip attempts))) attempts }

abbrev pub clear_failures : List ℕ → AuthState → AuthState
clear_failures ip s = record s { failed_logins = remove ip s.failed_logins }

-- The first block of `login_against`: the rest of a lockout, or the state in which to go on.
pub data Gate : Type 0 where
  refused : ℕ → Gate
  passed : AuthState → Gate

unfoldable pub lockout_gate : List ℕ → ℕ → AuthState → Gate
lockout_gate ip now s = elim (lookup ip s.failed_logins) [
  | none ↦ passed s
  | some attempt ↦
      if leb max_login_attempts attempt.count
      then (if ltb now attempt.locked_until
          then refused (attempt.locked_until - now)
          else passed (clear_failures ip s))
      else passed s
]

-- `stored.as_deref() == Some(&hash)`
unfoldable pub is_stored : Option (List ℕ) → List ℕ → Bool
is_stored none hash = false
is_stored (some h) hash = str_eq h hash

-- What one login reads from outside: the clocks and the random bytes.
pub record Outside : Type 0 where
  pub epoch : ℕ
  pub instant : ℕ
  pub random : List ℕ

module _ (sha256 : List ℕ → List ℕ) where
  unfoldable pub hash_loop : ℕ → List ℕ → List ℕ → List ℕ
  hash_loop zero salt digest = digest
  hash_loop (suc n) salt digest = hash_loop n salt (sha256 (salt ++ digest))

  pub iterated_hash : List ℕ → List ℕ → List ℕ
  iterated_hash salt credential =
      hex_encode (hash_loop (hash_iterations - 1) salt (sha256 (salt ++ credential)))

  -- The session token: 16 bytes of a digest over the random bytes, the hash and the time.
  pub new_token : Outside → List ℕ → List ℕ
  new_token o hash = hex_encode (take 16 (sha256 ((o.random ++ hash) ++ le_bytes 8 o.epoch)))

  unfoldable pub login_gate :
      Outside
      → List ℕ
      → Option (List ℕ)
      → List ℕ
      → CredentialKind
      → Gate
      → AuthState
      → AuthState × LoginResult
  login_gate o credential stored ip kind (refused secs) s = (s, locked secs)
  login_gate o credential stored ip kind (passed s') s =
      let hash = iterated_hash s'.salt credential in
      if not (is_stored stored hash)
      then (record_failed_login ip o.epoch s', invalid)
      else let token = new_token o hash in
        let t : Token = record { value = token; expires = o.instant + token_ttl; kind = kind } in
        (
          record s' {
            failed_logins = remove ip s'.failed_logins;
            tokens = push_token o.instant t s'.tokens;
          },
          ok token,
        )

  unfoldable pub login_against :
      Outside
      → List ℕ
      → Option (List ℕ)
      → List ℕ
      → CredentialKind
      → AuthState
      → AuthState × LoginResult
  login_against o credential stored ip kind s =
      login_gate o credential stored ip kind (lockout_gate ip o.epoch s) s

  unfoldable pub login_password : Outside → List ℕ → List ℕ → AuthState → AuthState × LoginResult
  login_password o credential ip s = login_against o credential s.password_hash ip password s

  unfoldable pub login_pin : Outside → List ℕ → List ℕ → AuthState → AuthState × LoginResult
  login_pin o credential ip s =
      if not (validate_pin credential)
      then (record_failed_login ip o.epoch s, invalid)
      else login_against o credential s.pin_hash ip pin s

  unfoldable pub set_password : List ℕ → AuthState → AuthState
  set_password credential s = record s { password_hash = some (iterated_hash s.salt credential) }

  -- `Err` is the unchanged state and false.
  unfoldable pub set_pin : List ℕ → AuthState → AuthState × Bool
  set_pin credential s =
      if validate_pin credential
      then (record s { pin_hash = some (iterated_hash s.salt credential) }, true)
      else (s, false)

-- `iter_mut().find(..)`, and the new expiry of the token found.
unfoldable pub slide : List ℕ → ℕ → List Token → List Token × Option CredentialKind
slide value expires [] = ([], none)
slide value expires (t ∷ ts) =
    let (ts', found) = slide value expires ts in
    if str_eq t.value value
    then (record t { expires = expires } ∷ ts, some t.kind)
    else (t ∷ ts', found)

unfoldable pub validate : ℕ → List ℕ → AuthState → AuthState × Option CredentialKind
validate now value s =
    let (tokens, found) = slide value (now + token_ttl) (live_tokens now s.tokens) in
    (record s { tokens = tokens }, found)
