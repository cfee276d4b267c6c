-- ===== src/Agent/Auth/Attempts.antt =====
-- The rows of failed logins: what a failed login and the gate before a login do to them.
use mu5250_open_ui.Base.{
  ℕ, suc, ◌+◌, ◌-◌, ◌^◌, ◌≤◌, ◌<◌, ◌≡◌, ◌≢◌, ◌⊎◌, ◌∙◌, Bool, true, Option, none, some, List, arith,
  ltb, leb, if◌then◌else◌, Bool-cases, Option-cases, inl, inr,
}
use mu5250_open_ui.Base.Strings.{
  str_eq_self, str_eq_iff, lookup, retain, IsMap, insert-IsMap, retain-IsMap, lookup-insert,
  lookup-retain, keep,
}
use mu5250_open_ui.Agent.Auth.{
  AuthState, LoginAttempt, refused, passed, lockout_gate, record_failed_login, failed, is_recent,
  or_new, clear_failures,
}

abbrev pub attempts_of : List ℕ → AuthState → Option LoginAttempt
attempts_of ip s = lookup ip s.failed_logins

-- What `record_failed_login` writes in a client's row.
pub lookup-record_failed_login :
    (ip : List ℕ) (now : ℕ) (s : AuthState)
    → IsMap s.failed_logins
    → attempts_of ip (record_failed_login ip now s)
      ≡ some (failed now (or_new now (keep (is_recent now) (attempts_of ip s))))
unfolding record_failed_login
lookup-record_failed_login ip now s m =
    lookup-insert ip ip _ (retain (is_recent now) s.failed_logins)
    ∙ rw (str_eq_self ip, lookup-retain (is_recent now) ip s.failed_logins m)

-- A failed login of one client leaves the rows of the others, but for those that have lapsed.
pub lookup-record_failed_login_ne :
    (ip other : List ℕ) (now : ℕ) (s : AuthState)
    → IsMap s.failed_logins
    → ip ≢ other
    → attempts_of other (record_failed_login ip now s) ≡ keep (is_recent now) (attempts_of other s)
unfolding record_failed_login
lookup-record_failed_login_ne ip other now s m ne =
    lookup-insert ip other _ (retain (is_recent now) s.failed_logins)
    ∙ rw (lookup-retain (is_recent now) other s.failed_logins m)
        (ground (arith, str_eq_iff ip other))

-- A client with `count` failures, the last at `last`, and locked out once they are five.
pub record HasFailed (ip : List ℕ) (count last : ℕ) (s : AuthState) : Type 0 where
  pub is_map : IsMap s.failed_logins
  pub row : LoginAttempt
  pub stored : attempts_of ip s ≡ some row
  pub counted : row.count ≡ count
  pub at : row.last_attempt ≡ last
  pub until : 5 ≤ count → row.locked_until ≡ last + 30

pub failed_row :
    (now count last : ℕ) (row : LoginAttempt)
    → row.count ≡ count
    → count < 5
    → now + 30 < 2 ^ 64
    → ((failed now row).count ≡ suc count)
      × ((failed now row).last_attempt ≡ now)
      × (5 ≤ suc count → (failed now row).locked_until ≡ now + 30)
unfolding failed
failed_row now count last row c h fits = ground arith

pub record_failed_login-HasFailed :
    (ip : List ℕ) (now count last : ℕ) (s : AuthState)
    → HasFailed ip count last s
    → count < 5
    → now - last < 3600
    → now + 30 < 2 ^ 64
    → HasFailed ip (suc count) now (record_failed_login ip now s)
record_failed_login-HasFailed ip now count last s h lt recent fits =
    let (counted, at, until) = failed_row now count last h.row h.counted lt fits in
    record {
      is_map =
          unfold record_failed_login in
          insert-IsMap ip _ _ (retain-IsMap (is_recent now) s.failed_logins h.is_map);
      row = failed now h.row;
      stored =
          lookup-record_failed_login ip now s h.is_map
          ∙ rw h.stored (kept (is_recent now h.row) row_recent);
      counted = counted;
      at = at;
      until = until;
    }
  where
    row_recent : is_recent now h.row ≡ true
    row_recent = unfold is_recent in ground (arith, h.at)

    kept :
        (b : Bool)
        → b ≡ true
        → some (failed now (or_new now (if b then some h.row else none))) ≡ some (failed now h.row)
    kept b e = rw e

-- The gate refuses, lets the state through, or lets it through without the lapsed row.
pub gate-cases :
    (ip : List ℕ) (now : ℕ) (s : AuthState)
    → ((n : ℕ) × (lockout_gate ip now s ≡ refused n))
      ⊎ ((lockout_gate ip now s ≡ passed s)
          ⊎ (lockout_gate ip now s ≡ passed (clear_failures ip s)))
unfolding lockout_gate
gate-cases ip now s = elim (Option-cases (attempts_of ip s)) [
  | inl e ↦ inr (inl (rw (e, lockout_gate)))
  | inr (a, e) ↦ elim (Bool-cases (leb 5 a.count)) [
    | inr few ↦ inr (inl (rw (e, lockout_gate) (rw few)))
    | inl many ↦ elim (Bool-cases (ltb now a.locked_until)) [
      | inl early ↦ inl (a.locked_until - now, rw (e, lockout_gate) (rw (many, early)))
      | inr late ↦ inr (inr (rw (e, lockout_gate) (rw (many, late))))
    ]
  ]
]
