-- ===== src/Agent/Cache/Fresh.antt =====
-- What the answers of a source are worth, and how a source comes back after failures.
use mu5250_open_ui.Base.{
  ℕ, ◌+◌, ◌-◌, ◌≤◌, ◌≡◌, ◌⊎◌, inl, inr, refl, true, false, ◌||◌, Option, none, some, List, [], ◌∷◌,
  le→leb, ltb_false→le, arith, Bool-cases,
}
use mu5250_open_ui.Base.Results.{Result, ok, err}
use mathlib.Core.Option
use mu5250_open_ui.Agent.Cache.{
  Observation, Readings, unobserved, is_some, older, due, attempt, sample, refreshed, read,
  invalidate,
}
use mu5250_open_ui.Agent.Cache.Rate.{reads, reads-due, reads-early}

-- The attempts that were made, the last one first: the readings of the call and what the refresh gave.
abbrev pub Log : Type 0 → Type 0
Log T = List (Readings × Result (List ℕ) T)

-- A call of a source.
pub data Call (T : Type 0) : Type 0 where
  reads_it : Readings → Result (List ℕ) T → Call T
  invalidates : Call T

-- A refresh that gives `result`, with the attempt in the log.
abbrev pub logged : {T : Type 0} → Readings → Result (List ℕ) T → Log T → Result (List ℕ) T × Log T
logged r result log = (result, (r, result) ∷ log)

-- What the calls leave, and the attempts that they made.
unfoldable pub after :
    {T : Type 0} → ℕ → List (Call T) → Observation T → Log T → Observation T × Log T
after ttl [] o log = (o, log)
after ttl (reads_it r result ∷ calls) o log =
    let (_, o', log') = read ttl r (logged r result) o log in after ttl calls o' log'
after ttl (invalidates ∷ calls) o log = after ttl calls (invalidate o) log

-- A source tells what the attempts gave: the value and the times of the last one, if it succeeded, the
-- error of the last one, if it failed, and nothing before the first one.
abbrev pub Tells : {T : Type 0} → Observation T → Log T → Type 0
Tells o [] = (o.value ≡ none) × (o.sampled ≡ none) × (o.error ≡ none)
Tells o ((r, ok v) ∷ log) =
    (o.value ≡ some v)
    × (o.sampled ≡ some r.sampled)
    × (o.sampled_unix_ms ≡ some r.unix_ms)
    × (o.error ≡ none)
Tells o ((r, err e) ∷ log) = o.error ≡ some e

invalidate-Tells :
    {T : Type 0} (o : Observation T) (log : Log T) → Tells o log → Tells (invalidate o) log
unfolding invalidate
invalidate-Tells o [] h = h
invalidate-Tells o ((r, ok v) ∷ log) h = h
invalidate-Tells o ((r, err e) ∷ log) h = h

attempt-Tells :
    {T : Type 0} (r : Readings) (result : Result (List ℕ) T) (o : Observation T) (log : Log T)
    → Tells (attempt r result o) ((r, result) ∷ log)
unfolding attempt
attempt-Tells r (ok v) o log = (refl, refl, refl, refl)
attempt-Tells r (err e) o log = refl

refreshed-Tells :
    {T : Type 0} (ttl : ℕ) (r : Readings) (result : Result (List ℕ) T) (o : Observation T)
    (log : Log T)
    → Tells o log
    → Tells (refreshed ttl r (logged r result) o log).0 (refreshed ttl r (logged r result) o log).1
unfolding refreshed
refreshed-Tells ttl r result o log h = elim (Bool-cases (due ttl r.checked o.attempted)) [
  | inl t ↦ rw t (attempt-Tells r result o log)
  | inr f ↦ rw f h
]

after-Tells :
    {T : Type 0} (ttl : ℕ) (calls : List (Call T)) (o : Observation T) (log : Log T)
    → Tells o log
    → Tells (after ttl calls o log).0 (after ttl calls o log).1
unfolding after read
after-Tells ttl [] o log h = h
after-Tells ttl (reads_it r result ∷ calls) o log h =
    after-Tells ttl calls (refreshed ttl r (logged r result) o log).0
      (refreshed ttl r (logged r result) o log).1 (refreshed-Tells ttl r result o log h)
after-Tells ttl (invalidates ∷ calls) o log h =
    after-Tells ttl calls (invalidate o) log (invalidate-Tells o log h)

-- The last attempt succeeded with this value, and `now` is at most a TTL after it.
abbrev pub IsCurrent : {T : Type 0} → ℕ → ℕ → Option T → Log T → Type 0
IsCurrent ttl now value [] = ⊥
IsCurrent ttl now value ((r, ok v) ∷ log) = (value ≡ some v) × (now - r.sampled ≤ ttl)
IsCurrent ttl now value ((r, err e) ∷ log) = ⊥

current :
    {T : Type 0} (ttl now : ℕ) (o : Observation T) (log : Log T)
    → Tells o log
    → (is_some o.error || older ttl (Option.map (λ at. now - at) o.sampled)) ≡ false
    → IsCurrent ttl now o.value log
current ttl now o [] (_, sampled, error) fresh = cc (rw (error, sampled) at fresh)
current ttl now o ((r, ok v) ∷ log) (value, sampled, _, error) fresh =
    (value, ltb_false→le ttl (now - r.sampled) (rw (error, sampled) at fresh))
current ttl now o ((r, err e) ∷ log) error fresh = cc (rw error at fresh)

-- After any reads and invalidations of a new source, whatever the refreshes give, an answer that is not
-- marked stale has the value of the last attempt to refresh, which succeeded, and comes at most a TTL
-- after the value was read.
pub read-IsCurrent :
    {T : Type 0} (ttl : ℕ) (calls : List (Call T)) (r : Readings) (result : Result (List ℕ) T)
    → (read ttl r
        (logged r result)
        (after ttl calls unobserved []).0
        (after ttl calls unobserved []).1).0.freshness.stale
      ≡ false
    → IsCurrent ttl r.answered
        (read ttl r
          (logged r result)
          (after ttl calls unobserved []).0
          (after ttl calls unobserved []).1).0.value
        (read ttl r
          (logged r result)
          (after ttl calls unobserved []).0
          (after ttl calls unobserved []).1).2
unfolding read sample
read-IsCurrent ttl calls r result fresh =
    let o = (after ttl calls unobserved []).0 in
    let log = (after ttl calls unobserved []).1 in
    let told = after-Tells ttl calls unobserved [] (refl, refl, refl) in
    current ttl r.answered (refreshed ttl r (logged r result) o log).0
      (refreshed ttl r (logged r result) o log).1 (refreshed-Tells ttl r result o log told) fresh

-- Every refresh would succeed.
abbrev pub Succeeds : {T : Type 0} → List (Readings × Result (List ℕ) T) → Type 0
Succeeds {T} [] = Unit {0}
Succeeds {T} ((r, result) ∷ rs) = ((v : T) × (result ≡ ok v)) × Succeeds rs

-- One of the reads comes a TTL after `at`.
abbrev pub HasLate : {T : Type 0} → ℕ → ℕ → List (Readings × Result (List ℕ) T) → Type 0
HasLate ttl at [] = ⊥
HasLate ttl at ((r, result) ∷ rs) = (at + ttl ≤ r.checked) ⊎ HasLate ttl at rs

abbrev IsWell : {T : Type 0} → Observation T → Type 0
IsWell o = (o.error ≡ none) × (is_some o.value ≡ true)

due_late :
    (ttl now at : ℕ) (attempted : Option ℕ)
    → attempted ≡ some at
    → at + ttl ≤ now
    → due ttl now attempted ≡ true
due_late ttl now at attempted e h = rw e (unfold due in le→leb ttl (now - at) (omega arith))

module _ {T : Type 0} (ttl : ℕ) where
  attempt-IsWell :
      (r : Readings) (result : Result (List ℕ) T) (o : Observation T)
      → (v : T) × (result ≡ ok v)
      → IsWell (attempt r result o)
  unfolding attempt
  attempt-IsWell r (ok value) o h = (refl, refl)
  attempt-IsWell r (err e) o (v, h) = cc

  reads-IsWell :
      (rs : List (Readings × Result (List ℕ) T)) (o : Observation T) (n : ℕ)
      → Succeeds rs
      → IsWell o
      → IsWell (reads ttl rs o n).0
  reads-IsWell [] o n all h = unfold reads in h
  reads-IsWell ((r, result) ∷ rs) o n all h = elim (Bool-cases (due ttl r.checked o.attempted)) [
    | inl t ↦
        rw (reads-due ttl r result rs o n t)
          (reads-IsWell rs (attempt r result o) _ all.1 (attempt-IsWell r result o all.0))
    | inr f ↦ rw (reads-early ttl r result rs o n f) (reads-IsWell rs o n all.1 h)
  ]

  -- After any number of failures, once refreshes would succeed again, the reads have cleared the error
  -- and have a value as soon as one of them comes a TTL after the last attempt.
  pub reads_recover :
      (rs : List (Readings × Result (List ℕ) T)) (o : Observation T) (at n : ℕ)
      → o.attempted ≡ some at
      → Succeeds rs
      → HasLate ttl at rs
      → ((reads ttl rs o n).0.error ≡ none) × (is_some (reads ttl rs o n).0.value ≡ true)
  reads_recover [] o at n e all h = absurd h
  reads_recover ((r, result) ∷ rs) o at n e all h =
      elim (Bool-cases (due ttl r.checked o.attempted)) [
        | inl t ↦
            rw (reads-due ttl r result rs o n t)
              (reads-IsWell rs (attempt r result o) _ all.1 (attempt-IsWell r result o all.0))
        | inr f ↦ rw (reads-early ttl r result rs o n f) (
            reads_recover rs o at n e all.1 (elim h [
              | inl late ↦ cc (due_late ttl r.checked at o.attempted e late)
              | inr later ↦ later
            ]))
      ]
