-- ===== src/Agent/Cache/Rate.antt =====
-- How often a source is read: reads that follow one another attempt a refresh once per TTL at most.
use mu5250_open_ui.Base.{
  ℕ, suc, ◌+◌, ◌*◌, ◌-◌, ◌≤◌, ◌≡◌, refl, ap, true, false, some, List, [], ◌∷◌, leb→le, arith, inl,
  inr, Bool-cases,
}
use native.Mathlib.Nat.{suc-mul}
use mu5250_open_ui.Base.Results.{Result, ok, err}
use mu5250_open_ui.Agent.Cache.{Observation, Readings, unobserved, due, attempt, refreshed, read}

module _ {T : Type 0} (ttl : ℕ) where
  -- Calls of `read`, each with its readings and what a refresh would give, and the number of refreshes.
  unfoldable pub reads : List (Readings × Result (List ℕ) T) → Observation T → ℕ → Observation T × ℕ
  reads [] o n = (o, n)
  reads ((r, result) ∷ rs) o n =
      let (_, o', n') = read ttl r (λ k. (result, suc k)) o n in reads rs o' n'

-- The readings do not go back.
abbrev pub IsInOrder : {T : Type 0} → ℕ → List (Readings × Result (List ℕ) T) → Type 0
IsInOrder from [] = Unit {0}
IsInOrder from ((r, result) ∷ rs) =
    (from ≤ r.checked)
    × (r.checked ≤ r.attempted)
    × (r.attempted ≤ r.answered)
    × IsInOrder r.answered rs

abbrev pub end_of : {T : Type 0} → ℕ → List (Readings × Result (List ℕ) T) → ℕ
end_of from [] = from
end_of from ((r, result) ∷ rs) = end_of r.answered rs

due-later : (ttl now at : ℕ) → due ttl now (some at) ≡ true → at ≤ now → at + ttl ≤ now
unfolding due
due-later ttl now at t h = omega (arith, leb→le ttl (now - at) t)

module _ {T : Type 0} (ttl : ℕ) where
  attempt-attempted :
      (r : Readings) (result : Result (List ℕ) T) (o : Observation T)
      → (attempt r result o).attempted ≡ some r.attempted
  unfolding attempt
  attempt-attempted r (ok value) o = refl
  attempt-attempted r (err e) o = refl

  refreshed-due :
      {W : Type 0} (r : Readings) (refresh : W → Result (List ℕ) T × W) (o : Observation T) (w : W)
      → due ttl r.checked o.attempted ≡ true
      → refreshed ttl r refresh o w ≡ (attempt r (refresh w).0 o, (refresh w).1)
  unfolding refreshed
  refreshed-due r refresh o w t = rw t

  refreshed-early :
      {W : Type 0} (r : Readings) (refresh : W → Result (List ℕ) T × W) (o : Observation T) (w : W)
      → due ttl r.checked o.attempted ≡ false
      → refreshed ttl r refresh o w ≡ (o, w)
  unfolding refreshed
  refreshed-early r refresh o w t = rw t

  module _ (r : Readings) (result : Result (List ℕ) T) (rs : List (Readings × Result (List ℕ) T))
      (o : Observation T) (n : ℕ) where
    pub reads-due :
        due ttl r.checked o.attempted ≡ true
        → reads ttl ((r, result) ∷ rs) o n ≡ reads ttl rs (attempt r result o) (suc n)
    unfolding reads read
    reads-due t = ap (λ s. reads ttl rs s.0 s.1) (refreshed-due r (λ k. (result, suc k)) o n t)

    pub reads-early :
        due ttl r.checked o.attempted ≡ false → reads ttl ((r, result) ∷ rs) o n ≡ reads ttl rs o n
    unfolding reads read
    reads-early t = ap (λ s. reads ttl rs s.0 s.1) (refreshed-early r (λ k. (result, suc k)) o n t)

  -- After an attempt, each further refresh comes a TTL later at least.
  reads-rate :
      (rs : List (Readings × Result (List ℕ) T)) (o : Observation T) (at from n : ℕ)
      → o.attempted ≡ some at
      → at ≤ from
      → IsInOrder from rs
      → (c : ℕ) × ((reads ttl rs o n).1 ≡ n + c) × (at + c * ttl ≤ end_of from rs)
  unfolding reads
  reads-rate [] o at from n e h order = (0, omega arith, omega arith)
  reads-rate ((r, result) ∷ rs) o at from n e h order =
      elim (Bool-cases (due ttl r.checked o.attempted)) [
        | inl t ↦
            let o' = attempt r result o in
            let (c, counted, bound) =
              reads-rate rs o' r.attempted r.answered (suc n) (attempt-attempted r result o) order.2
                order.3 in
            let first = due-later ttl r.checked at (rw e at t) (omega arith) in
            (
              suc c,
              rw (reads-due r result rs o n t) (omega (arith, counted)),
              omega (arith, first, suc-mul c ttl),
            )
        | inr f ↦
            let (c, counted, bound) = reads-rate rs o at r.answered n e (omega arith) order.3 in
            (c, rw (reads-early r result rs o n f) counted, bound)
      ]

  -- Reads that follow one another from the first on refresh at most once, and once more for each TTL
  -- that has passed since: `k + 1` refreshes take at least `k` TTLs, whether they fail or not.
  pub refresh_rate :
      (rs : List (Readings × Result (List ℕ) T)) (from k : ℕ)
      → IsInOrder from rs
      → (reads ttl rs unobserved 0).1 ≡ suc k
      → from + k * ttl ≤ end_of from rs
  unfolding reads read refreshed due
  refresh_rate [] from k order h = cc
  refresh_rate ((r, result) ∷ rs) from k order h =
      let o' = attempt r result unobserved in
      let (c, counted, bound) =
        reads-rate rs o' r.attempted r.answered 1 (attempt-attempted r result unobserved) order.2
          order.3 in
      let same : c ≡ k = omega (arith, counted, h) in
      omega (arith, order.0, order.1, bound, ap (λ (x : ℕ). x * ttl) same)
