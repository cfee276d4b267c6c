-- ===== src/Agent/Cache/Tests.antt =====
-- Witnesses and tests of the caches.
use mu5250_open_ui.Base.{
  ℕ, suc, ◌+◌, ◌*◌, ◌≤◌, ◌≡◌, refl, true, none, some, List, [], ◌∷◌, arith, inl, inr,
}
use mu5250_open_ui.Base.Results.{Result, ok, err}
use mu5250_open_ui.Base.Texts.{codes}
use mu5250_open_ui.Agent.Cache.{
  Observation, Readings, unobserved, is_some, get_or_refresh, read, invalidate, invalidate_slot,
}
use mu5250_open_ui.Agent.Cache.Rate.{reads, refresh_rate}
use mu5250_open_ui.Agent.Cache.Fresh.{
  Call, reads_it, invalidates, logged, after, IsCurrent, read-IsCurrent, reads_recover,
}

-- A read whose readings are all at one time.
abbrev at_time : ℕ → Readings
at_time t = record { checked = t; sampled = t; unix_ms = t; attempted = t; answered = t }

abbrev calls : List (Readings × Result (List ℕ) ℕ)
calls =
    (at_time 10, ok 1)
    ∷ ((at_time 12, ok 2) ∷ ((at_time 16, err (codes "e")) ∷ ((at_time 17, ok 3) ∷ [])))

calls_made : reads 5 calls unobserved 0 ≡ (
  record {
    attempted = some 16;
    sampled = some 10;
    sampled_unix_ms = some 10;
    value = some 1;
    error = some (codes "e");
  },
  2,
)
unfolding reads read
calls_made = refl

refresh_rate_example : 10 + 1 * 5 ≤ 17
unfolding reads read
refresh_rate_example = refresh_rate 5 calls 10 1 (omega arith) refl

abbrev failed : Observation ℕ
failed = record {
  attempted = some 16;
  sampled = some 10;
  sampled_unix_ms = some 10;
  value = some 1;
  error = some (codes "e");
}

abbrev before : List (Call ℕ)
before =
    reads_it (at_time 10) (ok 1) ∷ (reads_it (at_time 16) (err (codes "e")) ∷ (invalidates ∷ []))

read-IsCurrent_example :
    IsCurrent 5 18
      (read 5
        (at_time 18)
        (logged (at_time 18) (ok 8))
        (after 5 before unobserved []).0
        (after 5 before unobserved []).1).0.value
      (read 5
        (at_time 18)
        (logged (at_time 18) (ok 8))
        (after 5 before unobserved []).0
        (after 5 before unobserved []).1).2
unfolding read after invalidate
read-IsCurrent_example = read-IsCurrent 5 before (at_time 18) (ok 8) refl

abbrev later : List (Readings × Result (List ℕ) ℕ)
later = (at_time 18, ok 4) ∷ ((at_time 21, ok 5) ∷ ((at_time 23, ok 6) ∷ []))

reads_recover_example :
    ((reads 5 later failed 0).0.error ≡ none) × (is_some (reads 5 later failed 0).0.value ≡ true)
reads_recover_example =
    reads_recover 5 later failed 16 0 refl ((4, refl), ((5, refl), ((6, refl), tt)))
      (inr (inl (omega arith)))

cached :
    (get_or_refresh 5 14 14 (λ (k : ℕ). (k, suc k)) (some (10, 3)) 7 ≡ (3, some (10, 3), 7))
    × (get_or_refresh 5 14 14 (λ (k : ℕ). (k, suc k)) (invalidate_slot (some (10, 3))) 7
        ≡ (7, some (14, 7), 8))
    × (get_or_refresh 5 15 16 (λ (k : ℕ). (k, suc k)) (some (10, 3)) 7 ≡ (7, some (16, 7), 8))
unfolding get_or_refresh invalidate_slot
cached = (refl, refl, refl)

invalidated : (invalidate failed).attempted ≡ none
unfolding invalidate
invalidated = refl
