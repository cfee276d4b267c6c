-- ===== src/Agent/Cache.antt =====
-- agent/src/cache.rs: values that are refreshed on demand. A clock reading is an argument, an `Instant` in
-- nanoseconds; `refresh` takes the world and returns it with what it gives. The lock that a call holds
-- makes the calls of several threads a sequence.
pub mod Rate
pub mod Fresh
mod Tests
use mu5250_open_ui.Base.{
  ℕ, ◌-◌, ◌/◌, Bool, true, false, ◌||◌, Option, none, some, List, ltb, leb, if◌then◌else◌,
}
use mathlib.Core.Option
use mu5250_open_ui.Base.Results.{Result, ok, err}

-- The slot of `Cached`: when the value was stored, and the value.
abbrev pub Cached : Type 0 → Type 0
Cached T = Option (ℕ × T)

-- The value in the slot, if it is younger than `ttl`.
unfoldable pub young : {T : Type 0} → ℕ → ℕ → Cached T → Option T
young ttl now none = none
young ttl now (some (stored, value)) = if ltb (now - stored) ttl then some value else none

-- `now` is the reading of the test, `later` the one behind `refresh`.
unfoldable pub get_or_refresh :
    {W T : Type 0} → ℕ → ℕ → ℕ → (W → T × W) → Cached T → W → T × Cached T × W
unfolding young
get_or_refresh ttl now later refresh slot w = elim (young ttl now slot) [
  | some value ↦ (value, slot, w)
  | none ↦ let (value, w') = refresh w in (value, some (later, value), w')
]

-- `Cached::invalidate`
unfoldable pub invalidate_slot : {T : Type 0} → Cached T → Cached T
invalidate_slot slot = none

pub record Observation (T : Type 0) : Type 0 where
  pub attempted : Option ℕ
  pub sampled : Option ℕ
  pub sampled_unix_ms : Option ℕ
  pub value : Option T
  pub error : Option (List ℕ)

pub record Freshness : Type 0 where
  pub sampled_at_ms : Option ℕ
  pub age_ms : Option ℕ
  pub ttl_ms : ℕ
  pub stale : Bool
  pub error : Option (List ℕ)

pub record Sample (T : Type 0) : Type 0 where
  pub value : Option T
  pub freshness : Freshness

-- `Observed::default`
abbrev pub unobserved : {T : Type 0} → Observation T
unobserved = record {
  attempted = none;
  sampled = none;
  sampled_unix_ms = none;
  value = none;
  error = none;
}

-- The readings of the clocks in one call of `read`, in their order.
pub record Readings : Type 0 where
  pub checked : ℕ
  pub sampled : ℕ
  pub unix_ms : ℕ
  pub attempted : ℕ
  pub answered : ℕ

-- `slot.attempted.is_none_or(|at| at.elapsed() >= ttl)`
unfoldable pub due : ℕ → ℕ → Option ℕ → Bool
due ttl now none = true
due ttl now (some at) = leb ttl (now - at)

-- What an attempt leaves.
unfoldable pub attempt : {T : Type 0} → Readings → Result (List ℕ) T → Observation T → Observation T
attempt r (ok value) o = record {
  attempted = some r.attempted;
  sampled = some r.sampled;
  sampled_unix_ms = some r.unix_ms;
  value = some value;
  error = none;
}
attempt r (err e) o = record o { attempted = some r.attempted; error = some e }

abbrev pub milliseconds : ℕ → ℕ
milliseconds nanoseconds = nanoseconds / 1_000_000

abbrev pub is_some : {A : Type 0} → Option A → Bool
is_some none = false
is_some (some a) = true

-- `age.is_none_or(|age| age > ttl)`
abbrev pub older : ℕ → Option ℕ → Bool
older ttl none = true
older ttl (some age) = ltb ttl age

unfoldable pub sample : {T : Type 0} → ℕ → ℕ → Observation T → Sample T
sample ttl now o =
    let age = Option.map (λ at. now - at) o.sampled in
    record {
      value = o.value;
      freshness = record {
        sampled_at_ms = o.sampled_unix_ms;
        age_ms = Option.map milliseconds age;
        ttl_ms = milliseconds ttl;
        stale = is_some o.error || older ttl age;
        error = o.error;
      };
    }

-- The state behind `read`, and the world.
unfoldable pub refreshed :
    {W T : Type 0}
    → ℕ
    → Readings
    → (W → Result (List ℕ) T × W)
    → Observation T
    → W
    → Observation T × W
unfolding due attempt
refreshed ttl r refresh o w =
    if due ttl r.checked o.attempted
    then (let (result, w') = refresh w in (attempt r result o, w'))
    else (o, w)

-- `Observed::read`
unfoldable pub read :
    {W T : Type 0}
    → ℕ
    → Readings
    → (W → Result (List ℕ) T × W)
    → Observation T
    → W
    → Sample T × Observation T × W
unfolding refreshed sample
read ttl r refresh o w =
    let (o', w') = refreshed ttl r refresh o w in (sample ttl r.answered o', o', w')

-- `Observed::invalidate`
unfoldable pub invalidate : {T : Type 0} → Observation T → Observation T
invalidate o = record o { attempted = none }
