-- ===== src/Base/Options.antt =====
-- `Option` as Rust uses it: `?` is `◌>>=◌`, and an early `return None` is `require`.
use mathlib.Core.Path.{◌≡◌, refl}
use mathlib.Core.Bool.{Bool, true, false}
use mathlib.Core.Option.{Option, none, some}

infixl 5 ◌>>=◌ ◌>>◌
abbrev pub ◌>>=◌ {ℓ κ} : {A : Type ℓ} {B : Type κ} → Option A → (A → Option B) → Option B
none >>= f = none
some a >>= f = f a

abbrev pub ◌>>◌ {ℓ} : {B : Type ℓ} → Option (Unit {0}) → Option B → Option B
m >> k = m >>= λ _. k

-- `return None` unless the test holds.
abbrev pub require : Bool → Option (Unit {0})
require true = some tt
require false = none

-- What a successful bind went through.
pub >>=-eq-some {ℓ κ} :
    {A : Type ℓ} {B : Type κ} (m : Option A) (f : A → Option B) {b : B}
    → (m >>= f) ≡ some b
    → (a : A) × (m ≡ some a) × (f a ≡ some b)
>>=-eq-some none f h = cc
>>=-eq-some (some a) f h = (a, refl, h)

pub require-eq-some :
    {A : Type 0} (b : Bool) (m : Option A) {a : A}
    → (require b >> m) ≡ some a
    → (b ≡ true) × (m ≡ some a)
require-eq-some true m h = (refl, h)
require-eq-some false m h = cc
