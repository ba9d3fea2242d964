-- ===== src/Prelude/Run.antt =====
-- How a call of the Go code ends: it returns a value, it panics, or the model's fuel runs out.
use mathlib.Core.Path.{◌≡◌, refl}
use mathlib.Core.Bool.{Bool, true, false}
use mathlib.Core.Option.{Option, none, some}
use gophersat.Prelude.Tests.{if◌then◌else◌}

pub data Run {ℓ} (A : Type ℓ) : Type ℓ where
  panic : Run A
  out_of_fuel : Run A
  ok : A → Run A

-- An access that `none` marks as out of range panics.
abbrev pub or_panic {ℓ} : {A : Type ℓ} → Option A → Run A
or_panic none = panic
or_panic (some x) = ok x

-- The rest of the call runs on the value of the part before it.
infixl 5 ◌>>=◌
abbrev pub ◌>>=◌ {ℓ κ} : {A : Type ℓ} {B : Type κ} → Run A → (A → Run B) → Run B
panic >>= next = panic
out_of_fuel >>= next = out_of_fuel
ok x >>= next = next x

-- The call returns, with a value that the postcondition holds of.
pub data Returns {ℓ κ} {A : Type ℓ} (Post : A → Type κ) : Run A → Type (ℓ ⊔ κ) where
  returns : {x : A} → Post x → Returns Post (ok x)

pub Returns-if {ℓ κ} :
    {A : Type ℓ} {Post : A → Type κ} {this that : Run A} (test : Bool)
    → (test ≡ true → Returns Post this)
    → (test ≡ false → Returns Post that)
    → Returns Post (if test then this else that)
Returns-if false this that = that refl
Returns-if true this that = this refl

pub Returns-map {ℓ κ μ} :
    {A : Type ℓ} {Post : A → Type κ} {Weaker : A → Type μ} {call : Run A}
    → Returns Post call
    → ((x : A) → Post x → Weaker x)
    → Returns Weaker call
Returns-map (returns {x} h) weaken = returns (weaken x h)

pub Returns-bind {ℓ κ μ ν} :
    {A : Type ℓ} {Post : A → Type κ} {B : Type μ} {Final : B → Type ν} {call : Run A}
    {next : A → Run B}
    → Returns Post call
    → ((x : A) → Post x → Returns Final (next x))
    → Returns Final (call >>= next)
Returns-bind (returns {x} h) rest = rest x h

-- What a call that returns computes to.
pub Returns-value {ℓ κ} :
    {A : Type ℓ} {Post : A → Type κ} {call : Run A}
    → Returns Post call
    → (x : A) × (call ≡ ok x) × Post x
Returns-value (returns {x} h) = (x, refl, h)
