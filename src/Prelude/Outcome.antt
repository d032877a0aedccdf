-- ===== src/Prelude/Outcome.antt =====
-- Results of code that can fail: by a panic, or by an `Err` that the caller gets.
use mathlib.Core.Path.{◌≡◌, refl}
use mathlib.Core.Logic.{◌⊎◌, inl, inr}
use mathlib.Core.Option.{Option, none, some}

pub data Fault : Type 0 where
  panicked failed : Fault

pub data Result {ℓ} (A : Type ℓ) : Type ℓ where
  ok : A → Result A
  err : Fault → Result A

-- The `?` of the source; a panic goes up in the same way.
infixl 5 ◌>>=◌
abbrev pub ◌>>=◌ {ℓ κ} : {X : Type ℓ} {Y : Type κ} → Result X → (X → Result Y) → Result Y
err fault >>= next = err fault
ok x >>= next = next x

-- `expect` and `context`: the value, or the fault.
abbrev pub or_fault {ℓ} : {X : Type ℓ} → Option X → Fault → Result X
or_fault none fault = err fault
or_fault (some x) fault = ok x

pub Result-cases {ℓ} :
    {X : Type ℓ} (r : Result X) → ((x : X) × (r ≡ ok x)) ⊎ ((fault : Fault) × (r ≡ err fault))
Result-cases (ok x) = inl (x, refl)
Result-cases (err fault) = inr (fault, refl)

-- A bind that succeeds has a first part that succeeds, and the rest succeeds with its value.
pub >>=-eq-ok {ℓ κ} :
    {X : Type ℓ} {Y : Type κ} (first : Result X) (next : X → Result Y) {y : Y}
    → (first >>= next) ≡ ok y
    → (x : X) × (first ≡ ok x) × (next x ≡ ok y)
>>=-eq-ok (err fault) next done = cc
>>=-eq-ok (ok x) next done = (x, refl, done)
