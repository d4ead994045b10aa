-- ===== src/Base/Outcome.antt =====
-- The result of code that may raise: `E` is the type of what it raises.
use mathlib.Core.Path.{◌≡◌, refl}
use mathlib.Core.Logic.{◌⊎◌, inl, inr}
use mathlib.Core.Bool.{Bool, true, false}
use mathlib.Core.Option.{Option, none, some}

pub data Result {ℓ} (E : Type 0) (A : Type ℓ) : Type ℓ where
  ok : A → Result E A
  err : E → Result E A

infixl 5 ◌>>=◌ ◌>>◌
-- A call, and what is done with the value that it returns.
abbrev pub ◌>>=◌ {κ μ} :
    {E : Type 0} {X : Type κ} {Y : Type μ} → Result E X → (X → Result E Y) → Result E Y
err raised >>= next = err raised
ok value >>= next = next value

abbrev pub ◌>>◌ {μ} : {E : Type 0} {Y : Type μ} → Result E (Unit {0}) → Result E Y → Result E Y
first >> second = first >>= λ done. second

-- `if test: raise e`
abbrev pub raise_if : {E : Type 0} → Bool → E → Result E (Unit {0})
raise_if true e = err e
raise_if false e = ok tt

abbrev pub or_raise {ℓ} : {E : Type 0} {A : Type ℓ} → Option A → E → Result E A
or_raise none e = err e
or_raise (some a) e = ok a

-- Calls in sequence that return: the first one returned a value, and the second was given it.
pub >>=-eq-ok {κ μ} :
    {E : Type 0} {X : Type κ} {Y : Type μ} (r : Result E X) (next : X → Result E Y) {y : Y}
    → (r >>= next) ≡ ok y
    → (x : X) × (r ≡ ok x) × (next x ≡ ok y)
>>=-eq-ok (err raised) next returns = cc
>>=-eq-ok (ok value) next returns = (value, refl, returns)

pub or_raise-ok {ℓ} :
    {E : Type 0} {A : Type ℓ} (o : Option A) (e : E) (a : A) → or_raise o e ≡ ok a → o ≡ some a
or_raise-ok none e a h = cc
or_raise-ok (some b) e a h = cc

-- A call returns or raises.
pub Result-cases :
    {E : Type 0} {A : Type 0} (r : Result E A) → ((a : A) × (r ≡ ok a)) ⊎ ((e : E) × (r ≡ err e))
Result-cases (ok a) = inl (a, refl)
Result-cases (err e) = inr (e, refl)
