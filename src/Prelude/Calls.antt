-- ===== src/Prelude/Calls.antt =====
-- A call that returns or raises. `Exc` lists the exception classes that the handlers tell apart.
use Prim.Native.String.{String}
use mathlib.Core.Path.{◌≡◌, refl}
use mathlib.Core.Logic.{◌⊎◌, inl, inr}
use mathlib.Core.Option.{Option, none, some}

pub data Exc : Type 0 where
  -- `OSError` and its subclasses, `TimeoutError` among them
  os_error : Exc
  -- `TypeError` and `ValueError`, raised by a dependency
  type_error value_error : Exc
  -- `pydantic.ValidationError`, raised by a model of models.py
  validation_error : Exc
  -- `XrayUnavailable` with its code
  xray_unavailable : String → Exc
  -- any other exception
  other_error : Exc

pub data Outcome {ℓ} (A : Type ℓ) : Type ℓ where
  returned : A → Outcome A
  raised : Exc → Outcome A

infixl 5 ◌>>=◌
abbrev pub ◌>>=◌ {ℓ κ} : {A : Type ℓ} {B : Type κ} → Outcome A → (A → Outcome B) → Outcome B
returned a >>= f = f a
raised e >>= f = raised e

pub Outcome-cases {ℓ} :
    {A : Type ℓ} (o : Outcome A) → ((a : A) × (o ≡ returned a)) ⊎ ((e : Exc) × (o ≡ raised e))
Outcome-cases (returned a) = inl (a, refl)
Outcome-cases (raised e) = inr (e, refl)

-- A chain of lookups: the rest runs on what was found.
abbrev pub and_then {ℓ κ} : {A : Type ℓ} {B : Type κ} → Option A → (A → Option B) → Option B
and_then none f = none
and_then (some a) f = f a

pub and_then-eq_some {ℓ κ} :
    {A : Type ℓ} {B : Type κ} (o : Option A) (f : A → Option B) {b : B}
    → and_then o f ≡ some b
    → (a : A) × (o ≡ some a) × (f a ≡ some b)
and_then-eq_some none f h = cc
and_then-eq_some (some a) f h = (a, refl, h)
