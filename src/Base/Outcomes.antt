-- ===== src/Base/Outcomes.antt =====
-- What a fallible function returns: a value, an error, or a panic (`unwrap`, `expect`, an assertion).
use mathlib.Core.Path.{◌≡◌, refl}
use mathlib.Core.Option.{Option, none, some}

-- The errors that the modelled functions build with `miette!`, by what they report.
pub data Error : Type 0 where
  malformed_location malformed_function invalid_integer : Error
  run_not_found workflow_not_found inputs_not_found input_not_found run_still_active : Error
  nothing_errored nothing_paused : Error
  port_not_found link_not_found node_not_found output_not_found definition_not_found : Error
  storage_not_found asset_not_found asset_exists asset_unreadable : Error
  unknown_context unknown_executor no_deployment : Error
  channel_closed executor_failed external : Error

pub data Outcome {ℓ} (A : Type ℓ) : Type ℓ where
  ok : A → Outcome A
  err : Error → Outcome A
  panic : Outcome A

infixl 5 ◌>>=◌
abbrev pub ◌>>=◌ {ℓ κ} : {A : Type ℓ} {B : Type κ} → Outcome A → (A → Outcome B) → Outcome B
ok a >>= f = f a
err e >>= f = err e
panic >>= f = panic

-- `o.ok_or_else(..)?`
abbrev pub or_error {ℓ} : {A : Type ℓ} → Error → Option A → Outcome A
or_error e none = err e
or_error e (some a) = ok a

-- `o.expect(..)`, `o.unwrap()`
abbrev pub expect {ℓ} : {A : Type ℓ} → Option A → Outcome A
expect none = panic
expect (some a) = ok a

pub >>=-eq-ok {ℓ κ} :
    {A : Type ℓ} {B : Type κ} (first : Outcome A) (next : A → Outcome B) {result : B}
    → (first >>= next) ≡ ok result
    → (value : A) × (first ≡ ok value) × (next value ≡ ok result)
>>=-eq-ok (ok value) next h = (value, refl, h)
>>=-eq-ok (err e) next h = cc
>>=-eq-ok panic next h = cc

pub or_error-eq-ok {ℓ} :
    {A : Type ℓ} (e : Error) (o : Option A) {a : A} → or_error e o ≡ ok a → o ≡ some a
or_error-eq-ok e none h = cc
or_error-eq-ok e (some a) h = cc

pub ok-injective {ℓ} : {A : Type ℓ} {a b : A} → ok a ≡ ok b → a ≡ b
ok-injective h = cc

-- what holds of the value, if there is one
abbrev pub Holds {ℓ} : {A : Type ℓ} → (A → Type 0) → Outcome A → Type 0
Holds P (ok a) = P a
Holds P (err e) = Unit
Holds P panic = Unit

pub Holds-bind {ℓ κ} :
    {A : Type ℓ} {B : Type κ} (P : B → Type 0) (first : Outcome A) (next : A → Outcome B)
    → ((a : A) → first ≡ ok a → Holds P (next a))
    → Holds P (first >>= next)
Holds-bind P (ok a) next h = h a refl
Holds-bind P (err e) next h = tt
Holds-bind P panic next h = tt

pub bind_cong {ℓ κ} :
    {A : Type ℓ} {B : Type κ} (first : Outcome A) (f g : A → Outcome B)
    → ((a : A) → first ≡ ok a → f a ≡ g a)
    → (first >>= f) ≡ (first >>= g)
bind_cong (ok a) f g h = h a refl
bind_cong (err e) f g h = refl
bind_cong panic f g h = refl
