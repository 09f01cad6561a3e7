-- ===== src/Base/Errors.antt =====
-- errors.py: the exceptions, and results of code that may raise one.
use Prim.Native.Nat.{ℕ}
use Prim.Native.String.{String}
use mathlib.Core.Path.{◌≡◌, refl}
use mathlib.Core.Logic.{◌⊎◌, inl, inr}

pub data Error : Type 0 where
  illegal_transition : ℕ → String → String → Error
  unknown_session : Error
  capability_not_supported : String → Error
  unknown_adapter : String → Error
  adapter_operation : String → Error
  unknown_schedule : ℕ → Error
  invalid_schedule : String → Error
  unknown_interaction : ℕ → Error
  interaction_already_resolved : ℕ → String → Error
  unknown_machine : ℕ → Error
  machine_conflict : String → Error
  unknown_app : String → Error
  app_not_ready : String → Error
  key_error : String → Error
  validation_error : Error
  value_error : String → Error
  runtime_error : String → Error
  overflow_error : Error
  os_error : String → Error

pub data Result {ℓ} (A : Type ℓ) : Type ℓ where
  ok : A → Result A
  raise : Error → Result A

infixl 5 ◌>>=◌
abbrev pub ◌>>=◌ {ℓ κ} : {A : Type ℓ} {B : Type κ} → Result A → (A → Result B) → Result B
ok a >>= f = f a
raise e >>= f = raise e

-- Doing the same after a first step.
pub bind_after {ℓ κ μ} :
    {A : Type ℓ} {B : Type κ} {C : Type μ} (o : Result A) (f : A → Result B) (g : B → Result C)
    (k : A → Result C)
    → ((a : A) → k a ≡ (f a >>= g))
    → (o >>= k) ≡ (o >>= f >>= g)
bind_after (ok a) f g k same = same a
bind_after (raise e) f g k same = refl

-- What a chain that succeeded has gone through.
pub bind_ok {ℓ κ} :
    {A : Type ℓ} {B : Type κ} (o : Result A) (f : A → Result B) (b : B)
    → (o >>= f) ≡ ok b
    → (a : A) × (o ≡ ok a) × (f a ≡ ok b)
bind_ok (ok a) f b e = (a, refl, e)
bind_ok (raise x) f b e = absurd (cc e)

pub ok_inj {ℓ} : {A : Type ℓ} {a b : A} → ok a ≡ ok b → a ≡ b
ok_inj e = cc

-- To split on the outcome of a step and keep the equation.
pub Result-cases {ℓ} :
    {A : Type ℓ} (o : Result A) → ((a : A) × (o ≡ ok a)) ⊎ ((e : Error) × (o ≡ raise e))
Result-cases (ok a) = inl (a, refl)
Result-cases (raise e) = inr (e, refl)
