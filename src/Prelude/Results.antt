-- ===== src/Prelude/Results.antt =====
-- The exceptions of the program, and functions that may raise one.
use mathlib.Core.Path.{◌≡◌, refl}
use mathlib.Core.Logic.{◌⊎◌, inl, inr}
use software_bus.Prelude.Tests.{if◌then◌else◌}
use mathlib.Core.Bool.{Bool, true, false}

-- The classes that the source raises or catches. The message of an exception is not kept.
pub data Error : Type 0 where
  value_error payload_too_long unknown_message_type : Error
  runtime_error connection_error incomplete_read : Error
  received_too_long connection_too_slow held_messages_over_limit key_error argument_type_error :
      Error

-- `isinstance(e, ValueError)`
abbrev pub is_value_error : Error → Bool
is_value_error Error.value_error = true
is_value_error Error.payload_too_long = true
is_value_error Error.unknown_message_type = true
is_value_error _ = false

pub data Result {ℓ} (A : Type ℓ) : Type ℓ where
  ok : A → Result A
  err : Error → Result A

-- What follows runs unless an exception was raised.
infixl 8 ◌>>=◌ ◌>>◌
abbrev pub ◌>>=◌ {κ ℓ} : {A : Type κ} {B : Type ℓ} (r : Result A) (rest : A → Result B) → Result B
err raised >>= rest = err raised
ok value >>= rest = rest value

abbrev pub ◌>>◌ {κ ℓ} : {A : Type κ} {B : Type ℓ} (r : Result A) (rest : Result B) → Result B
r >> rest = r >>= λ _. rest

-- A chain that ends well has ended well at each step.
pub bind_inversion {κ ℓ} :
    {A : Type κ} {B : Type ℓ} (r : Result A) (rest : A → Result B) {end : B}
    → (r >>= rest) ≡ ok end
    → (value : A) × (r ≡ ok value) × (rest value ≡ ok end)
bind_inversion (err raised) rest h = cc
bind_inversion (ok value) rest h = (value, refl, h)

pub Result-cases {ℓ} :
    {A : Type ℓ} (r : Result A) → ((a : A) × (r ≡ ok a)) ⊎ ((e : Error) × (r ≡ err e))
Result-cases (ok a) = inl (a, refl)
Result-cases (err e) = inr (e, refl)

pub ok-injective {ℓ} : {A : Type ℓ} {a b : A} → ok a ≡ ok b → a ≡ b
ok-injective h = cc

-- `r` raises nothing but a plain ValueError.
pub record Plain {ℓ} {A : Type ℓ} (r : Result A) : Type ℓ where
  pub plain : (e : Error) → r ≡ err e → e ≡ Error.value_error

pub Plain-ok {ℓ} : {A : Type ℓ} (a : A) → Plain (ok a)
Plain-ok a = record { plain = λ e h. cc h }

pub Plain-bind {ℓ κ} :
    {A : Type ℓ} {B : Type κ} (m : Result A) (f : A → Result B)
    → Plain m
    → ((a : A) → Plain (f a))
    → Plain (m >>= f)
Plain-bind (ok a) f h k = k a
Plain-bind (err e) f h k = record { plain = λ x g. h.plain x (cc g) }

pub Plain-guard {ℓ} :
    {A : Type ℓ} (b : Bool) (m : Result A)
    → Plain m
    → Plain (if b then err Error.value_error else m)
Plain-guard true m h = record { plain = λ e g. cc g }
Plain-guard false m h = h
