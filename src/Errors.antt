-- ===== src/Errors.antt =====
-- The exceptions that the program raises or handles, and methods that may raise: an `Exec S A`
-- changes a state and returns or raises. What was written before a raise stays written.
use atasks.Prelude.{
  ◌≡◌, refl, ◌⊎◌, inl, inr, ℕ, String, Option, none, Bool, true, false, List, [], ◌∷◌,
}
use atasks.Hop.{AtaskTrace}

-- The classes, with the arguments that tell two of their exceptions apart.
pub data ExceptionClass : Type 0 where
  no_client_transport_registered no_codec_registered transport_error : ExceptionClass
  job_not_found late_registration unknown_request_name : String → ExceptionClass
  request_timeout no_route : String → ExceptionClass
  registering_twice : String → String → ExceptionClass
  key_error attribute_error : String → ExceptionClass
  atask_stack_too_deep : ℕ → String → String → ExceptionClass
  connection_lost : String → ExceptionClass
  timeout type_error : ExceptionClass
  value_error os_error : String → ExceptionClass
  -- An exception of the application, or of a library that the program calls.
  other : String → ExceptionClass

-- `trace` is the attribute `__atask_trace__`. A class with `__slots__` has `has_slots`, and refuses
-- the attribute.
pub record PyException : Type 0 where
  pub class : ExceptionClass
  pub trace : Option AtaskTrace
  pub has_slots : Bool

-- A new exception of one of the program's classes.
abbrev pub exception : ExceptionClass → PyException
exception c = record { class = c; trace = none; has_slots = false }

-- `except asyncio.TimeoutError`: the builtin class and its subclass `RequestTimeoutError`.
abbrev pub is_timeout_error : ExceptionClass → Bool
is_timeout_error timeout = true
is_timeout_error (request_timeout _) = true
is_timeout_error _ = false

pub data Outcome {ℓ} (A : Type ℓ) : Type ℓ where
  returned : A → Outcome A
  raised : PyException → Outcome A

pub Outcome-cases {ℓ} :
    {A : Type ℓ} (o : Outcome A)
    → ((a : A) × (o ≡ returned a)) ⊎ ((e : PyException) × (o ≡ raised e))
Outcome-cases (returned a) = inl (a, refl)
Outcome-cases (raised e) = inr (e, refl)

-- What may raise goes on with what was returned.
abbrev pub then_returns {ℓ} : {A B : Type ℓ} → Outcome A → (A → Outcome B) → Outcome B
then_returns (returned a) f = f a
then_returns (raised e) f = raised e

-- `ValueError(message)`, also as `argparse.ArgumentTypeError`, and `parser.error(message)`.
abbrev pub refuse {ℓ} : {A : Type ℓ} → String → Outcome A
refuse message = raised (exception (value_error message))

abbrev pub Exec {ℓ} : Type ℓ → Type ℓ → Type ℓ
Exec S A = S → Outcome A × S

module _ {ℓ} {S A : Type ℓ} where
  abbrev pub pure : A → Exec S A
  pure a s = (returned a, s)

  abbrev pub raise : ExceptionClass → Exec S A
  raise c s = (raised (exception c), s)

  abbrev pub lift : Outcome A → Exec S A
  lift r s = (r, s)

module _ {ℓ} {S A B : Type ℓ} where
  abbrev pub continue : Outcome A → (A → Exec S B) → Exec S B
  continue (returned a) f s = f a s
  continue (raised e) f s = (raised e, s)

  infixl 10 ◌>>=◌ ◌>>◌
  abbrev pub ◌>>=◌ : Exec S A → (A → Exec S B) → Exec S B
  ◌>>=◌ m f s = continue (m s).0 f (m s).1

  abbrev pub ◌>>◌ : Exec S A → Exec S B → Exec S B
  m >> n = m >>= λ _. n

-- `for x in xs: await body(x)`: a raise leaves the rest undone.
module _ {S : Type 0} {A : Type 0} where
  unfoldable pub for_each : List A → (A → Exec S (Unit {0})) → Exec S (Unit {0})
  for_each [] body s = (returned tt, s)
  for_each (x ∷ xs) body s = continue (body x s).0 (λ _. for_each xs body) (body x s).1
