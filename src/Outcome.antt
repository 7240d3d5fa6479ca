-- ===== src/Outcome.antt =====
-- nexus/src/processor/error.rs and result.rs: a step of the processor returns a value, returns an
-- error, or panics. What an `Err` or a panic leaves of the transaction is dropped with it, since
-- only a step that returns reaches `commit`; so a failing step has no state.
-- Errors of the storage engine and of channels do not occur here.
use krc721_protocol.Prelude.{◌≡◌, refl, ◌⊎◌, inl, inr, Option, none, some, arith}
use krc721_protocol.Model.{CtxValidationError}

pub data Error : Type 0 where
  -- `Error::UnexpectedKaspaNodeBehaviour`
  unexpected_kaspa_node_behaviour : Error
  -- `expect`, `unwrap`, `assert!` or a division by zero
  panic : Error

pub data Outcome {ℓ} (A : Type ℓ) : Type ℓ where
  ok : A → Outcome A
  err : Error → Outcome A

infixl 5 ◌>>=◌
abbrev pub ◌>>=◌ {ℓ κ} : {A : Type ℓ} {B : Type κ} → Outcome A → (A → Outcome B) → Outcome B
ok a >>= f = f a
err e >>= f = err e

-- `expect` and `unwrap`
abbrev pub expect {ℓ} : {A : Type ℓ} → Option A → Outcome A
expect none = err panic
expect (some a) = ok a

-- `Result<(), CtxValidationError>`: the operation is applied, or it is recorded as rejected.
pub data Validation : Type 0 where
  accepted : Validation
  rejected : CtxValidationError → Validation

-- `Result::err`
abbrev pub validation_err : Validation → Option CtxValidationError
validation_err accepted = none
validation_err (rejected e) = some e

pub Outcome-cases {ℓ} :
    {A : Type ℓ} (m : Outcome A) → ((e : Error) × (m ≡ err e)) ⊎ ((a : A) × (m ≡ ok a))
Outcome-cases (ok a) = inr (a, refl)
Outcome-cases (err e) = inl (e, refl)

pub ok_inj {ℓ} : {A : Type ℓ} {a b : A} → ok a ≡ ok b → a ≡ b
ok_inj e = ground (arith, e)
