-- ===== src/Base/Errors.antt =====
-- Exceptions as values, and methods that mutate an object and may raise. What a method wrote before
-- it raised stays written, so the state comes back beside the exception too. An exception object is
-- named by its class, and its arguments, which are only printed, are left out.
use Prim.Native.Nat.{ℕ}
use mathlib.Core.Bool.{Bool, true, false}
use aiokafka.Base.BrokerErrors.{BrokerResponseError}

pub data Exception : Type 0 where
  -- `assert`, asyncio's InvalidStateError, and Python's own
  assertion_error invalid_state_error key_error index_error value_error attribute_error : Exception
  zero_division_error type_error cancelled_error : Exception
  -- errors.py
  illegal_state_error incompatible_broker_version kafka_timeout_error : Exception
  producer_closed message_size_too_large corrupt_record : Exception
  producer_fenced struct_error unsupported_codec kafka_error : Exception
  broker : BrokerResponseError → Exception
  -- any other exception object, by a number that stands for it
  other : ℕ → Exception

pub data Result {ℓ} (A : Type ℓ) : Type ℓ where
  ok : A → Result A
  err : Exception → Result A

abbrev pub Exec {ℓ} : Type ℓ → Type ℓ → Type ℓ
Exec S A = S → Result A × S

module _ {ℓ} {S A : Type ℓ} where
  abbrev pub pure : A → Exec S A
  pure a s = (ok a, s)

  abbrev pub raise : Exception → Exec S A
  raise e s = (err e, s)

  abbrev pub gets : (S → A) → Exec S A
  gets f s = (ok (f s), s)

abbrev pub modify {ℓ} : {S : Type ℓ} → (S → S) → Exec S Unit
modify f s = (ok tt, f s)

abbrev pub assert {ℓ} : {S : Type ℓ} → Bool → Exec S Unit
assert true = pure tt
assert false = raise assertion_error

module _ {ℓ} {S A B : Type ℓ} where
  abbrev pub continue : Result A → (A → Exec S B) → Exec S B
  continue (ok a) f s = f a s
  continue (err e) f s = (err e, s)

  infixl 10 ◌>>=◌ ◌>>◌
  abbrev pub ◌>>=◌ : Exec S A → (A → Exec S B) → Exec S B
  ◌>>=◌ m f s = continue (m s).0 f (m s).1

  abbrev pub ◌>>◌ : Exec S A → Exec S B → Exec S B
  m >> n = m >>= λ _. n
