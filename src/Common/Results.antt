-- ===== src/Common/Results.antt =====
-- What a call of a service comes to: a value, or what it throws. A call that changes the database
-- is a function of its state, which also comes back after a throw.
use mathlib.Core.Path.{◌≡◌}
use mathlib.Core.Bool.{Bool}
use mathlib.Core.Option.{Option, none, some}
use Prim.Native.Nat.{ℕ, zero, suc}
use patheya_express_platform.Common.Tests.{if◌then◌else◌}

-- The exceptions of NestJS by their class, and the error codes of Prisma that the code tests.
pub data Exception : Type 0 where
  bad_request unauthorized forbidden not_found conflict : Exception
  serialization_failure unique_violation record_missing provider_error type_error : Exception

pub data Result {ℓ} (A : Type ℓ) : Type ℓ where
  ok : A → Result A
  err : Exception → Result A

abbrev pub Action {ℓ κ} : Type ℓ → Type κ → Type (ℓ ⊔ κ)
Action S A = S → Result A × S

abbrev pub after {ℓ κ μ} :
    {S : Type ℓ} {A : Type κ} {B : Type μ} → Result A × S → (A → Action S B) → Result B × S
after (ok a, s) f = f a s
after (err e, s) f = (err e, s)

-- The outcome of a transaction that began at `s`.
abbrev pub committed {ℓ κ} : {S : Type ℓ} {A : Type κ} → S → Result A × S → Result A × S
committed s (ok a, t) = (ok a, t)
committed s (err e, t) = (err e, s)

infixl 5 ◌>>=◌ ◌>>◌
abbrev pub ◌>>=◌ {ℓ κ μ} :
    {S : Type ℓ} {A : Type κ} {B : Type μ} → Action S A → (A → Action S B) → Action S B
◌>>=◌ m f s = after (m s) f

abbrev pub ◌>>◌ {ℓ κ μ} :
    {S : Type ℓ} {A : Type κ} {B : Type μ} → Action S A → Action S B → Action S B
m >> k = m >>= λ _. k

module _ {ℓ} {S : Type ℓ} where
  abbrev pub pure {κ} : {A : Type κ} → A → Action S A
  pure a s = (ok a, s)

  abbrev pub throw {κ} : {A : Type κ} → Exception → Action S A
  throw e s = (err e, s)

  -- `if (test) throw e`
  abbrev pub throw_if : Bool → Exception → Action S (Unit {0})
  throw_if test e s = (if test then err e else ok tt, s)

  -- `if (!value) throw e`
  abbrev pub or_throw {κ} : {A : Type κ} → Option A → Exception → Action S A
  or_throw none e s = (err e, s)
  or_throw (some a) e s = (ok a, s)

  abbrev pub gets {κ} : {A : Type κ} → (S → A) → Action S A
  gets f s = (ok (f s), s)

  abbrev pub modify : (S → S) → Action S (Unit {0})
  modify f s = (ok tt, f s)

  -- A `prisma.$transaction`: a throw undoes what was written.
  abbrev pub transaction {κ} : {A : Type κ} → Action S A → Action S A
  transaction m s = committed s (m s)

-- A call that fails leaves the state as it was.
abbrev pub Unchanged {ℓ κ} : {S : Type ℓ} {A : Type κ} → S → Result A × S → Type ℓ
Unchanged s (ok a, t) = Unit
Unchanged s (err e, t) = t ≡ s

-- `MAX_SERIALIZATION_RETRIES`, of WalletService and of CouponsService.
abbrev pub max_serialization_retries : ℕ
max_serialization_retries = 2

-- A transaction that Postgres may abort: `aborted` says whether it does at each attempt. An aborted
-- attempt writes nothing and is made again while retries are left.
abbrev pub retry {ℓ κ} : {S : Type ℓ} {A : Type κ} → ℕ → (ℕ → Bool) → ℕ → Action S A → Action S A
retry zero aborted attempt m s = if aborted attempt then (err serialization_failure, s) else m s
retry (suc left) aborted attempt m s =
    let again = retry left aborted (suc attempt) m s in if aborted attempt then again else m s
