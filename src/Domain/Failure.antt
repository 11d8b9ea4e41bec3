-- ===== src/Domain/Failure.antt =====
-- What a handler may throw, and the outcome of a call.
use Prim.Native.Nat.{ℕ}
use mathlib.Core.Option.{Option}
use mathlib.Core.Logic.{◌⊎◌, inl, inr}
use mathlib.Core.Path.{◌≡◌, refl}
use vehicle_lifecycle_manage.Base.Text.{Text}

-- The fields of an exception of ethers that are read: `code`, `revert.name`, `info.error.message`,
-- `reason` and `message`, each of which may be missing.
pub record EthersError : Type 0 where
  pub code : Option Text
  pub revert_name : Option Text
  pub info_message : Option Text
  pub reason : Option Text
  pub message : Option Text

pub data Failure : Type 0 where
  -- `createError(status, message)`
  http : ℕ → Text → Failure
  -- a `ZodError`
  zod : Failure
  -- a Prisma error, with its `code`
  prisma : Text → Text → Failure
  -- an exception of ethers
  ethers : EthersError → Failure
  -- any other `Error`, with its message
  other : Text → Failure

-- The outcome of code that may throw.
pub data Result (A : Type 0) : Type 0 where
  ok : A → Result A
  err : Failure → Result A

module _ {A B : Type 0} where
  infixl 5 ◌>>=◌ ◌>>◌
  abbrev pub ◌>>=◌ : Result A → (A → Result B) → Result B
  err failure >>= k = err failure
  ok value >>= k = k value

  abbrev pub ◌>>◌ : Result A → Result B → Result B
  first >> second = first >>= λ _. second

  -- A chain that succeeds has passed its first part.
  pub >>=-eq-ok :
      (first : Result A) (k : A → Result B) {b : B}
      → (first >>= k) ≡ ok b
      → (a : A) × (first ≡ ok a) × (k a ≡ ok b)
  >>=-eq-ok (err failure) k h = cc
  >>=-eq-ok (ok value) k h = (value, refl, h)

pub Result-cases :
    {A : Type 0} (r : Result A) → ((e : Failure) × (r ≡ err e)) ⊎ ((a : A) × (r ≡ ok a))
Result-cases (ok a) = inr (a, refl)
Result-cases (err e) = inl (e, refl)
