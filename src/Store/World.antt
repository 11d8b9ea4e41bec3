-- ===== src/Store/World.antt =====
-- The state of the backend, and the monad of a handler: what was written before an error stays
-- written, except in a database transaction.
use vehicle_lifecycle_manage.Base.{ℕ, Option, none, some, List, Bool, true, false}
use vehicle_lifecycle_manage.Base.Text.{Text, text}
use vehicle_lifecycle_manage.Domain.Failure.{Failure, prisma, Result, ok, err}
use vehicle_lifecycle_manage.Store.Rows.{
  User, B2bEntity, B2bMember, RefreshToken, OtpCode, VehiclePassport, VehicleOwnership,
  RegistrationRequest, TransferRequest, Challan, LoanRecord, InsurancePolicy, BlockchainTransaction,
}

-- The calls of contract methods, with their arguments.
pub data Call : Type 0 where
  -- ownTid and amount
  issue_challan : ℕ → ℕ → Call
  -- ownTid and challanId
  pay_challan : ℕ → ℕ → Call
  cancel_challan : ℕ → ℕ → Call
  -- dvpId, buyer, amount and tenure
  register_loan : ℕ → Text → ℕ → ℕ → Call
  issue_noc : ℕ → Call
  cancel_pending_loan : ℕ → Call
  -- dvpId, amount and tenure
  refinance_loan : ℕ → ℕ → ℕ → Call
  -- ownTid, expiry date, coverage and premium
  issue_policy : ℕ → ℕ → ℕ → ℕ → Call
  -- polId
  mark_expired : ℕ → Call
  file_claim : ℕ → Call
  -- ownTid
  approve_transfer : ℕ → Call

-- A transaction that the node has accepted.
pub record Submission : Type 0 where
  pub sender : ℕ
  pub call : Call
  pub hash : ℕ

pub record World : Type 0 where
  pub users : List User
  pub entities : List B2bEntity
  pub members : List B2bMember
  pub sessions : List RefreshToken
  pub otps : List OtpCode
  pub passports : List VehiclePassport
  pub ownerships : List VehicleOwnership
  pub registrations : List RegistrationRequest
  pub transfers : List TransferRequest
  pub challans : List Challan
  pub loans : List LoanRecord
  pub policies : List InsurancePolicy
  pub transactions : List BlockchainTransaction
  -- the next primary key
  pub next_id : ℕ
  -- the clock
  pub now : ℕ
  -- what was submitted to the mempool, the latest first
  pub mempool : List Submission

abbrev pub Action : Type 0 → Type 0
Action A = World → Result A × World

module _ {A : Type 0} where
  abbrev pub pure : A → Action A
  pure a w = (ok a, w)

  abbrev pub throw : Failure → Action A
  throw e w = (err e, w)

  abbrev pub gets : (World → A) → Action A
  gets f w = (ok (f w), w)

  -- `if (!x) throw createError(…)`
  abbrev pub or_throw : Option A → Failure → Action A
  or_throw none e = throw e
  or_throw (some a) e = pure a

  -- `prisma.$transaction`: all or nothing
  abbrev pub transaction : Action A → Action A
  transaction m w = let (r, w') = m w in elim r [ ok a ↦ (ok a, w') | err e ↦ (err e, w) ]

  -- `try { … } catch (err) { logger.error(…) }`
  abbrev pub caught : Action A → World → World
  caught m w = (m w).1

infixl 5 ◌>>=◌ ◌>>◌
abbrev pub ◌>>=◌ : {A B : Type 0} → Action A → (A → Action B) → Action B
◌>>=◌ m f w = let (r, w') = m w in elim r [ ok a ↦ f a w' | err e ↦ (err e, w') ]

abbrev pub ◌>>◌ : {A B : Type 0} → Action A → Action B → Action B
m >> k = m >>= λ _. k

abbrev pub throw_if : Bool → Failure → Action (Unit {0})
throw_if true e = throw e
throw_if false e = pure tt

abbrev pub modify : (World → World) → Action (Unit {0})
modify f w = (ok tt, f w)

-- the errors of Prisma for a row that is missing and for a unique column
abbrev pub record_not_found : Failure
record_not_found = prisma (text "P2025") (text "Record not found")

abbrev pub foreign_key_violation : Failure
foreign_key_violation = prisma (text "P2003") (text "Foreign key constraint failed")

abbrev pub unique_violation : Failure
unique_violation = prisma (text "P2002") (text "Unique constraint failed")
