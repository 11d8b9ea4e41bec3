-- ===== src/Domain.antt =====
-- The enums of backend/prisma/schema.prisma, the identity that a token carries
-- (backend/src/types/index.ts), and the errors that a handler throws.
pub mod Failure
use Prim.Native.Nat.{ℕ}
use vehicle_lifecycle_manage.Base.{Option, ◌≡◌}
use vehicle_lifecycle_manage.Base.Text.{Text}

pub data EntityType : Type 0 where
  government rto manufacturer police insurance puc_center scrap_center bank : EntityType

pub data MemberRole : Type 0 where
  owner admin operator viewer : MemberRole

pub data VehicleStatus : Type 0 where
  not_reg active scrapped : VehicleStatus

pub data TransferStatus : Type 0 where
  pending buyer_accepted rto_approved cancelled : TransferStatus

pub data RegistrationStatus : Type 0 where
  pending approved rejected : RegistrationStatus

pub data ChallanStatus : Type 0 where
  pending paid cancelled : ChallanStatus

pub data LoanStatus : Type 0 where
  pending active cleared defaulted : LoanStatus

pub data InsuranceStatus : Type 0 where
  active expired cancelled : InsuranceStatus

pub data SyncStatus : Type 0 where
  pending mined failed : SyncStatus

pub data TxSource : Type 0 where
  member webhook system : TxSource

pub data TxActionType : Type 0 where
  b2b_entity_register b2b_entity_toggle : TxActionType
  vehicle_mint vehicle_scrap vehicle_assign_dealer vehicle_register_rto : TxActionType
  transfer_init transfer_approve_buyer transfer_approve_rto transfer_cancel : TxActionType
  trade_cert_issue trade_cert_revoke : TxActionType
  challan_issue challan_pay challan_cancel : TxActionType
  insurance_issue insurance_claim insurance_expire : TxActionType
  puc_issue puc_expire : TxActionType
  loan_reg loan_clear loan_refinance loan_cancel_pending : TxActionType
  safe_exec : TxActionType

pub data AuthType : Type 0 where
  b2c b2b : AuthType

unfoldable pub EntityType-discrete : Discrete EntityType
EntityType-discrete = hlevel

unfoldable pub MemberRole-discrete : Discrete MemberRole
MemberRole-discrete = hlevel

-- `CallerIdentity`: the payload of an access token.
pub record CallerIdentity : Type 0 where
  pub sub : Text
  pub kind : AuthType
  pub jti : Text
  pub wallet : Option Text
  pub email : Option Text
  pub entity_id : Option Text
  pub entity_type : Option EntityType
  pub role : Option MemberRole
  pub exp : ℕ
  pub iat : ℕ
