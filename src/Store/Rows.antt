-- ===== src/Store/Rows.antt =====
-- The models of backend/prisma/schema.prisma, with the columns that the modelled code reads or
-- writes. Primary keys are opaque texts that are only compared, and stand as numbers; so do hashes.
use vehicle_lifecycle_manage.Base.{ℕ, Option, Bool}
use vehicle_lifecycle_manage.Base.Int.{ℤ}
use vehicle_lifecycle_manage.Base.Text.{Text}
use vehicle_lifecycle_manage.Domain.{
  EntityType, MemberRole, VehicleStatus, RegistrationStatus, TransferStatus, ChallanStatus,
  LoanStatus, InsuranceStatus, SyncStatus, TxSource, TxActionType,
}

pub record User : Type 0 where
  pub id : ℕ
  pub wallet_address : Text
  pub is_verified : Bool
  pub rto_entity_id : Option ℕ

pub record B2bEntity : Type 0 where
  pub id : ℕ
  pub code : Text
  pub kind : EntityType
  pub on_chain_id : Option ℕ
  pub is_active : Bool
  -- `signingKey.encryptedPrivateKey`
  pub signing_key : Option Text

pub record B2bMember : Type 0 where
  pub id : ℕ
  pub entity_id : ℕ
  pub email : Text
  pub password_hash : Text
  pub role : MemberRole
  pub is_active : Bool
  pub wallet_address : Option Text

-- A session: `jti` is the hash of the refresh token that the client holds.
pub record RefreshToken : Type 0 where
  pub id : ℕ
  pub jti : ℕ
  pub user_id : Option ℕ
  pub member_id : Option ℕ
  pub expires_at : ℕ
  pub revoked_at : Option ℕ

-- A code of the purpose PASSWORD_RESET, the only one that is created.
pub record OtpCode : Type 0 where
  pub id : ℕ
  pub member_id : ℕ
  pub code_hash : ℕ
  pub expires_at : ℕ
  pub used_at : Option ℕ

pub record VehiclePassport : Type 0 where
  pub id : ℕ
  pub dvp_id : Option ℕ
  pub vin_hash : ℕ
  pub status : VehicleStatus
  pub mfg_entity_id : ℕ
  pub mfg_date : ℕ
  pub dealer_wallet : Option Text
  pub dealer_user_id : Option ℕ
  pub scrap_entity_id : Option ℕ
  pub scrap_date : Option ℕ
  pub authorized_scrap_center_id : Option ℕ
  pub created_by_member_id : Option ℕ

pub record VehicleOwnership : Type 0 where
  pub id : ℕ
  pub own_tid : Option ℕ
  pub passport_id : ℕ
  pub rto_entity_id : ℕ
  pub owner_wallet : Text
  pub reg_date : ℕ
  pub transfer_count : ℕ
  pub owner_user_id : Option ℕ
  pub rto_member_id : Option ℕ
  pub is_active : Bool

pub record RegistrationRequest : Type 0 where
  pub id : ℕ
  pub dvp_id : ℕ
  pub passport_id : ℕ
  pub rto_entity_id : ℕ
  pub status : RegistrationStatus

pub record TransferRequest : Type 0 where
  pub id : ℕ
  pub req_id : Option ℕ
  pub ownership_id : ℕ
  pub own_tid : Option ℕ
  pub seller_wallet : Text
  pub buyer_wallet : Text
  pub status : TransferStatus
  pub req_date : ℕ
  pub completed_date : Option ℕ
  pub seller_ok : Bool
  pub buyer_ok : Bool
  pub rto_ok : Bool
  pub seller_user_id : Option ℕ
  pub buyer_user_id : Option ℕ
  pub rto_approver_member_id : Option ℕ

pub record Challan : Type 0 where
  pub id : ℕ
  pub challan_id : Option ℕ
  pub ownership_id : ℕ
  pub own_tid : Option ℕ
  pub police_entity_id : ℕ
  pub amount : ℕ
  pub status : ChallanStatus
  pub is_admin_cancel : Bool
  pub issued_at : ℕ
  pub paid_at : Option ℕ
  pub cancelled_at : Option ℕ
  pub created_by_member_id : Option ℕ
  pub cancelled_by_member_id : Option ℕ
  pub violator_user_id : Option ℕ
  pub payment_order_id : Option Text
  pub payment_ref : Option Text

pub record LoanRecord : Type 0 where
  pub id : ℕ
  pub loan_id : Option ℕ
  pub passport_id : ℕ
  pub lender_entity_id : ℕ
  pub borrower_wallet : Text
  pub amount : ℕ
  pub tenure : ℕ
  pub status : LoanStatus
  pub disbursed_at : ℕ
  pub cleared_at : Option ℕ
  pub noc_issued : Bool
  pub noc_date : Option ℕ
  pub noc_recipient_wallet : Option Text
  pub created_by_member_id : Option ℕ
  pub borrower_user_id : Option ℕ
  pub noc_recipient_user_id : Option ℕ

pub record InsurancePolicy : Type 0 where
  pub id : ℕ
  pub pol_id : Option ℕ
  pub ownership_id : ℕ
  pub own_tid : Option ℕ
  pub ins_entity_id : ℕ
  pub coverage : ℕ
  pub premium : ℕ
  -- an integer column, which may fall below zero
  pub claim_count : ℤ
  pub status : InsuranceStatus
  pub issue_date : ℕ
  pub expiry_date : ℕ
  pub owner_wallet : Text
  pub owner_user_id : Option ℕ
  pub created_by_member_id : Option ℕ

pub record BlockchainTransaction : Type 0 where
  pub id : ℕ
  pub tx_hash : ℕ
  pub action_type : TxActionType
  pub status : SyncStatus
  pub block_number : Option ℕ
  pub b2b_entity_id : Option ℕ
  pub challan_id : Option ℕ
  pub loan_id : Option ℕ
  pub ownership_id : Option ℕ
  pub transfer_req_id : Option ℕ
  pub insurance_id : Option ℕ
  pub initiator_member_id : Option ℕ
  pub initiator_user_id : Option ℕ
  pub tx_source : TxSource
