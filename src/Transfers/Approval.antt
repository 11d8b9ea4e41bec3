-- ===== src/Transfers/Approval.antt =====
-- `approveTransfer` of backend/src/modules/rto/rto.service.ts.
pub mod Laws
use vehicle_lifecycle_manage.Base.{ℕ, Option, none, some, Bool, true, false, ◌==◌, ◌&&◌}
use vehicle_lifecycle_manage.Base.Text.{text}
use vehicle_lifecycle_manage.Domain.{
  rto, TransferStatus, SyncStatus, TxSource, transfer_approve_rto,
}
use vehicle_lifecycle_manage.Domain.Failure.{http}
use vehicle_lifecycle_manage.Store.Rows.{User, TransferRequest, BlockchainTransaction}
use vehicle_lifecycle_manage.Store.Table.{find?}
use vehicle_lifecycle_manage.Store.World.{Call, World, Action, gets, or_throw, ◌>>=◌}
use vehicle_lifecycle_manage.Chain.Manager.{Node}
use vehicle_lifecycle_manage.Chain.Tracking.{submit_and_track}
use vehicle_lifecycle_manage.Challan.Rows.{is_id}
use vehicle_lifecycle_manage.Loans.Rows.{is_pending_transfer}
use vehicle_lifecycle_manage.Transfers.Events.{with_own_tid}

-- `buyerUser: { rtoEntityId }`
unfoldable pub buyer_belongs : World → ℕ → TransferRequest → Bool
buyer_belongs w rto_entity t = elim t.buyer_user_id [
  | none ↦ false
  | some id ↦ elim (find? (λ (u : User). u.id == id) w.users) [
    | none ↦ false
    | some u ↦ is_id rto_entity u.rto_entity_id
  ]
]

-- The request that waits for the approval of this RTO.
abbrev pub is_ready : World → ℕ → ℕ → TransferRequest → Bool
is_ready w own_tid rto_entity t =
    is_id own_tid t.own_tid
    && is_pending_transfer t.status
    && t.seller_ok
    && t.buyer_ok
    && buyer_belongs w rto_entity t

-- the row of `createApproveTransferTx`
abbrev pub approval_tx : ℕ → ℕ → ℕ → ℕ → ℕ → ℕ → BlockchainTransaction
approval_tx ownership transfer rto_entity member hash id = record {
  id = id;
  tx_hash = hash;
  action_type = transfer_approve_rto;
  status = SyncStatus.pending;
  block_number = none;
  b2b_entity_id = some rto_entity;
  challan_id = none;
  loan_id = none;
  ownership_id = some ownership;
  transfer_req_id = some transfer;
  insurance_id = none;
  initiator_member_id = some member;
  initiator_user_id = none;
  tx_source = TxSource.member;
}

unfoldable pub approve_transfer : Node → ℕ → ℕ → ℕ → Action ℕ
approve_transfer node own_tid rto_entity member = do
  held ← gets (λ w. find? (with_own_tid own_tid) w.ownerships)
  ownership ← or_throw held (http 404 (text "Ownership record not found."))
  waiting ← gets (λ w. find? (is_ready w own_tid rto_entity) w.transfers)
  transfer ←
      or_throw waiting
        (http 400 (text "No pending transfer request found that is ready for your RTO to approve."))
  submit_and_track node rto_entity rto (Call.approve_transfer own_tid)
      (approval_tx ownership.id transfer.id rto_entity member)
