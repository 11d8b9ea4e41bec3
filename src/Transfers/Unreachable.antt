-- ===== src/Transfers/Unreachable.antt =====
-- What the events of the contract write never makes a transfer ready for the approval of an RTO.
use vehicle_lifecycle_manage.Base.{
  ℕ, ◌≡◌, refl, Option, none, some, List, [], ◌∷◌, false, arith, Bool-cases, Option-cases, inl, inr,
  is_some,
}
use vehicle_lifecycle_manage.Base.Lists.{All, All-append}
use vehicle_lifecycle_manage.Base.Text.{Text}
use vehicle_lifecycle_manage.Domain.{TransferStatus, TxActionType, transfer_init, transfer_cancel}
use vehicle_lifecycle_manage.Domain.Failure.{Failure, err}
use vehicle_lifecycle_manage.Store.Rows.{TransferRequest, BlockchainTransaction}
use vehicle_lifecycle_manage.Store.Table.{find?, All-update_first}
use vehicle_lifecycle_manage.Store.World.{World}
use vehicle_lifecycle_manage.Chain.Manager.{Node}
use vehicle_lifecycle_manage.Indexer.Finalize.{finalize_tx, with_hash}
use vehicle_lifecycle_manage.Transfers.Events.{
  TransferEvent, TransferLog, xfer_init, xfer_cancelled, xfer_approved, xfer_done, index_event,
  index_all, with_own_tid, with_req_id, handle_xfer_init, handle_xfer_cancelled,
  handle_xfer_approved, handle_xfer_done, upsert_transfer, user_with_wallet, initiated, set_status,
  set_approver, approved_status, approved_action,
}
use vehicle_lifecycle_manage.Transfers.Approval.{is_ready, approve_transfer}
use vehicle_lifecycle_manage.Transfers.Approval.Laws.{approve_transfer-none}

-- Neither the token nor the approval of the seller is on the row.
abbrev pub IsBare : TransferRequest → Type 0
IsBare t = (t.own_tid ≡ none) × (t.seller_ok ≡ false)

abbrev pub AllBare : World → Type 0
AllBare w = All IsBare w.transfers

finalize-transfers :
    (hash : ℕ) (action : TxActionType) (block : ℕ) (w : World)
    → (finalize_tx hash action block w).transfers ≡ w.transfers
unfolding finalize_tx
finalize-transfers hash action block w = ground arith

upsert-AllBare :
    (r : ℕ) (row : ℕ → TransferRequest) (w : World)
    → ((id : ℕ) → IsBare (row id))
    → AllBare w
    → AllBare (upsert_transfer r row w)
unfolding upsert_transfer
upsert-AllBare r row w bare_row bare =
    elim (Bool-cases (is_some (find? (with_req_id r) w.transfers))) [
      | inl known ↦ rw known (
          All-update_first IsBare (with_req_id r) (set_status TransferStatus.pending) w.transfers
            (λ t _ b. b) bare)
      | inr new ↦
          rw new (All-append IsBare w.transfers (row w.next_id ∷ []) bare (bare_row w.next_id, tt))
    ]

init-AllBare :
    (r n : ℕ) (seller buyer : Text) (hash block : ℕ) (w : World)
    → AllBare w
    → AllBare (handle_xfer_init r n seller buyer hash block w)
unfolding handle_xfer_init
init-AllBare r n seller buyer hash block w bare =
    elim (Option-cases (find? (with_own_tid n) w.ownerships)) [
      | inl missing ↦
          rw (handle_xfer_init, missing, finalize-transfers hash transfer_init block w) bare
      | inr (o, found) ↦
          rw
            (
              handle_xfer_init,
              found,
              finalize-transfers hash transfer_init block (
                  upsert_transfer r
                    (initiated r o.id seller buyer (user_with_wallet seller w)
                      (user_with_wallet buyer w) w.now)
                    w),
            )
            (upsert-AllBare r
              (initiated r o.id seller buyer (user_with_wallet seller w) (user_with_wallet buyer w)
                w.now)
              w (λ id. (refl, refl)) bare)
    ]

approved_row :
    (approver : ℕ) (tx : Option BlockchainTransaction) (t : TransferRequest)
    → IsBare t
    → IsBare (set_status (approved_status approver) (set_approver approver tx t))
approved_row approver none t b = b
approved_row approver (some tx) t b = ground arith

event-AllBare :
    (e : TransferEvent) (hash block : ℕ) (w : World)
    → AllBare w
    → AllBare (index_event e hash block w)
unfolding index_event handle_xfer_cancelled handle_xfer_approved handle_xfer_done
event-AllBare (xfer_init r n seller buyer) hash block w bare =
    init-AllBare r n seller buyer hash block w bare
event-AllBare (xfer_cancelled r n) hash block w bare =
    rw (finalize-transfers hash transfer_cancel block _) (
      All-update_first IsBare (with_req_id r) (set_status TransferStatus.cancelled) w.transfers
        (λ t _ b. b) bare)
event-AllBare (xfer_approved r approver) hash block w bare =
    rw (finalize-transfers hash (approved_action approver) block _) (
      All-update_first IsBare (with_req_id r) _ w.transfers
        (λ t _ b. approved_row approver (find? (with_hash hash) w.transactions) t b) bare)
event-AllBare (xfer_done r n new_owner) hash block w bare = bare

all-AllBare : (ls : List TransferLog) (w : World) → AllBare w → AllBare (index_all ls w)
all-AllBare [] w bare = bare
all-AllBare (l ∷ ls) w bare =
    all-AllBare ls (index_event l.event l.hash l.block w)
      (event-AllBare l.event l.hash l.block w bare)

none_ready :
    (w : World) (n rto : ℕ) (ts : List TransferRequest)
    → All IsBare ts
    → find? (is_ready w n rto) ts ≡ none
none_ready w n rto [] bare = refl
none_ready w n rto (t ∷ ts) bare = ground (arith, none_ready w n rto ts bare.1)

-- Where every transfer on record has come from the events of the contract (there was none before
-- them), `approveTransfer` answers with an error whatever events there were, for every vehicle and
-- every RTO, and sends nothing.
pub approval_is_unreachable :
    (node : Node) (ls : List TransferLog) (w : World) (own_tid rto_entity member : ℕ)
    → w.transfers ≡ []
    → (e : Failure) × (approve_transfer node own_tid rto_entity member (index_all ls w)
        ≡ (err e, index_all ls w))
approval_is_unreachable node ls w own_tid rto_entity member empty =
    approve_transfer-none node own_tid rto_entity member (index_all ls w) (
      none_ready (index_all ls w) own_tid rto_entity (index_all ls w).transfers
        (all-AllBare ls w (rw empty tt)))
