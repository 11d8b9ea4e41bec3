-- ===== src/Transfers/Events.antt =====
-- `handleXferInit`, `handleXferCancelled`, `handleXferApproved` and `handleXferDone` of
-- backend/src/modules/indexer/indexer.service.ts, without the notifications.
use vehicle_lifecycle_manage.Base.{
  ℕ, suc, Option, none, some, List, [], ◌∷◌, ◌++◌, Bool, false, ◌==◌, is_some, if◌then◌else◌,
}
use vehicle_lifecycle_manage.Base.Text.{Text, text_eq, to_lower}
use vehicle_lifecycle_manage.Domain.{
  TransferStatus, TxActionType, transfer_init, transfer_cancel, transfer_approve_buyer,
  transfer_approve_rto,
}
use vehicle_lifecycle_manage.Store.Rows.{
  User, VehicleOwnership, TransferRequest, BlockchainTransaction,
}
use vehicle_lifecycle_manage.Store.Table.{find?, update_first}
use vehicle_lifecycle_manage.Store.World.{World}
use vehicle_lifecycle_manage.Challan.Rows.{is_id}
use vehicle_lifecycle_manage.Indexer.Finalize.{finalize_tx, with_hash}

abbrev pub with_own_tid : ℕ → VehicleOwnership → Bool
with_own_tid n o = is_id n o.own_tid

abbrev pub with_req_id : ℕ → TransferRequest → Bool
with_req_id n t = is_id n t.req_id

abbrev pub user_id_of : Option User → Option ℕ
user_id_of none = none
user_id_of (some u) = some u.id

-- the user with the wallet of an event
unfoldable pub user_with_wallet : Text → World → Option ℕ
user_with_wallet wallet w =
    user_id_of (find? (λ (u : User). text_eq u.wallet_address (to_lower wallet)) w.users)

-- the row that the `create` of `handleXferInit` writes: the columns that it does not name have
-- their defaults
abbrev pub initiated : ℕ → ℕ → Text → Text → Option ℕ → Option ℕ → ℕ → ℕ → TransferRequest
initiated req_id ownership seller buyer seller_user buyer_user now id = record {
  id = id;
  req_id = some req_id;
  ownership_id = ownership;
  own_tid = none;
  seller_wallet = to_lower seller;
  buyer_wallet = to_lower buyer;
  status = TransferStatus.pending;
  req_date = now;
  completed_date = none;
  seller_ok = false;
  buyer_ok = false;
  rto_ok = false;
  seller_user_id = seller_user;
  buyer_user_id = buyer_user;
  rto_approver_member_id = none;
}

abbrev pub set_status : TransferStatus → TransferRequest → TransferRequest
set_status s t = record t { status = s }

-- `transferRequest.upsert` by `reqId`
unfoldable pub upsert_transfer : ℕ → (ℕ → TransferRequest) → World → World
upsert_transfer req_id row w =
    if is_some (find? (with_req_id req_id) w.transfers)
    then record w {
      transfers = update_first (with_req_id req_id) (set_status TransferStatus.pending) w.transfers;
    }
    else record w { transfers = w.transfers ++ row w.next_id ∷ []; next_id = suc w.next_id }

unfoldable pub handle_xfer_init : ℕ → ℕ → Text → Text → ℕ → ℕ → World → World
unfolding upsert_transfer user_with_wallet finalize_tx
handle_xfer_init req_id own_tid seller buyer hash block w =
    finalize_tx hash transfer_init block (elim (find? (with_own_tid own_tid) w.ownerships) [
      | none ↦ w
      | some o ↦
          upsert_transfer req_id
            (initiated req_id o.id seller buyer (user_with_wallet seller w)
              (user_with_wallet buyer w) w.now)
            w
    ])

unfoldable pub handle_xfer_cancelled : ℕ → ℕ → ℕ → World → World
unfolding finalize_tx
handle_xfer_cancelled req_id hash block w = finalize_tx hash transfer_cancel block (record w {
  transfers = update_first (with_req_id req_id) (set_status TransferStatus.cancelled) w.transfers;
})

-- `rtoApproverMemberId`, where the second approval was sent by a member
abbrev pub set_approver : ℕ → Option BlockchainTransaction → TransferRequest → TransferRequest
set_approver approver none t = t
set_approver approver (some tx) t =
    if approver == 2
    then elim tx.initiator_member_id [
      | none ↦ t
      | some m ↦ record t { rto_approver_member_id = some m }
    ]
    else t

abbrev pub approved_status : ℕ → TransferStatus
approved_status approver =
    if approver == 2
    then TransferStatus.rto_approved
    else if approver == 1
    then TransferStatus.buyer_accepted
    else TransferStatus.pending

abbrev pub approved_action : ℕ → TxActionType
approved_action approver = if approver == 2 then transfer_approve_rto else transfer_approve_buyer

unfoldable pub handle_xfer_approved : ℕ → ℕ → ℕ → ℕ → World → World
unfolding finalize_tx
handle_xfer_approved req_id approver hash block w =
    finalize_tx hash (approved_action approver) block (record w {
      transfers =
          update_first (with_req_id req_id)
            (λ t.
              set_status (approved_status approver)
                (set_approver approver (find? (with_hash hash) w.transactions) t))
            w.transfers;
    })

-- The new owner takes the ownership token over.
abbrev pub owned_by : Text → Option ℕ → VehicleOwnership → VehicleOwnership
owned_by wallet user o = record o { owner_wallet = to_lower wallet; owner_user_id = user }

unfoldable pub handle_xfer_done : ℕ → Text → World → World
unfolding user_with_wallet
handle_xfer_done own_tid new_owner w = record w {
  ownerships =
      update_first (with_own_tid own_tid) (owned_by new_owner (user_with_wallet new_owner w))
        w.ownerships;
}

-- The events of a transfer, as the contract emits them.
pub data TransferEvent : Type 0 where
  xfer_init : (req_id own_tid : ℕ) (seller buyer : Text) → TransferEvent
  xfer_cancelled : (req_id own_tid : ℕ) → TransferEvent
  xfer_approved : (req_id approver : ℕ) → TransferEvent
  xfer_done : (req_id own_tid : ℕ) (new_owner : Text) → TransferEvent

-- A log: the event with the hash of its transaction and its block.
pub record TransferLog : Type 0 where
  pub event : TransferEvent
  pub hash : ℕ
  pub block : ℕ

unfoldable pub index_event : TransferEvent → ℕ → ℕ → World → World
index_event (xfer_init req_id own_tid seller buyer) hash block w =
    handle_xfer_init req_id own_tid seller buyer hash block w
index_event (xfer_cancelled req_id own_tid) hash block w = handle_xfer_cancelled req_id hash block w
index_event (xfer_approved req_id approver) hash block w =
    handle_xfer_approved req_id approver hash block w
index_event (xfer_done req_id own_tid new_owner) hash block w = handle_xfer_done own_tid new_owner w

abbrev pub index_all : List TransferLog → World → World
index_all [] w = w
index_all (l ∷ ls) w = index_all ls (index_event l.event l.hash l.block w)
