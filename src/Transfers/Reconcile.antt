-- ===== src/Transfers/Reconcile.antt =====
-- The branches for transfers of backend/src/jobs/reconciliation.worker.ts, on the request of the
-- transaction. The arguments of the events of the receipt are given.
use vehicle_lifecycle_manage.Base.{
  ℕ, suc, Option, none, some, Bool, true, false, ◌==◌, is_some, if◌then◌else◌,
}
use vehicle_lifecycle_manage.Base.Text.{Text, text_eq}
use vehicle_lifecycle_manage.Domain.{
  TransferStatus, TxActionType, transfer_init, transfer_cancel, transfer_approve_buyer,
  transfer_approve_rto,
}
use vehicle_lifecycle_manage.Domain.Failure.{ok, err}
use vehicle_lifecycle_manage.Store.Rows.{
  User, VehicleOwnership, TransferRequest, BlockchainTransaction,
}
use vehicle_lifecycle_manage.Store.Table.{find?, update_first, remove}
use vehicle_lifecycle_manage.Store.World.{
  World, Action, pure, gets, caught, record_not_found, ◌>>=◌, ◌>>◌,
}
use vehicle_lifecycle_manage.Challan.Rows.{is_id}
use vehicle_lifecycle_manage.Transfers.Events.{set_status, user_id_of}

-- The arguments of XferInit: reqId, ownTid, seller and buyer.
pub record Start : Type 0 where
  pub req_id : ℕ
  pub own_tid : ℕ
  pub seller : Text
  pub buyer : Text

abbrev pub with_transfer_id : ℕ → TransferRequest → Bool
with_transfer_id id t = t.id == id

abbrev pub with_ownership_id : ℕ → VehicleOwnership → Bool
with_ownership_id id o = o.id == id

-- the user with just this wallet: the text of the event is not put in lower case
unfoldable pub user_of_wallet : Text → World → Option ℕ
user_of_wallet wallet w = user_id_of (find? (λ (u : User). text_eq u.wallet_address wallet) w.users)

-- `transferRequest.update` by the key, which returns the row
unfoldable pub update_transfer : ℕ → (TransferRequest → TransferRequest) → Action TransferRequest
update_transfer id f w = elim (find? (with_transfer_id id) w.transfers) [
  | none ↦ (err record_not_found, w)
  | some t ↦ (ok (f t), record w { transfers = update_first (with_transfer_id id) f w.transfers })
]

-- `vehicleOwnership.update` by the key
unfoldable pub update_ownership : ℕ → (VehicleOwnership → VehicleOwnership) → Action (Unit {0})
update_ownership id f w =
    if is_some (find? (with_ownership_id id) w.ownerships)
    then (ok tt, record w { ownerships = update_first (with_ownership_id id) f w.ownerships })
    else (err record_not_found, w)

abbrev pub taken_over : Text → Option ℕ → VehicleOwnership → VehicleOwnership
taken_over wallet user o = record o {
  owner_wallet = wallet;
  owner_user_id = user;
  transfer_count = suc o.transfer_count;
}

-- The request is completed, and its ownership goes to the new owner.
unfoldable pub complete_transfer :
    (TransferRequest → TransferRequest) → Text → ℕ → Action (Unit {0})
unfolding update_transfer update_ownership user_of_wallet
complete_transfer f wallet id = do
  user ← gets (user_of_wallet wallet)
  now ← gets (λ w. w.now)
  updated ←
      update_transfer id
        (λ t. f (record t { status = TransferStatus.rto_approved; completed_date = some now }))
  update_ownership updated.ownership_id (taken_over wallet user)

abbrev pub started : Start → Option ℕ → Option ℕ → TransferRequest → TransferRequest
started s seller buyer t = record t {
  req_id = some s.req_id;
  own_tid = some s.own_tid;
  seller_ok = true;
  status = TransferStatus.pending;
  seller_user_id = seller;
  buyer_user_id = buyer;
}

abbrev pub sets_buyer_ok : Bool → TransferRequest → TransferRequest
sets_buyer_ok b t = record t { buyer_ok = b }

abbrev pub sets_rto_ok : Bool → TransferRequest → TransferRequest
sets_rto_ok b t = record t { rto_ok = b }

unfoldable pub reconcile_start : Option Start → ℕ → Action (Unit {0})
unfolding user_of_wallet update_transfer
reconcile_start none id = pure tt
reconcile_start (some s) id = do
  seller ← gets (user_of_wallet s.seller)
  buyer ← gets (user_of_wallet s.buyer)
  update_transfer id (started s seller buyer)
  pure tt

-- `doneEvent` is looked at before `appEvent`.
unfoldable pub reconcile_buyer : Bool → Option Text → ℕ → Action (Unit {0})
unfolding complete_transfer update_transfer
reconcile_buyer approved (some wallet) id = complete_transfer (sets_buyer_ok true) wallet id
reconcile_buyer true none id = do
  update_transfer id (λ t. sets_buyer_ok true (set_status TransferStatus.buyer_accepted t))
  pure tt
reconcile_buyer false none id = pure tt

unfoldable pub reconcile_rto : Option Text → ℕ → Action (Unit {0})
unfolding complete_transfer
reconcile_rto none id = pure tt
reconcile_rto (some wallet) id = complete_transfer (sets_rto_ok true) wallet id

-- Success: the arguments of XferInit, whether there is an XferApproved, and the third argument of
-- XferDone.
unfoldable pub reconcile_transfer :
    Option Start → Bool → Option Text → TxActionType → ℕ → Action (Unit {0})
unfolding reconcile_start reconcile_buyer reconcile_rto update_transfer
reconcile_transfer start approved new_owner transfer_init id = reconcile_start start id
reconcile_transfer start approved new_owner transfer_approve_buyer id =
    reconcile_buyer approved new_owner id
reconcile_transfer start approved new_owner transfer_approve_rto id = reconcile_rto new_owner id
reconcile_transfer start approved new_owner transfer_cancel id = do
  update_transfer id (set_status TransferStatus.cancelled)
  pure tt
reconcile_transfer start approved new_owner _ id = pure tt

-- `transferRequest.delete`: its transactions go with it, by the foreign key
unfoldable pub delete_transfer : ℕ → World → World
delete_transfer id w = record w {
  transfers = remove (with_transfer_id id) w.transfers;
  transactions = remove (λ (t : BlockchainTransaction). is_id id t.transfer_req_id) w.transactions;
}

-- The branches of `handleRevertedRollback`, each of which ignores a request that is missing.
unfoldable pub rollback_transfer : TxActionType → ℕ → World → World
unfolding delete_transfer update_transfer
rollback_transfer transfer_init id w = delete_transfer id w
rollback_transfer transfer_approve_buyer id w =
    caught (update_transfer id (λ t. sets_buyer_ok false (set_status TransferStatus.pending t))) w
rollback_transfer transfer_approve_rto id w =
    caught
      (update_transfer id (λ t. sets_rto_ok false (set_status TransferStatus.buyer_accepted t))) w
rollback_transfer transfer_cancel id w =
    caught (update_transfer id (set_status TransferStatus.pending)) w
rollback_transfer _ id w = w
