-- ===== src/Indexer/Finalize.antt =====
-- `finalizeTx` of backend/src/modules/indexer/indexer.service.ts, without the message to the
-- initiator.
use vehicle_lifecycle_manage.Base.{
  ℕ, suc, none, some, [], ◌∷◌, ◌++◌, Bool, ◌==◌, is_some, if◌then◌else◌,
}
use vehicle_lifecycle_manage.Domain.{TxActionType, TxSource, SyncStatus}
use vehicle_lifecycle_manage.Store.Rows.{BlockchainTransaction}
use vehicle_lifecycle_manage.Store.Table.{find?, update_first}
use vehicle_lifecycle_manage.Store.World.{World}

abbrev pub with_hash : ℕ → BlockchainTransaction → Bool
with_hash hash t = t.tx_hash == hash

-- `{ status: MINED, blockNumber }`
abbrev pub mined_at : ℕ → BlockchainTransaction → BlockchainTransaction
mined_at block t = record t { status = SyncStatus.mined; block_number = some block }

-- the row that `upsert` creates for a transaction that the backend has not sent
abbrev pub observed_tx : ℕ → TxActionType → ℕ → ℕ → BlockchainTransaction
observed_tx hash action block id = record {
  id = id;
  tx_hash = hash;
  action_type = action;
  status = SyncStatus.mined;
  block_number = some block;
  b2b_entity_id = none;
  challan_id = none;
  loan_id = none;
  ownership_id = none;
  transfer_req_id = none;
  insurance_id = none;
  initiator_member_id = none;
  initiator_user_id = none;
  tx_source = TxSource.member;
}

unfoldable pub finalize_tx : ℕ → TxActionType → ℕ → World → World
finalize_tx hash action block w =
    if is_some (find? (with_hash hash) w.transactions)
    then record w { transactions = update_first (with_hash hash) (mined_at block) w.transactions }
    else record w {
      transactions = w.transactions ++ observed_tx hash action block w.next_id ∷ [];
      next_id = suc w.next_id;
    }
