-- ===== src/Challan/Reconcile/Agreement.antt =====
-- The reconciliation writes to the challans what the missed event would have written.
use vehicle_lifecycle_manage.Base.{ℕ, ◌≡◌, refl, sym, ◌∙◌, ap, Option, some, arith}
use vehicle_lifecycle_manage.Domain.{ChallanStatus, TxActionType, challan_issue, challan_pay}
use vehicle_lifecycle_manage.Domain.Failure.{Result, ok, err}
use vehicle_lifecycle_manage.Store.Rows.{
  Challan, BlockchainTransaction, B2bEntity, VehicleOwnership,
}
use vehicle_lifecycle_manage.Store.Table.{find?}
use vehicle_lifecycle_manage.Store.World.{World, Action, modify, caught, ◌>>◌}
use vehicle_lifecycle_manage.Indexer.Finalize.{with_hash, finalize_tx}
use vehicle_lifecycle_manage.Chain.Receipt.{Receipt, first_event, as_challan_issued}
use vehicle_lifecycle_manage.Challan.Rows.{
  is_id, with_id, with_chain_id, takes_chain_id, update_challan, update_challan_unique,
}
use vehicle_lifecycle_manage.Challan.Sound.{IsSound, update_first-key, find?-key}
use vehicle_lifecycle_manage.Challan.Events.{
  issued_with, pre_created, write_issued, record_issued, handle_challan_issued, handle_challan_paid,
}
use vehicle_lifecycle_manage.Challan.Events.Laws.{handle_challan_paid-eq}
use vehicle_lifecycle_manage.Challan.Reconcile.{reconcile_challan, get_block_timestamp}

pub finalize_tx-challans :
    (hash : ℕ) (action : TxActionType) (block : ℕ) (w : World)
    → (finalize_tx hash action block w).challans ≡ w.challans
unfolding finalize_tx
finalize_tx-challans hash action block w = ground arith

-- Whether or not a write throws, the mark of the transaction that follows it leaves the challans.
caught_finalize-challans :
    (m : Action (Unit {0})) (hash : ℕ) (action : TxActionType) (block : ℕ) (w : World)
    → (caught (m >> modify (finalize_tx hash action block)) w).challans ≡ (m w).1.challans
caught_finalize-challans m hash action block w = by_result (m w).0 (m w).1
  where
    by_result :
        (r : Result (Unit {0})) (v : World)
        → (elim r as (λ _. Result (Unit {0}) × World) [
          | ok a ↦ (ok tt, finalize_tx hash action block v)
          | err e ↦ (err e, v)
        ]).1.challans
          ≡ v.challans
    by_result (ok a) v = finalize_tx-challans hash action block v
    by_result (err e) v = refl

-- For a payment whose event the indexer missed, the reconciliation of the receipt writes the same
-- challans as the event would have written at the time of its block.
pub reconcile_pay_agrees :
    (block_time : ℕ → Option ℕ) (receipt : Receipt) (w : World) (c : Challan)
    (challan_id hash block : ℕ)
    → IsSound w
    → find? (with_chain_id challan_id) w.challans ≡ some c
    → block_time receipt.block_number ≡ some w.now
    → (reconcile_challan block_time receipt challan_pay c.id w).1.challans
      ≡ (handle_challan_paid challan_id hash block w).challans
unfolding reconcile_challan update_challan get_block_timestamp
reconcile_pay_agrees block_time receipt w c challan_id hash block sound found at =
    rw (find?-key (with_chain_id challan_id) w.challans c sound.distinct found, reconcile_challan)
      (rw (at, get_block_timestamp)
        (update_first-key (with_chain_id challan_id)
            (λ c. record c { status = ChallanStatus.paid; paid_at = some w.now }) w.challans c
            sound.distinct found
          ∙ sym (
              ap (λ (v : World). v.challans) (handle_challan_paid-eq challan_id hash block w)
              ∙ finalize_tx-challans hash challan_pay block _)))

-- With the challan of its transaction on record, the event updates that challan.
pub record_issued-known :
    (w : World) (c : Challan) (t : BlockchainTransaction) (e : B2bEntity) (o : VehicleOwnership)
    (challan_id own_tid amount : ℕ)
    → find? (with_id c.id) w.challans ≡ some c
    → t.challan_id ≡ some c.id
    → record_issued challan_id own_tid amount (some t) (some e) (some o) w
      ≡ update_challan_unique
          (with_id c.id)
          (takes_chain_id c.id challan_id)
          (issued_with challan_id own_tid)
          w
unfolding record_issued write_issued pre_created
record_issued-known w c t e o challan_id own_tid amount found refers =
    ap (λ before. write_issued challan_id own_tid amount t.initiator_member_id e o before w)
      (ap (λ r. pre_created r w.challans) refers ∙ found)

-- For a challan that the police issued through the backend, whose transaction and challan are on
-- record, the reconciliation of the receipt writes the same challans as the missed event.
pub reconcile_issue_agrees :
    (block_time : ℕ → Option ℕ) (receipt : Receipt) (w : World) (c : Challan)
    (t : BlockchainTransaction) (e : B2bEntity) (o : VehicleOwnership)
    (challan_id own_tid police_id amount hash block : ℕ)
    → find? (with_id c.id) w.challans ≡ some c
    → find? (with_hash hash) w.transactions ≡ some t
    → t.challan_id ≡ some c.id
    → find? (λ (e : B2bEntity). is_id police_id e.on_chain_id) w.entities ≡ some e
    → find? (λ (o : VehicleOwnership). is_id own_tid o.own_tid) w.ownerships ≡ some o
    → first_event as_challan_issued receipt.events ≡ some (challan_id, own_tid)
    → (reconcile_challan block_time receipt challan_issue c.id w).1.challans
      ≡ (handle_challan_issued challan_id own_tid police_id amount hash block w).challans
unfolding reconcile_challan handle_challan_issued
reconcile_issue_agrees block_time receipt w c t e o challan_id own_tid police_id amount hash block
      found tracked refers entity ownership event =
    rw (event, reconcile_challan)
      (sym (
        caught_finalize-challans
          (record_issued challan_id own_tid amount (find? (with_hash hash) w.transactions)
            (find? (λ (e : B2bEntity). is_id police_id e.on_chain_id) w.entities)
            (find? (λ (o : VehicleOwnership). is_id own_tid o.own_tid) w.ownerships))
          hash challan_issue block w
        ∙ rw (tracked, entity, ownership)
            (ap (λ (x : Result (Unit {0}) × World). x.1.challans)
              (record_issued-known w c t e o challan_id own_tid amount found refers))))
