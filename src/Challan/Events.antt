-- ===== src/Challan/Events.antt =====
-- The events of the challan contract in backend/src/modules/indexer/indexer.service.ts, without
-- the notifications. Each handler catches what its body throws.
pub mod Laws
use vehicle_lifecycle_manage.Base.{
  ℕ, suc, Option, none, some, List, [], ◌∷◌, ◌++◌, Bool, true, false, is_some, if◌then◌else◌, ◌==◌,
}
use vehicle_lifecycle_manage.Domain.{ChallanStatus, challan_issue, challan_pay, challan_cancel}
use vehicle_lifecycle_manage.Domain.Failure.{ok}
use vehicle_lifecycle_manage.Store.Rows.{
  B2bEntity, VehicleOwnership, Challan, BlockchainTransaction,
}
use vehicle_lifecycle_manage.Store.Table.{find?}
use vehicle_lifecycle_manage.Store.World.{World, Action, pure, gets, modify, caught, ◌>>=◌, ◌>>◌}
use vehicle_lifecycle_manage.Indexer.Finalize.{with_hash, finalize_tx}
use vehicle_lifecycle_manage.Challan.Rows.{
  is_id, with_id, with_chain_id, takes_chain_id, update_challan, update_challan_unique,
}

-- `tx?.challanId` and `tx?.initiatorMemberId`
abbrev pub challan_of : Option BlockchainTransaction → Option ℕ
challan_of none = none
challan_of (some t) = t.challan_id

abbrev pub initiator_of : Option BlockchainTransaction → Option ℕ
initiator_of none = none
initiator_of (some t) = t.initiator_member_id

abbrev pub issued_with : ℕ → ℕ → Challan → Challan
issued_with challan_id own_tid c = record c {
  challan_id = some challan_id;
  own_tid = some own_tid;
  status = ChallanStatus.pending;
}

-- the challan that the fallback creates
abbrev pub observed_challan : ℕ → ℕ → ℕ → Option ℕ → VehicleOwnership → B2bEntity → ℕ → ℕ → Challan
observed_challan challan_id own_tid amount member ownership entity now id = record {
  id = id;
  challan_id = some challan_id;
  ownership_id = ownership.id;
  own_tid = some own_tid;
  police_entity_id = entity.id;
  amount = amount;
  status = ChallanStatus.pending;
  is_admin_cancel = false;
  issued_at = now;
  paid_at = none;
  cancelled_at = none;
  created_by_member_id = member;
  cancelled_by_member_id = none;
  violator_user_id = ownership.owner_user_id;
  payment_order_id = none;
  payment_ref = none;
}

-- `challan.upsert` by the id on-chain
unfoldable pub upsert_challan :
    ℕ → ℕ → ℕ → Option ℕ → VehicleOwnership → B2bEntity → Action (Unit {0})
unfolding update_challan
upsert_challan challan_id own_tid amount member ownership entity w =
    if is_some (find? (with_chain_id challan_id) w.challans)
    then update_challan (with_chain_id challan_id) (issued_with challan_id own_tid) w
    else (
      ok tt,
      record w {
        challans =
            w.challans
            ++ observed_challan challan_id own_tid amount member ownership entity w.now w.next_id
              ∷ [];
        next_id = suc w.next_id;
      },
    )

-- The challan that the backend created before it sent the transaction, if there is one.
unfoldable pub pre_created : Option ℕ → List Challan → Option Challan
pre_created none rows = none
pre_created (some id) rows = find? (with_id id) rows

-- The challan of the transaction is updated; without one, the event creates it or finds it by
-- its id.
unfoldable pub write_issued :
    ℕ → ℕ → ℕ → Option ℕ → B2bEntity → VehicleOwnership → Option Challan → Action (Unit {0})
unfolding upsert_challan update_challan_unique
write_issued challan_id own_tid amount member entity ownership (some c) =
    update_challan_unique (with_id c.id) (takes_chain_id c.id challan_id)
      (issued_with challan_id own_tid)
write_issued challan_id own_tid amount member entity ownership none =
    upsert_challan challan_id own_tid amount member ownership entity

unfoldable pub record_issued :
    ℕ
    → ℕ
    → ℕ
    → Option BlockchainTransaction
    → Option B2bEntity
    → Option VehicleOwnership
    → Action (Unit {0})
unfolding write_issued pre_created
record_issued challan_id own_tid amount tx none _ w = pure tt w
record_issued challan_id own_tid amount tx (some _) none w = pure tt w
record_issued challan_id own_tid amount tx (some entity) (some ownership) w =
    write_issued challan_id own_tid amount (initiator_of tx) entity ownership
      (pre_created (challan_of tx) w.challans) w

unfoldable pub handle_challan_issued : ℕ → ℕ → ℕ → ℕ → ℕ → ℕ → World → World
unfolding record_issued finalize_tx
handle_challan_issued challan_id own_tid police_id amount hash block = caught do
  entity ← gets (λ w. find? (λ (e : B2bEntity). is_id police_id e.on_chain_id) w.entities)
  ownership ← gets (λ w. find? (λ (o : VehicleOwnership). is_id own_tid o.own_tid) w.ownerships)
  tx ← gets (λ w. find? (with_hash hash) w.transactions)
  record_issued challan_id own_tid amount tx entity ownership
  modify (finalize_tx hash challan_issue block)

-- `if (challan) { await prisma.challan.update(…) }`
unfoldable pub update_if_found : (Challan → Bool) → (Challan → Challan) → Action (Unit {0})
unfolding update_challan
update_if_found p f w = if is_some (find? p w.challans) then update_challan p f w else (ok tt, w)

unfoldable pub handle_challan_paid : ℕ → ℕ → ℕ → World → World
unfolding update_if_found finalize_tx
handle_challan_paid challan_id hash block = caught do
  now ← gets (λ w. w.now)
  update_if_found (with_chain_id challan_id)
      (λ c. record c { status = ChallanStatus.paid; paid_at = some now })
  modify (finalize_tx hash challan_pay block)

unfoldable pub handle_challan_cancelled : ℕ → Bool → ℕ → ℕ → World → World
unfolding update_if_found finalize_tx
handle_challan_cancelled challan_id is_admin_cancel hash block = caught do
  now ← gets (λ w. w.now)
  tx ← gets (λ w. find? (with_hash hash) w.transactions)
  update_if_found (with_chain_id challan_id) (λ c. record c {
    status = ChallanStatus.cancelled;
    cancelled_at = some now;
    cancelled_by_member_id = initiator_of tx;
    is_admin_cancel = is_admin_cancel;
  })
  modify (finalize_tx hash challan_cancel block)
