-- ===== src/Challan/Events/Laws.antt =====
-- What the events of challans keep.
use vehicle_lifecycle_manage.Base.{
  ℕ, ◌≡◌, refl, sym, ap, Option, none, some, List, [], ◌∷◌, Bool, false, arith, Bool-cases, inl,
  inr, is_some,
}
use vehicle_lifecycle_manage.Domain.{
  ChallanStatus, TxActionType, challan_issue, challan_pay, challan_cancel,
}
use vehicle_lifecycle_manage.Domain.Failure.{Result, ok, err}
use vehicle_lifecycle_manage.Store.Rows.{
  Challan, BlockchainTransaction, B2bEntity, VehicleOwnership,
}
use vehicle_lifecycle_manage.Store.Table.{find?, update_first}
use vehicle_lifecycle_manage.Store.World.{World, Action, modify, caught, ◌>>◌}
use vehicle_lifecycle_manage.Indexer.Finalize.{with_hash, finalize_tx}
use vehicle_lifecycle_manage.Challan.Rows.{
  is_id, with_id, with_chain_id, takes_chain_id, update_challan, update_challan_unique,
}
use vehicle_lifecycle_manage.Challan.Sound.{
  IsSound, IsDated, IsSound-grow, IsSound-update, IsSound-append,
}
use vehicle_lifecycle_manage.Challan.Events.{
  issued_with, upsert_challan, pre_created, write_issued, record_issued, update_if_found,
  handle_challan_issued, handle_challan_paid, handle_challan_cancelled, challan_of, initiator_of,
}

pub finalize_tx-IsSound :
    (hash : ℕ) (action : TxActionType) (block : ℕ) (w : World)
    → IsSound w
    → IsSound (finalize_tx hash action block w)
unfolding finalize_tx
finalize_tx-IsSound hash action block w s = IsSound-grow w _ (ground arith) (ground arith) s

pub update_challan-IsSound :
    (p : Challan → Bool) (f : Challan → Challan) (w : World)
    → ((c : Challan) → (f c).id ≡ c.id)
    → ((c : Challan) → IsDated c.status c → IsDated (f c).status (f c))
    → IsSound w
    → IsSound (update_challan p f w).1
unfolding update_challan
update_challan-IsSound p f w same dates s = elim (Bool-cases (is_some (find? p w.challans))) [
  | inl found ↦ rw (found, update_challan) (IsSound-update p f w same dates s)
  | inr missing ↦ rw (missing, update_challan) s
]

pub update_challan_unique-IsSound :
    (p taken : Challan → Bool) (f : Challan → Challan) (w : World)
    → ((c : Challan) → (f c).id ≡ c.id)
    → ((c : Challan) → IsDated c.status c → IsDated (f c).status (f c))
    → IsSound w
    → IsSound (update_challan_unique p taken f w).1
unfolding update_challan_unique update_challan
update_challan_unique-IsSound p taken f w same dates s =
    ground (arith, update_challan-IsSound p f w same dates s)

update_first-missing :
    (p : Challan → Bool) (f : Challan → Challan) (cs : List Challan)
    → is_some (find? p cs) ≡ false
    → update_first p f cs ≡ cs
update_first-missing p f [] h = refl
update_first-missing p f (c ∷ cs) h = ground (arith, update_first-missing p f cs)

-- The update of a row if it is found is the update of the table.
update_if_found-eq :
    (p : Challan → Bool) (f : Challan → Challan) (w : World)
    → update_if_found p f w ≡ (ok tt, record w { challans = update_first p f w.challans })
unfolding update_if_found update_challan
update_if_found-eq p f w = elim (Bool-cases (is_some (find? p w.challans))) [
  | inl found ↦ rw (found, update_if_found) refl
  | inr missing ↦
      rw (missing, update_if_found)
        (ap (λ cs. (ok tt, record w { challans = cs }))
          (sym (update_first-missing p f w.challans missing)))
]

-- The payment event marks the challan, if it is known, and the transaction.
pub handle_challan_paid-eq :
    (challan_id hash block : ℕ) (w : World)
    → handle_challan_paid challan_id hash block w
      ≡ finalize_tx hash challan_pay block (record w {
        challans =
            update_first
              (with_chain_id challan_id)
              (λ c. record c { status = ChallanStatus.paid; paid_at = some w.now })
              w.challans;
      })
unfolding handle_challan_paid
handle_challan_paid-eq challan_id hash block w = ground (
  arith,
  update_if_found-eq (with_chain_id challan_id)
      (λ c. record c { status = ChallanStatus.paid; paid_at = some w.now }) w,
)

pub handle_challan_cancelled-eq :
    (challan_id : ℕ) (is_admin_cancel : Bool) (hash block : ℕ) (w : World)
    → handle_challan_cancelled challan_id is_admin_cancel hash block w
      ≡ finalize_tx hash challan_cancel block (record w {
        challans =
            update_first
              (with_chain_id challan_id)
              (λ c. record c {
                status = ChallanStatus.cancelled;
                cancelled_at = some w.now;
                cancelled_by_member_id = initiator_of (find? (with_hash hash) w.transactions);
                is_admin_cancel = is_admin_cancel;
              })
              w.challans;
      })
unfolding handle_challan_cancelled
handle_challan_cancelled-eq challan_id is_admin_cancel hash block w = ground (
  arith,
  update_if_found-eq (with_chain_id challan_id)
      (λ c. record c {
        status = ChallanStatus.cancelled;
        cancelled_at = some w.now;
        cancelled_by_member_id = initiator_of (find? (with_hash hash) w.transactions);
        is_admin_cancel = is_admin_cancel;
      })
      w,
)

pub handle_challan_paid-IsSound :
    (challan_id hash block : ℕ) (w : World)
    → IsSound w
    → IsSound (handle_challan_paid challan_id hash block w)
handle_challan_paid-IsSound challan_id hash block w s =
    rw (handle_challan_paid-eq challan_id hash block w) (
      finalize_tx-IsSound hash challan_pay block _
        (IsSound-update (with_chain_id challan_id) _ w (λ c. refl) (λ c d. ground arith) s))

pub handle_challan_cancelled-IsSound :
    (challan_id : ℕ) (is_admin_cancel : Bool) (hash block : ℕ) (w : World)
    → IsSound w
    → IsSound (handle_challan_cancelled challan_id is_admin_cancel hash block w)
handle_challan_cancelled-IsSound challan_id is_admin_cancel hash block w s =
    rw (handle_challan_cancelled-eq challan_id is_admin_cancel hash block w) (
      finalize_tx-IsSound hash challan_cancel block _
        (IsSound-update (with_chain_id challan_id) _ w (λ c. refl) (λ c d. ground arith) s))

-- A write that succeeds is followed by the mark of the transaction; one that throws ends the handler.
caught_finalize :
    (m : Action (Unit {0})) (hash : ℕ) (action : TxActionType) (block : ℕ) (w : World)
    → IsSound (m w).1
    → IsSound (caught (m >> modify (finalize_tx hash action block)) w)
caught_finalize m hash action block w s = by_result (m w).0 (m w).1 s
  where
    by_result :
        (r : Result (Unit {0})) (v : World)
        → IsSound v
        → IsSound
            (elim r as (λ _. Result (Unit {0}) × World) [
              | ok a ↦ (ok tt, finalize_tx hash action block v)
              | err e ↦ (err e, v)
            ]).1
    by_result (ok a) v k = finalize_tx-IsSound hash action block v k
    by_result (err e) v k = k

upsert_challan-IsSound :
    (challan_id own_tid amount : ℕ) (member : Option ℕ) (o : VehicleOwnership) (e : B2bEntity)
    (w : World)
    → IsSound w
    → IsSound (upsert_challan challan_id own_tid amount member o e w).1
unfolding upsert_challan
upsert_challan-IsSound challan_id own_tid amount member o e w s =
    elim (Bool-cases (is_some (find? (with_chain_id challan_id) w.challans))) [
      | inl known ↦
          rw (known, upsert_challan)
            (IsSound-update (with_chain_id challan_id) (issued_with challan_id own_tid) w
              (λ c. refl) (λ c d. tt) s)
      | inr new ↦ rw (new, upsert_challan) (IsSound-append _ w refl tt s)
    ]

write_issued-IsSound :
    (challan_id own_tid amount : ℕ) (member : Option ℕ) (e : B2bEntity) (o : VehicleOwnership)
    (before : Option Challan) (w : World)
    → IsSound w
    → IsSound (write_issued challan_id own_tid amount member e o before w).1
unfolding write_issued
write_issued-IsSound challan_id own_tid amount member e o none w s =
    upsert_challan-IsSound challan_id own_tid amount member o e w s
write_issued-IsSound challan_id own_tid amount member e o (some c) w s =
    update_challan_unique-IsSound (with_id c.id) (takes_chain_id c.id challan_id)
      (issued_with challan_id own_tid) w (λ c. refl) (λ c d. tt) s

record_issued-IsSound :
    (challan_id own_tid amount : ℕ) (tx : Option BlockchainTransaction) (e : Option B2bEntity)
    (o : Option VehicleOwnership) (w : World)
    → IsSound w
    → IsSound (record_issued challan_id own_tid amount tx e o w).1
unfolding record_issued
record_issued-IsSound challan_id own_tid amount tx none o w s = s
record_issued-IsSound challan_id own_tid amount tx (some e) none w s = s
record_issued-IsSound challan_id own_tid amount tx (some e) (some o) w s =
    write_issued-IsSound challan_id own_tid amount (initiator_of tx) e o
      (pre_created (challan_of tx) w.challans) w s

pub handle_challan_issued-IsSound :
    (challan_id own_tid police_id amount hash block : ℕ) (w : World)
    → IsSound w
    → IsSound (handle_challan_issued challan_id own_tid police_id amount hash block w)
unfolding handle_challan_issued
handle_challan_issued-IsSound challan_id own_tid police_id amount hash block w s =
    caught_finalize
      (record_issued challan_id own_tid amount (find? (with_hash hash) w.transactions)
        (find? (λ (e : B2bEntity). is_id police_id e.on_chain_id) w.entities)
        (find? (λ (o : VehicleOwnership). is_id own_tid o.own_tid) w.ownerships))
      hash challan_issue block w
      (record_issued-IsSound challan_id own_tid amount (find? (with_hash hash) w.transactions)
        (find? (λ (e : B2bEntity). is_id police_id e.on_chain_id) w.entities)
        (find? (λ (o : VehicleOwnership). is_id own_tid o.own_tid) w.ownerships) w s)
