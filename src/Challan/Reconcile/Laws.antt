-- ===== src/Challan/Reconcile/Laws.antt =====
-- What the reconciliation of challans keeps, and where it agrees with the events.
use vehicle_lifecycle_manage.Base.{
  ℕ, ◌≡◌, refl, inl, inr, Option, none, some, Bool, arith, Bool-cases, Option-cases,
}
use vehicle_lifecycle_manage.Domain.{
  ChallanStatus, TxActionType, challan_issue, challan_pay, challan_cancel,
}
use vehicle_lifecycle_manage.Store.Rows.{Challan}
use vehicle_lifecycle_manage.Store.Table.{find?}
use vehicle_lifecycle_manage.Store.World.{World}
use vehicle_lifecycle_manage.Chain.Receipt.{
  Receipt, first_event, as_challan_issued, as_admin_cancel,
}
use vehicle_lifecycle_manage.Challan.Rows.{with_id, with_chain_id, takes_chain_id}
use vehicle_lifecycle_manage.Challan.Police.{is_cancelled}
use vehicle_lifecycle_manage.Challan.Sound.{IsSound, IsSound-remove}
use vehicle_lifecycle_manage.Challan.Events.{issued_with}
use vehicle_lifecycle_manage.Challan.Events.Laws.{
  update_challan-IsSound, update_challan_unique-IsSound,
}
use vehicle_lifecycle_manage.Challan.Reconcile.{
  reconcile_challan, cancel_by_admin, replay_admin_cancel, delete_challan, rollback_challan,
  get_block_timestamp,
}

reconcile_issue-IsSound :
    (block_time : ℕ → Option ℕ) (receipt : Receipt) (id : ℕ) (e : Option (ℕ × ℕ)) (w : World)
    → first_event as_challan_issued receipt.events ≡ e
    → IsSound w
    → IsSound (reconcile_challan block_time receipt challan_issue id w).1
unfolding reconcile_challan
reconcile_issue-IsSound block_time receipt id none w is_e s = rw (is_e, reconcile_challan) s
reconcile_issue-IsSound block_time receipt id (some (challan_id, own_tid)) w is_e s =
    rw (is_e, reconcile_challan)
      (update_challan_unique-IsSound (with_id id) (takes_chain_id id challan_id)
        (issued_with challan_id own_tid) w (λ c. refl) (λ c d. tt) s)

pub reconcile_challan-IsSound :
    (block_time : ℕ → Option ℕ) (receipt : Receipt) (action : TxActionType) (id : ℕ) (w : World)
    → IsSound w
    → IsSound (reconcile_challan block_time receipt action id w).1
unfolding reconcile_challan
reconcile_challan-IsSound block_time receipt challan_issue id w s =
    reconcile_issue-IsSound block_time receipt id _ w refl s
reconcile_challan-IsSound block_time receipt challan_pay id w s =
    update_challan-IsSound (with_id id)
      (λ c. record c {
        status = ChallanStatus.paid;
        paid_at = some (get_block_timestamp block_time receipt.block_number w);
      })
      w (λ c. refl) (λ c d. ground arith) s
reconcile_challan-IsSound block_time receipt challan_cancel id w s =
    update_challan-IsSound (with_id id) _ w (λ c. refl) (λ c d. ground arith) s
reconcile_challan-IsSound block_time receipt _ id w s = s

cancel_by_admin-IsSound :
    (block_time : ℕ → Option ℕ) (block challan_id : ℕ) (by_admin : Bool) (found : Option Challan)
    (w : World)
    → IsSound w
    → IsSound (cancel_by_admin block_time block challan_id by_admin found w).1
unfolding cancel_by_admin
cancel_by_admin-IsSound block_time block challan_id by_admin none w s = s
cancel_by_admin-IsSound block_time block challan_id by_admin (some c) w s =
    elim (Bool-cases (is_cancelled c.status)) [
      | inl done ↦ rw (done, cancel_by_admin) s
      | inr not_yet ↦
          rw (not_yet, cancel_by_admin)
            (update_challan-IsSound (with_chain_id challan_id)
              (λ c. record c {
                status = ChallanStatus.cancelled;
                cancelled_at = some (get_block_timestamp block_time block w);
                is_admin_cancel = by_admin;
              })
              w (λ c. refl) (λ c d. ground arith) s)
    ]

pub replay_admin_cancel-IsSound :
    (block_time : ℕ → Option ℕ) (receipt : Receipt) (w : World)
    → IsSound w
    → IsSound (replay_admin_cancel block_time receipt w).1
unfolding replay_admin_cancel
replay_admin_cancel-IsSound block_time receipt w s =
    elim (Option-cases (first_event as_admin_cancel receipt.events)) [
      | inl silent ↦ rw (silent, replay_admin_cancel) s
      | inr ((challan_id, by_admin), event) ↦
          rw (event, replay_admin_cancel)
            (cancel_by_admin-IsSound block_time receipt.block_number challan_id by_admin
              (find? (with_chain_id challan_id) w.challans) w s)
    ]

pub rollback_challan-IsSound :
    (action : TxActionType) (id : ℕ) (w : World)
    → IsSound w
    → IsSound (rollback_challan action id w)
unfolding rollback_challan delete_challan
rollback_challan-IsSound challan_issue id w s = IsSound-remove (with_id id) w _ refl refl s
rollback_challan-IsSound challan_pay id w s =
    update_challan-IsSound (with_id id)
      (λ c. record c { status = ChallanStatus.pending; paid_at = none }) w (λ c. refl) (λ c d. tt) s
rollback_challan-IsSound challan_cancel id w s =
    update_challan-IsSound (with_id id)
      (λ c. record c { status = ChallanStatus.pending; cancelled_at = none }) w (λ c. refl)
      (λ c d. tt) s
rollback_challan-IsSound _ id w s = s
