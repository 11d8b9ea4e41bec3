-- ===== src/Challan/Machine.antt =====
-- The writes to the table of challans, as the steps of one state machine: the handlers of the police
-- and of the payments, the events of the indexer, and the reconciliation with its branches for
-- challans, for executed Safe proposals and for reverted transactions, in any order.
use vehicle_lifecycle_manage.Base.{
  ℕ, ◌≡◌, ◌⊎◌, refl, inl, inr, Option, some, ◌++◌, Bool, arith, Bool-cases, Option-cases,
}
use vehicle_lifecycle_manage.Base.Text.{Text, text, truthy}
use vehicle_lifecycle_manage.Domain.{ChallanStatus, TxActionType, challan_pay, challan_cancel}
use vehicle_lifecycle_manage.Domain.Failure.{Result, ok, err}
use vehicle_lifecycle_manage.Store.Rows.{Challan}
use vehicle_lifecycle_manage.Store.Table.{find?}
use vehicle_lifecycle_manage.Store.World.{Call, World}
use vehicle_lifecycle_manage.Chain.Manager.{Node}
use vehicle_lifecycle_manage.Chain.Receipt.{Receipt}
use vehicle_lifecycle_manage.Challan.Rows.{
  is_id, with_id, with_chain_id, takes_order, update_challan_unique,
}
use vehicle_lifecycle_manage.Challan.Sound.{IsSound, IsSound-grow, IsSound-update, IsSound-append}
use vehicle_lifecycle_manage.Challan.Police.{
  issued_challan, issue_challan, cancel_challan, pay_challan,
}
use vehicle_lifecycle_manage.Challan.Police.Laws.{
  Settles, cancel_challan-Settles, pay_challan-Settles,
}
use vehicle_lifecycle_manage.Challan.Police.Issue.{Issues, issue_challan-Issues}
use vehicle_lifecycle_manage.Challan.Payment.{
  Webhook, Acknowledged, skipped, processed, Gateway, police_is_active, initiate_challan_payment,
  challan_payment_webhook,
}
use vehicle_lifecycle_manage.Challan.Payment.Laws.{
  Confirms, referenced, challan_payment_webhook-Confirms,
}
use vehicle_lifecycle_manage.Challan.Payment.RoundTrip.{with_order_id}
use vehicle_lifecycle_manage.Challan.Events.{
  handle_challan_issued, handle_challan_paid, handle_challan_cancelled,
}
use vehicle_lifecycle_manage.Challan.Events.Laws.{
  update_challan_unique-IsSound, handle_challan_issued-IsSound, handle_challan_paid-IsSound,
  handle_challan_cancelled-IsSound,
}
use vehicle_lifecycle_manage.Challan.Reconcile.{
  reconcile_challan, replay_admin_cancel, rollback_challan,
}
use vehicle_lifecycle_manage.Challan.Reconcile.Laws.{
  reconcile_challan-IsSound, replay_admin_cancel-IsSound, rollback_challan-IsSound,
}

module _ (node : Node) (gateway : Gateway) (block_time : ℕ → Option ℕ) where
  pub data Step : World → World → Type 0 where
    issue :
        (w : World) (own_tid amount police member : ℕ)
        → Step w (issue_challan node own_tid amount police member w).1
    cancel : (w : World) (id police member : ℕ) → Step w (cancel_challan node id police member w).1
    pay :
        (w : World) (id : ℕ) (amount : Text) (police member : ℕ)
        → Step w (pay_challan node gateway.amount_text id amount police member w).1
    initiate :
        (w : World) (order payment : Text) (id citizen : ℕ)
        → Step w (initiate_challan_payment gateway order payment id citizen w).1
    webhook :
        (w : World) (input : Webhook) → Step w (challan_payment_webhook gateway node input w).1
    issued :
        (w : World) (id own_tid police amount hash block : ℕ)
        → Step w (handle_challan_issued id own_tid police amount hash block w)
    paid : (w : World) (id hash block : ℕ) → Step w (handle_challan_paid id hash block w)
    cancelled :
        (w : World) (id : ℕ) (by_admin : Bool) (hash block : ℕ)
        → Step w (handle_challan_cancelled id by_admin hash block w)
    reconcile :
        (w : World) (receipt : Receipt) (action : TxActionType) (id : ℕ)
        → Step w (reconcile_challan block_time receipt action id w).1
    admin_cancel :
        (w : World) (receipt : Receipt) → Step w (replay_admin_cancel block_time receipt w).1
    rollback : (w : World) (action : TxActionType) (id : ℕ) → Step w (rollback_challan action id w)
    -- time passes
    tick : (w : World) (now : ℕ) → Step w (record w { now = now })

  pub data Reachable : World → World → Type 0 where
    start : (w : World) → Reachable w w
    next : {w v u : World} → Reachable w v → Step v u → Reachable w u

  Issues-IsSound :
      (own_tid amount police member : ℕ) (w : World) (x : Result (ℕ × ℕ) × World)
      → Issues own_tid amount police member w x
      → IsSound w
      → IsSound x.1
  Issues-IsSound own_tid amount police member w (err e, v) (inl same) s = rw same s
  Issues-IsSound own_tid amount police member w (err e, v) (inr (hash, known, sent)) s =
      rw sent (IsSound-grow w _ refl (omega arith) s)
  Issues-IsSound own_tid amount police member w (ok (id, hash), v) (o, found, may, fresh, key, done)
        s =
      rw done (
        IsSound-grow _ _ refl (omega arith) (
          IsSound-append (issued_challan o own_tid police amount member w.now w.next_id) w refl tt
            s))

  Settles-IsSound :
      (call : ℕ → ℕ → Call) (action : TxActionType) (id police member : ℕ) (w : World)
      (x : Result ℕ × World)
      → Settles call action w id police member x
      → IsSound w
      → IsSound x.1
  Settles-IsSound call action id police member w (ok hash, v) (c, t, is_open, may, fresh, done) s =
      rw done (IsSound-grow w _ refl (omega arith) s)
  Settles-IsSound call action id police member w (err e, v) (t, inl same) s = rw same s
  Settles-IsSound call action id police member w (err e, v) (t, inr (hash, known, sent)) s =
      rw sent (IsSound-grow w _ refl (omega arith) s)

  referenced-IsSound :
      (input : Webhook) (c : Challan) (w : World) → IsSound w → IsSound (referenced input c w)
  referenced-IsSound input c w s =
      IsSound-update (with_id c.id) _ w (λ c. refl) (λ c d. ground arith) s

  Confirms-IsSound :
      (input : Webhook) (w : World) (x : Result Acknowledged × World)
      → Confirms gateway w input x
      → IsSound w
      → IsSound x.1
  Confirms-IsSound input w (ok skipped, v) (same, _) s = rw same s
  Confirms-IsSound input w (ok (processed hash), v) (c, t, n, due, may, done) s =
      rw done (IsSound-grow _ _ refl (omega arith) (referenced-IsSound input c w s))
  Confirms-IsSound input w (err e, v) (inl same) s = rw same s
  Confirms-IsSound input w (err e, v) (inr (c, t, n, due, inl only_ref)) s =
      rw only_ref (referenced-IsSound input c w s)
  Confirms-IsSound input w (err e, v) (inr (c, t, n, due, inr (hash, known, sent))) s =
      rw sent (IsSound-grow _ _ refl (omega arith) (referenced-IsSound input c w s))

  module _ (random_order random_payment : Text) (id citizen : ℕ) (w : World) where
    -- the write of `setPaymentOrderId`
    abbrev ordered : Challan → World
    ordered c =
        (update_challan_unique (with_id c.id) (takes_order c.id (text "order_" ++ random_order))
          (with_order_id (text "order_" ++ random_order)) w).1

    initiate_found :
        (c : Challan) (s : ChallanStatus)
        → find? (with_chain_id id) w.challans ≡ some c
        → c.status ≡ s
        → let v = (initiate_challan_payment gateway random_order random_payment id citizen w).1 in
          (v ≡ w) ⊎ (v ≡ ordered c)
    unfolding initiate_challan_payment
    initiate_found c ChallanStatus.paid found is_s = inl (ground arith)
    initiate_found c ChallanStatus.cancelled found is_s = inl (ground arith)
    initiate_found c ChallanStatus.pending found is_s =
        elim (Bool-cases (is_id citizen c.violator_user_id)) [
          | inr foreign ↦ inl (ground arith)
          | inl own ↦ elim (Bool-cases (truthy c.payment_order_id)) [
            | inl ordered ↦ inl (ground arith)
            | inr free ↦ elim (Bool-cases (police_is_active c.police_entity_id w)) [
              | inr idle ↦ inl (ground arith)
              | inl active ↦ inr (ground arith)
            ]
          ]
        ]

    initiate-IsSound :
        IsSound w
        → IsSound (initiate_challan_payment gateway random_order random_payment id citizen w).1
    unfolding initiate_challan_payment
    initiate-IsSound s = elim (Option-cases (find? (with_chain_id id) w.challans)) [
      | inl missing ↦ rw (missing, initiate_challan_payment) s
      | inr (c, found) ↦ elim (initiate_found c c.status found refl) [
        | inl same ↦ rw same s
        | inr written ↦ rw written (
            update_challan_unique-IsSound (with_id c.id)
              (takes_order c.id (text "order_" ++ random_order))
              (with_order_id (text "order_" ++ random_order)) w (λ c. refl) (λ c d. ground arith) s)
      ]
    ]

  Step-IsSound : {w v : World} → Step w v → IsSound w → IsSound v
  Step-IsSound (issue w own_tid amount police member) s =
      Issues-IsSound own_tid amount police member w _
        (issue_challan-Issues own_tid amount police member node w) s
  Step-IsSound (cancel w id police member) s =
      Settles-IsSound Call.cancel_challan challan_cancel id police member w _
        (cancel_challan-Settles node w id police member) s
  Step-IsSound (pay w id amount police member) s =
      Settles-IsSound Call.pay_challan challan_pay id police member w _
        (pay_challan-Settles node w id police member gateway.amount_text amount).0 s
  Step-IsSound (initiate w order payment id citizen) s =
      initiate-IsSound order payment id citizen w s
  Step-IsSound (webhook w input) s =
      Confirms-IsSound input w _ (challan_payment_webhook-Confirms gateway node w input).0 s
  Step-IsSound (issued w id own_tid police amount hash block) s =
      handle_challan_issued-IsSound id own_tid police amount hash block w s
  Step-IsSound (paid w id hash block) s = handle_challan_paid-IsSound id hash block w s
  Step-IsSound (cancelled w id by_admin hash block) s =
      handle_challan_cancelled-IsSound id by_admin hash block w s
  Step-IsSound (reconcile w receipt action id) s =
      reconcile_challan-IsSound block_time receipt action id w s
  Step-IsSound (admin_cancel w receipt) s = replay_admin_cancel-IsSound block_time receipt w s
  Step-IsSound (rollback w action id) s = rollback_challan-IsSound action id w s
  Step-IsSound (tick w now) s = IsSound-grow w _ refl (omega arith) s

  -- Whatever the police, the citizens, the payment gateway, the indexer and the reconciliation do,
  -- the replayed cancellation of an executed Safe proposal and the rollbacks included, in any order
  -- and on any branch: if every paid or cancelled challan has the date of its payment or
  -- cancellation, no two challans share a key, and no key has reached the counter from which new
  -- rows take theirs, then this stays so.
  pub Reachable-IsSound : {w v : World} → Reachable w v → IsSound w → IsSound v
  Reachable-IsSound (start w) s = s
  Reachable-IsSound (next r step) s = Step-IsSound step (Reachable-IsSound r s)
