-- ===== src/Tests/Challan.antt =====
-- The theorems on submissions and challans at a small world.
use vehicle_lifecycle_manage.Base.{ℕ, ◌≡◌, ◌≢◌, refl, Option, none, some, [], ◌∷◌, true, arith}
use vehicle_lifecycle_manage.Base.Text.{Text, text}
use vehicle_lifecycle_manage.Domain.{police, TxSource, challan_issue, challan_pay, challan_cancel}
use vehicle_lifecycle_manage.Domain.Failure.{ok}
use vehicle_lifecycle_manage.Store.Rows.{Challan, BlockchainTransaction}
use vehicle_lifecycle_manage.Store.Table.{find?}
use vehicle_lifecycle_manage.Store.World.{Call, World}
use vehicle_lifecycle_manage.Chain.Manager.{submit_entity_tx}
use vehicle_lifecycle_manage.Chain.Manager.Laws.{Submits, submit_entity_tx-Submits}
use vehicle_lifecycle_manage.Chain.Tracking.{submit_and_track}
use vehicle_lifecycle_manage.Chain.Tracking.Laws.{Tracks, submit_and_track-Tracks}
use vehicle_lifecycle_manage.Chain.Receipt.{
  Event, Receipt, first_event, as_challan_issued, as_admin_cancel,
}
use vehicle_lifecycle_manage.Chain.Tracking.Guarded.{Unchanged}
use vehicle_lifecycle_manage.Challan.Rows.{with_chain_id, update_challan, update_challan_unique}
use vehicle_lifecycle_manage.Challan.Sound.{IsSound}
use vehicle_lifecycle_manage.Challan.Police.{
  pending_challan_tx, issue_challan, cancel_challan, pay_challan,
}
use vehicle_lifecycle_manage.Challan.Police.Laws.{
  Settles, cancel_challan-Settles, pay_challan-Settles,
}
use vehicle_lifecycle_manage.Challan.Police.Issue.{Issues, issue_challan-Issues}
use vehicle_lifecycle_manage.Challan.Payment.{
  Order, mock_webhook, police_is_active, acknowledge, initiate_challan_payment,
  challan_payment_webhook,
}
use vehicle_lifecycle_manage.Challan.Payment.Laws.{
  IsSigned, Confirms, referenced, challan_payment_webhook-Confirms,
}
use vehicle_lifecycle_manage.Challan.Payment.RoundTrip.{with_order_id, webhook_after_initiate}
use vehicle_lifecycle_manage.Challan.Events.{
  handle_challan_issued, handle_challan_paid, handle_challan_cancelled,
}
use vehicle_lifecycle_manage.Challan.Reconcile.{
  get_block_timestamp, reconcile_challan, replay_admin_cancel,
}
use vehicle_lifecycle_manage.Challan.Reconcile.Admin.{Replays, admin_cancel_settles}
use vehicle_lifecycle_manage.Challan.Reconcile.Agreement.{reconcile_issue_agrees}
use vehicle_lifecycle_manage.Challan.Confirmation.{event_after_issue}
use vehicle_lifecycle_manage.Challan.Events.{issued_with}
use vehicle_lifecycle_manage.Indexer.Finalize.{mined_at}
use vehicle_lifecycle_manage.Chain.Manager.{as_400, submit_or_400, send_signed, has_contract}
use vehicle_lifecycle_manage.Chain.Tracking.{create_transaction}
use vehicle_lifecycle_manage.Challan.Police.{
  issued_challan, create_challan, create_challan_tx, track_challan,
}
use vehicle_lifecycle_manage.Challan.Police.Issue.{issued}
use vehicle_lifecycle_manage.Challan.Machine.{Step, Reachable, Reachable-IsSound}
use vehicle_lifecycle_manage.Tests.Data.{node, gateway, station, ownership, open_challan, world}

submit_example :
    Submits world 1
      (Call.pay_challan 7 11)
      (submit_entity_tx node 1 police (Call.pay_challan 7 11) world)
submit_example = submit_entity_tx-Submits node 1 police (Call.pay_challan 7 11) world

abbrev tracking_row : ℕ → ℕ → BlockchainTransaction
tracking_row = pending_challan_tx challan_pay 5 1 none TxSource.webhook

track_example :
    Tracks world 1
      (Call.pay_challan 7 11)
      tracking_row
      (submit_and_track node 1 police (Call.pay_challan 7 11) tracking_row world)
track_example =
    submit_and_track-Tracks node 1 police (Call.pay_challan 7 11) tracking_row world (λ h i. refl)

issue_challan_example : Issues 7 6 1 8 world (issue_challan node 7 6 1 8 world)
issue_challan_example = issue_challan-Issues 7 6 1 8 node world

cancel_challan_example :
    Settles Call.cancel_challan challan_cancel world 11 1 8 (cancel_challan node 11 1 8 world)
cancel_challan_example = cancel_challan-Settles node world 11 1 8

pay_challan_example :
    Settles Call.pay_challan challan_pay world 11 1 8
      (pay_challan node gateway.amount_text 11 (text "9") 1 8 world)
    × ((c : Challan)
        → find? (with_chain_id 11) world.challans ≡ some c
        → text "9" ≢ gateway.amount_text c.amount
        → Unchanged world (pay_challan node gateway.amount_text 11 (text "9") 1 8 world))
pay_challan_example = pay_challan-Settles node world 11 1 8 gateway.amount_text (text "9")

-- A receipt of the execution of a Safe proposal that cancels the challan.
abbrev executed : Receipt
executed = record {
  status = some 1;
  block_number = 31;
  events = Event.challan_cancelled 11 7 true ∷ [];
}

cancels_it : first_event as_admin_cancel executed.events ≡ some (11, true)
unfolding first_event
cancels_it = refl

admin_cancel_example :
    let v = handle_challan_cancelled 11 true 104 31 world in
    Replays 49 11 true world (some open_challan) (replay_admin_cancel (λ n. some 49) executed world)
    × (replay_admin_cancel (λ n. some 49) executed v ≡ (ok tt, v))
unfolding get_block_timestamp
admin_cancel_example = admin_cancel_settles (λ n. some 49) executed 11 true 104 31 world cancels_it

world-IsSound : IsSound world
world-IsSound = record {
  rows = (record { old = omega arith; dated = tt }, tt);
  distinct = (tt, tt);
}

abbrev order_id : Text
order_id = text "order_01"

abbrev order : Order
order = record {
  order_id = order_id;
  challan_id = 11;
  amount_wei = text "6";
  dev_webhook = mock_webhook gateway (text "02") order_id (text "6");
}

abbrev ordered_world : World
ordered_world = record world { challans = with_order_id order_id open_challan ∷ [] }

initiated :
    initiate_challan_payment gateway (text "01") (text "02") 11 9 world ≡ (ok order, ordered_world)
unfolding initiate_challan_payment update_challan_unique update_challan police_is_active
initiated = refl

webhook_example :
    Confirms gateway ordered_world order.dev_webhook
      (challan_payment_webhook gateway node order.dev_webhook ordered_world)
    × (¬ IsSigned gateway order.dev_webhook
        → Unchanged ordered_world
            (challan_payment_webhook gateway node order.dev_webhook ordered_world))
webhook_example = challan_payment_webhook-Confirms gateway node ordered_world order.dev_webhook

webhook_after_initiate_example :
    challan_payment_webhook gateway node order.dev_webhook ordered_world
    ≡ acknowledge gateway (
        submit_and_track node 1 police
          (Call.pay_challan 7 11)
          (pending_challan_tx challan_pay 5 1 none TxSource.webhook)
          (referenced order.dev_webhook open_challan ordered_world))
webhook_after_initiate_example =
    webhook_after_initiate gateway (text "01") (text "02") 11 9 world node open_challan order
      ordered_world 6 10 world-IsSound refl refl refl initiated

abbrev block_time : ℕ → Option ℕ
block_time n = some 50

abbrev receipt : Receipt
receipt = record { status = some 1; block_number = 30; events = Event.challan_issued 12 7 4 6 ∷ [] }

-- A challan that was issued by the backend, and the row that tracks its transaction.
abbrev new_challan : Challan
new_challan = record open_challan { id = 15; challan_id = none }

abbrev issue_tx : BlockchainTransaction
issue_tx = pending_challan_tx challan_issue 15 1 (some 8) TxSource.member 100 16

abbrev issued_world : World
issued_world = record world {
  challans = open_challan ∷ new_challan ∷ [];
  transactions = issue_tx ∷ [];
}

first_is_issued : first_event as_challan_issued receipt.events ≡ some (12, 7)
unfolding first_event
first_is_issued = refl

reconcile_issue_example :
    (reconcile_challan block_time receipt challan_issue 15 issued_world).1.challans
    ≡ (handle_challan_issued 12 7 4 6 100 30 issued_world).challans
reconcile_issue_example =
    reconcile_issue_agrees block_time receipt issued_world new_challan issue_tx station ownership 12
      7 4 6 100 30 refl refl refl refl refl first_is_issued

-- A payment is started and then confirmed on-chain.
abbrev paid_world : World
paid_world =
    handle_challan_paid 11 100 30
      (initiate_challan_payment gateway (text "01") (text "02") 11 9 world).1

two_steps : Reachable node gateway block_time world paid_world
two_steps =
    Reachable.next
      (Reachable.next (Reachable.start world) (Step.initiate world (text "01") (text "02") 11 9))
      (Step.paid _ 11 100 30)

reachable_example : IsSound paid_world
reachable_example = Reachable-IsSound node gateway block_time two_steps world-IsSound

issues_now : issue_challan node 7 6 1 8 world ≡ (ok (20, 100), issued 7 6 1 8 ownership 100 world)
unfolding issue_challan track_challan create_challan_tx create_challan create_transaction
    submit_or_400 as_400 submit_entity_tx send_signed has_contract
issues_now = refl

event_after_issue_example :
    let v = handle_challan_issued 12 7 4 6 100 30 (issued 7 6 1 8 ownership 100 world) in
    (v.challans ≡ open_challan ∷ issued_with 12 7 (issued_challan ownership 7 1 6 8 50 20) ∷ [])
    × (v.transactions
        ≡ mined_at 30 (pending_challan_tx challan_issue 20 1 (some 8) TxSource.member 100 21) ∷ [])
event_after_issue_example =
    event_after_issue 7 6 1 8 world ownership station 100 12 4 30 node 20
      (issued 7 6 1 8 ownership 100 world) world-IsSound refl refl refl issues_now
