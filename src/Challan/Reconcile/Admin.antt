-- ===== src/Challan/Reconcile/Admin.antt =====
-- The cancellation of a challan through the Safe, once by the indexer and once by the reconciliation.
use vehicle_lifecycle_manage.Base.{
  ℕ, ◌≡◌, ◌≢◌, ◌⊎◌, refl, ap, ◌∙◌, inl, inr, Option, none, some, List, [], ◌∷◌, Bool, arith,
  Option-cases,
}
use vehicle_lifecycle_manage.Domain.Failure.{Result, ok}
use vehicle_lifecycle_manage.Domain.{ChallanStatus, challan_cancel}
use vehicle_lifecycle_manage.Store.Rows.{Challan}
use vehicle_lifecycle_manage.Store.Table.{find?, update_first, find?-update_self, find?-holds}
use vehicle_lifecycle_manage.Store.World.{World}
use vehicle_lifecycle_manage.Chain.Receipt.{Receipt, first_event, as_admin_cancel}
use vehicle_lifecycle_manage.Challan.Rows.{with_chain_id, update_challan}
use vehicle_lifecycle_manage.Challan.Police.{is_cancelled}
use vehicle_lifecycle_manage.Challan.Events.{handle_challan_cancelled}
use vehicle_lifecycle_manage.Challan.Events.Laws.{handle_challan_cancelled-eq}
use vehicle_lifecycle_manage.Challan.Reconcile.Agreement.{finalize_tx-challans}
use vehicle_lifecycle_manage.Challan.Reconcile.{
  get_block_timestamp, cancel_by_admin, replay_admin_cancel,
}

-- The challan with this id on the chain, where there is one, is cancelled.
abbrev pub IsCancelledIn : ℕ → World → Type 0
IsCancelledIn challan_id w =
    (c : Challan)
    → find? (with_chain_id challan_id) w.challans ≡ some c
    → c.status ≡ ChallanStatus.cancelled

-- An update by that id which keeps the id and cancels leaves it cancelled.
update_cancels :
    (challan_id : ℕ) (f : Challan → Challan) (cs : List Challan)
    → ((c : Challan) → ((f c).challan_id ≡ c.challan_id) × ((f c).status ≡ ChallanStatus.cancelled))
    → (c : Challan)
    → find? (with_chain_id challan_id) (update_first (with_chain_id challan_id) f cs) ≡ some c
    → c.status ≡ ChallanStatus.cancelled
update_cancels challan_id f [] sets c found = cc
update_cancels challan_id f (d ∷ cs) sets c found =
    ground (arith, (sets d).0, (sets d).1, update_cancels challan_id f cs sets c)

event-IsCancelledIn :
    (challan_id : ℕ) (by_admin : Bool) (hash block : ℕ) (w : World)
    → IsCancelledIn challan_id (handle_challan_cancelled challan_id by_admin hash block w)
event-IsCancelledIn challan_id by_admin hash block w =
    rw (handle_challan_cancelled-eq challan_id by_admin hash block w) (
      rw (finalize_tx-challans hash challan_cancel block _)
        (update_cancels challan_id _ w.challans (λ c. (refl, refl))))

replay_when_cancelled :
    (block_time : ℕ → Option ℕ) (receipt : Receipt) (challan_id : ℕ) (by_admin : Bool) (w : World)
    → first_event as_admin_cancel receipt.events ≡ some (challan_id, by_admin)
    → IsCancelledIn challan_id w
    → replay_admin_cancel block_time receipt w ≡ (ok tt, w)
unfolding replay_admin_cancel cancel_by_admin
replay_when_cancelled block_time receipt challan_id by_admin w event is_cancelled =
    elim (Option-cases (find? (with_chain_id challan_id) w.challans)) [
      | inl missing ↦ ground (arith, event, missing)
      | inr (c, found) ↦ ground (arith, event, found, is_cancelled c found)
    ]

-- The challan as the replay leaves it.
abbrev pub replayed : ℕ → Bool → Challan → Challan
replayed cancelled_at by_admin c = record c {
  status = ChallanStatus.cancelled;
  cancelled_at = some cancelled_at;
  is_admin_cancel = by_admin;
}

-- What a replay does to the challan that it finds, or without one: `x` is its outcome.
abbrev pub Replays : ℕ → ℕ → Bool → World → Option Challan → Result (Unit {0}) × World → Type 0
Replays at challan_id by_admin w none x = x ≡ (ok tt, w)
Replays at challan_id by_admin w (some c) x =
    ((c.status ≡ ChallanStatus.cancelled) × (x ≡ (ok tt, w)))
    ⊎ ((c.status ≢ ChallanStatus.cancelled)
        × (x ≡ (
          ok tt,
          record w {
            challans = update_first (with_chain_id challan_id) (replayed at by_admin) w.challans;
          },
        ))
        × (find? (with_chain_id challan_id) x.1.challans ≡ some (replayed at by_admin c)))

found-Replays :
    (block_time : ℕ → Option ℕ) (block challan_id : ℕ) (by_admin : Bool) (found : Option Challan)
    (w : World)
    → find? (with_chain_id challan_id) w.challans ≡ found
    → Replays
        (get_block_timestamp block_time block w)
        challan_id
        by_admin
        w
        found
        (cancel_by_admin block_time block challan_id by_admin found w)
unfolding cancel_by_admin update_challan
found-Replays block_time block challan_id by_admin none w missing = refl
found-Replays block_time block challan_id by_admin (some c) w known = by_status c.status refl
  where
    at : ℕ
    at = get_block_timestamp block_time block w

    after : World
    after = record w {
      challans = update_first (with_chain_id challan_id) (replayed at by_admin) w.challans;
    }

    written :
        {x : Result (Unit {0}) × World}
        → c.status ≢ ChallanStatus.cancelled
        → x ≡ (ok tt, after)
        → (c.status ≢ ChallanStatus.cancelled)
          × (x ≡ (ok tt, after))
          × (find? (with_chain_id challan_id) x.1.challans ≡ some (replayed at by_admin c))
    written {x} not_yet e = (
      not_yet,
      e,
      ap (λ (y : Result (Unit {0}) × World). find? (with_chain_id challan_id) y.1.challans) e
          ∙ find?-update_self (with_chain_id challan_id) (replayed at by_admin) w.challans c known
              (find?-holds (with_chain_id challan_id) w.challans c known),
    )

    by_status :
        (s : ChallanStatus)
        → c.status ≡ s
        → Replays
            (get_block_timestamp block_time block w)
            challan_id
            by_admin
            w
            (some c)
            (cancel_by_admin block_time block challan_id by_admin (some c) w)
    by_status ChallanStatus.cancelled is_s = inl (is_s, ground arith)
    by_status ChallanStatus.pending is_s = inr (written (λ e. ground arith) (ground arith))
    by_status ChallanStatus.paid is_s = inr (written (λ e. ground arith) (ground arith))

replay_admin_cancel-Replays :
    (block_time : ℕ → Option ℕ) (receipt : Receipt) (challan_id : ℕ) (by_admin : Bool) (w : World)
    → first_event as_admin_cancel receipt.events ≡ some (challan_id, by_admin)
    → Replays
        (get_block_timestamp block_time receipt.block_number w)
        challan_id
        by_admin
        w
        (find? (with_chain_id challan_id) w.challans)
        (replay_admin_cancel block_time receipt w)
unfolding replay_admin_cancel
replay_admin_cancel-Replays block_time receipt challan_id by_admin w event =
    rw (event, replay_admin_cancel)
      (found-Replays block_time receipt.block_number challan_id by_admin
        (find? (with_chain_id challan_id) w.challans) w refl)

-- For a receipt whose first `ChallanCancelled` is of this challan: the side effect that the
-- reconciliation replays cancels the challan with this id, where one is on record and not yet
-- cancelled, with the time of the receipt's block as its date and the flag of the event, and
-- changes nothing else; it changes nothing where the challan is missing or cancelled, and so
-- nothing after the indexer has handled the event.
pub admin_cancel_settles :
    (block_time : ℕ → Option ℕ) (receipt : Receipt) (challan_id : ℕ) (by_admin : Bool)
    (hash block : ℕ) (w : World)
    → first_event as_admin_cancel receipt.events ≡ some (challan_id, by_admin)
    → let v = handle_challan_cancelled challan_id by_admin hash block w in
      Replays
        (get_block_timestamp block_time receipt.block_number w)
        challan_id
        by_admin
        w
        (find? (with_chain_id challan_id) w.challans)
        (replay_admin_cancel block_time receipt w)
      × (replay_admin_cancel block_time receipt v ≡ (ok tt, v))
admin_cancel_settles block_time receipt challan_id by_admin hash block w event = (
  replay_admin_cancel-Replays block_time receipt challan_id by_admin w event,
  replay_when_cancelled block_time receipt challan_id by_admin _ event
      (event-IsCancelledIn challan_id by_admin hash block w),
)
