-- ===== src/Challan/Police.antt =====
-- backend/src/modules/police: the service and the writes of its repository. The ids of challans
-- and tokens are what `BigInt` makes of the texts in the request.
pub mod Laws
pub mod Issue
use vehicle_lifecycle_manage.Base.{
  ℕ, zero, suc, Option, none, some, List, [], ◌∷◌, ◌++◌, Bool, true, false, ◌==◌, not,
  if◌then◌else◌,
}
use vehicle_lifecycle_manage.Base.Text.{Text, text, text_eq}
use vehicle_lifecycle_manage.Domain.{
  police, ChallanStatus, SyncStatus, TxActionType, TxSource, challan_issue, challan_pay,
  challan_cancel,
}
use vehicle_lifecycle_manage.Domain.Failure.{http, Result, ok, err}
use vehicle_lifecycle_manage.Store.Rows.{VehicleOwnership, Challan, BlockchainTransaction}
use vehicle_lifecycle_manage.Store.Table.{find?}
use vehicle_lifecycle_manage.Store.World.{
  Call, World, Action, pure, gets, or_throw, throw_if, transaction, ◌>>=◌, ◌>>◌,
}
use vehicle_lifecycle_manage.Chain.Manager.{Node, submit_or_400}
use vehicle_lifecycle_manage.Chain.Tracking.{create_transaction, submit_and_track}
use vehicle_lifecycle_manage.Challan.Rows.{is_id, with_chain_id}

abbrev pub is_paid : ChallanStatus → Bool
is_paid ChallanStatus.paid = true
is_paid _ = false

abbrev pub is_cancelled : ChallanStatus → Bool
is_cancelled ChallanStatus.cancelled = true
is_cancelled _ = false

-- a nullable `bigint` as a condition: null and 0n are falsy
abbrev pub truthy_number : Option ℕ → Option ℕ
truthy_number none = none
truthy_number (some zero) = none
truthy_number (some (suc n)) = some (suc n)

-- a `BlockchainTransaction` of the given action on a challan, still pending
abbrev pub pending_challan_tx :
    TxActionType → ℕ → ℕ → Option ℕ → TxSource → ℕ → ℕ → BlockchainTransaction
pending_challan_tx action challan police_entity member source hash id = record {
  id = id;
  tx_hash = hash;
  action_type = action;
  status = SyncStatus.pending;
  block_number = none;
  b2b_entity_id = some police_entity;
  challan_id = some challan;
  loan_id = none;
  ownership_id = none;
  transfer_req_id = none;
  insurance_id = none;
  initiator_member_id = member;
  initiator_user_id = none;
  tx_source = source;
}

-- the row that `createChallanTx` creates
abbrev pub issued_challan : VehicleOwnership → ℕ → ℕ → ℕ → ℕ → ℕ → ℕ → Challan
issued_challan ownership own_tid police_entity amount member now id = record {
  id = id;
  challan_id = none;
  ownership_id = ownership.id;
  own_tid = some own_tid;
  police_entity_id = police_entity;
  amount = amount;
  status = ChallanStatus.pending;
  is_admin_cancel = false;
  issued_at = now;
  paid_at = none;
  cancelled_at = none;
  created_by_member_id = some member;
  cancelled_by_member_id = none;
  violator_user_id = ownership.owner_user_id;
  payment_order_id = none;
  payment_ref = none;
}

-- `challan.create` of `createChallanTx`
unfoldable pub create_challan : VehicleOwnership → ℕ → ℕ → ℕ → ℕ → Action ℕ
create_challan ownership own_tid police_entity amount member w = (
  ok w.next_id,
  record w {
    challans =
        w.challans
        ++ issued_challan ownership own_tid police_entity amount member w.now w.next_id ∷ [];
    next_id = suc w.next_id;
  },
)

unfoldable pub create_challan_tx : VehicleOwnership → ℕ → ℕ → ℕ → ℕ → ℕ → Action ℕ
unfolding create_challan create_transaction
create_challan_tx ownership own_tid police_entity amount member hash = transaction do
  id ← create_challan ownership own_tid police_entity amount member
  create_transaction
      (pending_challan_tx challan_issue id police_entity (some member) TxSource.member hash)
  pure id

-- the ids of the response, once the rows were created
abbrev pub with_both : ℕ → Result ℕ × World → Result (ℕ × ℕ) × World
with_both hash (ok id, w) = (ok (id, hash), w)
with_both hash (err e, w) = (err e, w)

-- `createChallanTx` after the submission
unfoldable pub track_challan :
    VehicleOwnership → ℕ → ℕ → ℕ → ℕ → Result ℕ × World → Result (ℕ × ℕ) × World
unfolding create_challan_tx
track_challan ownership own_tid police_entity amount member (ok hash, w) =
    with_both hash (create_challan_tx ownership own_tid police_entity amount member hash w)
track_challan ownership own_tid police_entity amount member (err e, w) = (err e, w)

module _ (node : Node) where
  -- The id of the new row and the hash.
  unfoldable pub issue_challan : ℕ → ℕ → ℕ → ℕ → Action (ℕ × ℕ)
  unfolding track_challan
  issue_challan own_tid amount police_entity member = do
    rows ← gets (λ w. w.ownerships)
    ownership ←
        or_throw (find? (λ (o : VehicleOwnership). is_id own_tid o.own_tid) rows)
          (http 404 (text "Vehicle ownership record not found."))
    λ w.
        track_challan ownership own_tid police_entity amount member
          (submit_or_400 node police_entity police (Call.issue_challan own_tid amount) w)

  unfoldable pub cancel_challan : ℕ → ℕ → ℕ → Action ℕ
  cancel_challan challan_id police_entity member = do
    rows ← gets (λ w. w.challans)
    challan ←
        or_throw (find? (with_chain_id challan_id) rows) (http 404 (text "Challan not found."))
    throw_if (not (challan.police_entity_id == police_entity))
        (http 403 (text "Unauthorized. This challan was issued by a different Police Station."))
    throw_if (is_paid challan.status)
        (http 400 (text "Cannot cancel a challan that has already been paid."))
    throw_if (is_cancelled challan.status) (http 400 (text "Challan is already cancelled."))
    own_tid ←
        or_throw (truthy_number challan.own_tid)
          (http 400 (text "Challan record is incomplete (missing ownTid)."))
    submit_and_track node police_entity police (Call.cancel_challan own_tid challan_id)
        (pending_challan_tx challan_cancel challan.id police_entity (some member) TxSource.member)

  -- `amount_text` is `Decimal.prototype.toString`.
  unfoldable pub pay_challan : (ℕ → Text) → ℕ → Text → ℕ → ℕ → Action ℕ
  pay_challan amount_text challan_id amount_paid police_entity member = do
    rows ← gets (λ w. w.challans)
    challan ←
        or_throw (find? (with_chain_id challan_id) rows) (http 404 (text "Challan not found."))
    throw_if (not (challan.police_entity_id == police_entity))
        (http 403 (text "Unauthorized. This challan belongs to a different Police Station."))
    throw_if (is_paid challan.status) (http 400 (text "Challan is already paid."))
    throw_if (is_cancelled challan.status) (http 400 (text "Cannot pay a cancelled challan."))
    own_tid ←
        or_throw (truthy_number challan.own_tid)
          (http 400 (text "Challan record is incomplete (missing ownTid)."))
    throw_if (not (text_eq amount_paid (amount_text challan.amount)))
        (http 400 (text "Payment amount mismatch."))
    submit_and_track node police_entity police (Call.pay_challan own_tid challan_id)
        (pending_challan_tx challan_pay challan.id police_entity (some member) TxSource.member)
