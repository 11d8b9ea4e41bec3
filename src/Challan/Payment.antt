-- ===== src/Challan/Payment.antt =====
-- backend/src/modules/payment: the payment of a challan by a citizen through the gateway. The
-- HMAC under the webhook secret, the random order and payment ids, and the decimal text of an
-- amount are parameters.
pub mod Laws
pub mod RoundTrip
use vehicle_lifecycle_manage.Base.{
  ℕ, zero, suc, Option, none, some, List, [], ◌∷◌, ◌++◌, Bool, true, false, ◌==◌, not,
  if◌then◌else◌,
}
use vehicle_lifecycle_manage.Base.Text.{Text, text, text_eq, truthy}
use vehicle_lifecycle_manage.Domain.{police, ChallanStatus, TxSource, challan_pay}
use vehicle_lifecycle_manage.Domain.Failure.{http, Result, ok, err}
use vehicle_lifecycle_manage.Crypto.{hex_bytes, timing_safe_equal}
use vehicle_lifecycle_manage.Store.Rows.{B2bEntity, Challan}
use vehicle_lifecycle_manage.Store.Table.{find?}
use vehicle_lifecycle_manage.Store.World.{
  Call, World, Action, pure, throw, gets, or_throw, throw_if, ◌>>=◌, ◌>>◌,
}
use vehicle_lifecycle_manage.Chain.Manager.{Node}
use vehicle_lifecycle_manage.Chain.Tracking.{submit_and_track}
use vehicle_lifecycle_manage.Challan.Rows.{
  is_id, with_id, with_chain_id, with_order, takes_order, update_challan, update_challan_unique,
}
use vehicle_lifecycle_manage.Challan.Police.{
  is_paid, is_cancelled, truthy_number, pending_challan_tx,
}

-- `ChallanPaymentWebhookInput`
pub record Webhook : Type 0 where
  pub order_id : Text
  pub payment_id : Text
  pub amount_paid : Text
  pub status : Text
  pub signature : Text

-- The response to a started payment, less the texts made from its fields.
pub record Order : Type 0 where
  pub order_id : Text
  pub challan_id : ℕ
  pub amount_wei : Text
  pub dev_webhook : Webhook

-- The acknowledgement of a webhook: `processed` is false or true.
pub data Acknowledged : Type 0 where
  skipped : Acknowledged
  processed : ℕ → Acknowledged

-- The code outside the repository that the payments call.
pub record Gateway : Type 0 where
  -- `createHmac('sha256', WEBHOOK_SECRET).update(payload).digest('hex')`
  pub hmac : Text → Text
  -- `Decimal.prototype.toString`
  pub amount_text : ℕ → Text

-- `challan.policeEntity?.isActive`
unfoldable pub police_is_active : ℕ → World → Bool
police_is_active entity_id w = elim (find? (λ (e : B2bEntity). e.id == entity_id) w.entities) [
  | none ↦ false
  | some e ↦ e.is_active
]

module _ (gateway : Gateway) where
  unfoldable pub webhook_signature : Text → Text → Text → Text
  webhook_signature order_id payment_id amount_paid =
      gateway.hmac (order_id ++ text "|" ++ payment_id ++ text "|" ++ amount_paid)

  -- the payment id is made from the random text
  unfoldable pub mock_webhook : Text → Text → Text → Webhook
  unfolding webhook_signature
  mock_webhook random order_id amount_paid = record {
    order_id = order_id;
    payment_id = text "pay_" ++ random;
    amount_paid = amount_paid;
    status = text "SUCCESS";
    signature = webhook_signature order_id (text "pay_" ++ random) amount_paid;
  }

  unfoldable pub initiate_challan_payment : Text → Text → ℕ → ℕ → Action Order
  unfolding police_is_active mock_webhook update_challan_unique
  initiate_challan_payment random_order random_payment challan_id citizen = do
    rows ← gets (λ w. w.challans)
    challan ←
        or_throw (find? (with_chain_id challan_id) rows) (http 404 (text "Challan not found."))
    throw_if (is_paid challan.status) (http 400 (text "This challan has already been paid."))
    throw_if (is_cancelled challan.status)
        (http 400 (text "This challan has been cancelled and cannot be paid."))
    throw_if (not (is_id citizen challan.violator_user_id))
        (http 403 (text "You are not the owner of this challan."))
    throw_if (truthy challan.payment_order_id)
        (http 409 (text "A payment order already exists for this challan."))
    active ← gets (police_is_active challan.police_entity_id)
    throw_if (not active) (http 422 (text "The issuing Police Station is currently inactive."))
    update_challan_unique (with_id challan.id)
        (takes_order challan.id (text "order_" ++ random_order))
        (λ c. record c { payment_order_id = some (text "order_" ++ random_order) })
    pure (record {
      order_id = text "order_" ++ random_order;
      challan_id = challan_id;
      amount_wei = gateway.amount_text challan.amount;
      dev_webhook =
          mock_webhook random_payment (text "order_" ++ random_order)
            (gateway.amount_text challan.amount);
    })

  -- The signature as `timingSafeEqual` compares it.
  unfoldable pub check_signature : Webhook → Action (Unit {0})
  unfolding hex_bytes timing_safe_equal webhook_signature
  check_signature input w =
      elim (timing_safe_equal
        (hex_bytes (webhook_signature input.order_id input.payment_id input.amount_paid))
        (hex_bytes input.signature)) [
          | ok true ↦ (ok tt, w)
          | ok false ↦ (err (http 401 (text "Invalid webhook signature.")), w)
          | err e ↦ (err e, w)
        ]

  abbrev pub acknowledge : Result ℕ × World → Result Acknowledged × World
  acknowledge (ok hash, w) = (ok (processed hash), w)
  acknowledge (err e, w) = (err e, w)

  -- What follows for a challan that is still pending.
  unfoldable pub confirm_payment : Node → Webhook → Challan → Action Acknowledged
  unfolding police_is_active update_challan
  confirm_payment node input challan = do
    throw_if (not (text_eq input.amount_paid (gateway.amount_text challan.amount)))
        (http 400 (text "Payment amount mismatch."))
    own_tid ← or_throw (truthy_number challan.own_tid) (
        http 422 (
          text "Challan is missing on-chain data (ownTid/challanId). Cannot confirm on-chain yet."))
    chain_id ← or_throw (truthy_number challan.challan_id) (
        http 422 (
          text "Challan is missing on-chain data (ownTid/challanId). Cannot confirm on-chain yet."))
    active ← gets (police_is_active challan.police_entity_id)
    throw_if (not active) (http 422 (text "The issuing Police Station is inactive."))
    update_challan (with_id challan.id) (λ c. record c { payment_ref = some input.payment_id })
    λ w. acknowledge (
        submit_and_track node challan.police_entity_id police (Call.pay_challan own_tid chain_id)
          (pending_challan_tx challan_pay challan.id challan.police_entity_id none TxSource.webhook)
          w)

  -- The states that the webhook answers without a payment.
  unfoldable pub settle_by_status : Node → Webhook → Challan → ChallanStatus → Action Acknowledged
  unfolding confirm_payment
  settle_by_status node input challan ChallanStatus.paid = pure skipped
  settle_by_status node input challan ChallanStatus.cancelled =
      throw (http 409 (text "Challan is cancelled. Cannot process payment."))
  settle_by_status node input challan ChallanStatus.pending = confirm_payment node input challan

  unfoldable pub settle_order : Node → Webhook → Action Acknowledged
  unfolding settle_by_status
  settle_order node input = do
    rows ← gets (λ w. w.challans)
    challan ←
        or_throw (find? (with_order input.order_id) rows)
          (http 404 (text "No challan found for orderId"))
    settle_by_status node input challan challan.status

  unfoldable pub challan_payment_webhook : Node → Webhook → Action Acknowledged
  unfolding check_signature settle_order
  challan_payment_webhook node input =
      check_signature input
      >> (if text_eq input.status (text "SUCCESS") then settle_order node input else pure skipped)
