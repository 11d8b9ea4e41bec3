-- ===== src/Challan/Payment/RoundTrip.antt =====
-- A payment that was started can be confirmed by the webhook that it hands out.
use vehicle_lifecycle_manage.Base.{
  ℕ, suc, ◌≡◌, refl, sym, subst, inl, inr, Bool-cases, ◌∙◌, none, some, List, [], ◌∷◌, ◌++◌, true,
  false, arith, ==_refl, is_some,
}
use vehicle_lifecycle_manage.Base.Lists.{any}
use vehicle_lifecycle_manage.Base.Text.{Text, text, text_eq_refl, truthy}
use vehicle_lifecycle_manage.Domain.{police, ChallanStatus, TxSource, challan_pay}
use vehicle_lifecycle_manage.Domain.Failure.{Result, ok, err}
use vehicle_lifecycle_manage.Crypto.{hex_bytes, timing_safe_equal_refl}
use vehicle_lifecycle_manage.Store.Rows.{Challan}
use vehicle_lifecycle_manage.Store.Table.{find?, update_first, find?-exists}
use vehicle_lifecycle_manage.Store.World.{Call, World, record_not_found, unique_violation}
use vehicle_lifecycle_manage.Chain.Manager.{Node}
use vehicle_lifecycle_manage.Challan.Rows.{
  is_id, with_id, with_chain_id, with_order, takes_order, update_challan, update_challan_unique,
}
use vehicle_lifecycle_manage.Chain.Tracking.{submit_and_track}
use vehicle_lifecycle_manage.Challan.Police.{pending_challan_tx}
use vehicle_lifecycle_manage.Challan.Payment.Laws.{referenced}
use vehicle_lifecycle_manage.Challan.Sound.{IsSound, find?-key}
use vehicle_lifecycle_manage.Challan.Payment.{
  Order, Gateway, police_is_active, acknowledge, mock_webhook, webhook_signature,
  initiate_challan_payment, check_signature, confirm_payment, settle_by_status, settle_order,
  challan_payment_webhook,
}

abbrev pub with_order_id : Text → Challan → Challan
with_order_id order c = record c { payment_order_id = some order }

find?-order :
    (order : Text) (cs : List Challan) (c : Challan)
    → find? (with_id c.id) cs ≡ some c
    → any (takes_order c.id order) cs ≡ false
    → find? (with_order order) (update_first (with_id c.id) (with_order_id order) cs)
      ≡ some (with_order_id order c)
find?-order order [] c found free = cc
find?-order order (x ∷ cs) c found free = ground (arith, find?-order order cs c, text_eq_refl order)

module _ (gateway : Gateway) (random_order random_payment : Text) (challan_id citizen : ℕ)
    (w : World) where
  abbrev order_id : Text
  order_id = text "order_" ++ random_order

  abbrev order_of : Challan → Order
  order_of c = record {
    order_id = order_id;
    challan_id = challan_id;
    amount_wei = gateway.amount_text c.amount;
    dev_webhook = mock_webhook gateway random_payment order_id (gateway.amount_text c.amount);
  }

  abbrev started : Challan → World
  started c = record w {
    challans = update_first (with_id c.id) (with_order_id order_id) w.challans;
  }

  -- The start of a payment that goes through is one write to a pending challan.
  abbrev Starts : Challan → Result Order × World → Type 0
  Starts c (err _, w') = Unit
  Starts c (ok order, w') =
      (c.status ≡ ChallanStatus.pending)
      × (any (takes_order c.id order_id) w.challans ≡ false)
      × (police_is_active c.police_entity_id w ≡ true)
      × (w' ≡ started c)
      × (order ≡ order_of c)

  from_outcome :
      (c : Challan) (x : Result Order × World)
      → initiate_challan_payment gateway random_order random_payment challan_id citizen w ≡ x
      → Starts c x
      → Starts c (initiate_challan_payment gateway random_order random_payment challan_id citizen w)
  from_outcome c x e s = subst (Starts c) (sym e) s

  unpaid-Starts :
      (c : Challan)
      → find? (with_chain_id challan_id) w.challans ≡ some c
      → c.status ≡ ChallanStatus.pending
      → police_is_active c.police_entity_id w ≡ true
      → is_id citizen c.violator_user_id ≡ true
      → truthy c.payment_order_id ≡ false
      → Starts c (initiate_challan_payment gateway random_order random_payment challan_id citizen w)
  unfolding initiate_challan_payment update_challan_unique update_challan
  unpaid-Starts c found unpaid active own no_order =
      elim (Bool-cases (is_some (find? (with_id c.id) w.challans))) [
        | inr gone ↦ from_outcome c (err record_not_found, w) (ground arith) tt
        | inl here ↦ elim (Bool-cases (any (takes_order c.id order_id) w.challans)) [
          | inl taken ↦ from_outcome c (err unique_violation, w) (ground arith) tt
          | inr free ↦
              from_outcome c (ok (order_of c), started c) (ground arith)
                (unpaid, free, active, refl, refl)
        ]
      ]

  initiate-Starts :
      (c : Challan) (s : ChallanStatus)
      → find? (with_chain_id challan_id) w.challans ≡ some c
      → c.status ≡ s
      → Starts c (initiate_challan_payment gateway random_order random_payment challan_id citizen w)
  unfolding initiate_challan_payment update_challan_unique update_challan
  initiate-Starts c ChallanStatus.paid found is_s = ground arith
  initiate-Starts c ChallanStatus.cancelled found is_s = ground arith
  initiate-Starts c ChallanStatus.pending found is_s =
      elim (Bool-cases (is_id citizen c.violator_user_id)) [
        | inr foreign ↦ ground arith
        | inl own ↦ elim (Bool-cases (truthy c.payment_order_id)) [
          | inl ordered ↦ ground arith
          | inr no_order ↦ elim (Bool-cases (police_is_active c.police_entity_id w)) [
            | inr inactive ↦ ground arith
            | inl active ↦ unpaid-Starts c found is_s active own no_order
          ]
        ]
      ]

  -- The webhook that comes with a started payment is accepted.
  signed :
      (node : Node) (amount : Text) (w' : World)
      → challan_payment_webhook gateway node
          (mock_webhook gateway random_payment order_id amount)
          w'
        ≡ settle_order gateway node (mock_webhook gateway random_payment order_id amount) w'
  unfolding challan_payment_webhook check_signature mock_webhook
  signed node amount w' = ground (
    arith,
    timing_safe_equal_refl
        (hex_bytes (webhook_signature gateway order_id (text "pay_" ++ random_payment) amount)),
  )

  accepted :
      (node : Node) (c : Challan) (t n : ℕ)
      → IsSound w
      → find? (with_chain_id challan_id) w.challans ≡ some c
      → c.own_tid ≡ some (suc t)
      → c.challan_id ≡ some (suc n)
      → c.status ≡ ChallanStatus.pending
      → any (takes_order c.id order_id) w.challans ≡ false
      → police_is_active c.police_entity_id w ≡ true
      → settle_order gateway node (order_of c).dev_webhook (started c)
        ≡ acknowledge gateway (
            submit_and_track node c.police_entity_id police
              (Call.pay_challan (suc t) (suc n))
              (pending_challan_tx challan_pay c.id c.police_entity_id none TxSource.webhook)
              (referenced (order_of c).dev_webhook c (started c)))
  unfolding settle_order settle_by_status confirm_payment update_challan mock_webhook
      police_is_active
  accepted node c t n sound found tid registered unpaid free active =
      rw (found_order, settle_order)
        (ground (arith, text_eq_refl (gateway.amount_text c.amount), exists))
    where
      found_order :
          find? (with_order order_id) (started c).challans ≡ some (with_order_id order_id c)
      found_order =
          find?-order order_id w.challans c
            (find?-key (with_chain_id challan_id) w.challans c sound.distinct found) free

      exists : is_some (find? (with_id c.id) (started c).challans) ≡ true
      exists =
          find?-exists (with_order order_id) (with_id c.id) (started c).challans
            (with_order_id order_id c) found_order (==_refl c.id)

  of_start :
      (node : Node) (c : Challan) (order : Order) (w' : World) (t n : ℕ)
      → IsSound w
      → find? (with_chain_id challan_id) w.challans ≡ some c
      → c.own_tid ≡ some (suc t)
      → c.challan_id ≡ some (suc n)
      → Starts c (ok order, w')
      → challan_payment_webhook gateway node order.dev_webhook w'
        ≡ acknowledge gateway (
            submit_and_track node c.police_entity_id police
              (Call.pay_challan (suc t) (suc n))
              (pending_challan_tx challan_pay c.id c.police_entity_id none TxSource.webhook)
              (referenced order.dev_webhook c w'))
  of_start node c order w' t n sound found tid registered (unpaid, free, active, written, made) =
      rw (written, made)
        (signed node (gateway.amount_text c.amount) (started c)
          ∙ accepted node c t n sound found tid registered unpaid free active)

  -- Where the table of challans is well formed, a citizen's start of a payment that goes through,
  -- for a challan that is known on-chain, hands out a webhook that passes every check of the
  -- webhook handler: delivered next, it records its payment reference on that challan and submits
  -- one `payChallan` with the ids of the challan as the police entity that issued it.
  pub webhook_after_initiate :
      (node : Node) (c : Challan) (order : Order) (w' : World) (t n : ℕ)
      → IsSound w
      → find? (with_chain_id challan_id) w.challans ≡ some c
      → c.own_tid ≡ some (suc t)
      → c.challan_id ≡ some (suc n)
      → initiate_challan_payment gateway random_order random_payment challan_id citizen w
        ≡ (ok order, w')
      → challan_payment_webhook gateway node order.dev_webhook w'
        ≡ acknowledge gateway (
            submit_and_track node c.police_entity_id police
              (Call.pay_challan (suc t) (suc n))
              (pending_challan_tx challan_pay c.id c.police_entity_id none TxSource.webhook)
              (referenced order.dev_webhook c w'))
  webhook_after_initiate node c order w' t n sound found tid registered goes_through =
      of_start node c order w' t n sound found tid registered
        (subst (Starts c) goes_through (initiate-Starts c c.status found refl))
