-- ===== src/Challan/Payment/Laws.antt =====
-- What the webhook of the payment gateway does, and that an order which was started can be paid.
use vehicle_lifecycle_manage.Base.{
  ℕ, zero, suc, ◌≡◌, ◌≢◌, ◌⊎◌, refl, sym, subst, inl, inr, Option, none, some, Bool, true, false,
  arith, Bool-cases, Option-cases, ==_refl, is_some, if◌then◌else◌,
}
use vehicle_lifecycle_manage.Base.Text.{text, text_eq, text_eq→eq, text_eq_refl}
use vehicle_lifecycle_manage.Domain.{police, ChallanStatus, TxSource, challan_pay}
use vehicle_lifecycle_manage.Domain.Failure.{Result, ok, err, Result-cases}
use vehicle_lifecycle_manage.Crypto.{hex_bytes, timing_safe_equal, timing_safe_equal→eq}
use vehicle_lifecycle_manage.Store.Rows.{Challan}
use vehicle_lifecycle_manage.Store.Table.{find?, update_first, find?-exists}
use vehicle_lifecycle_manage.Store.World.{Call, World}
use vehicle_lifecycle_manage.Chain.Manager.{Node}
use vehicle_lifecycle_manage.Chain.Manager.Laws.{MayAct, submitted}
use vehicle_lifecycle_manage.Chain.Tracking.{is_tracked, submit_and_track}
use vehicle_lifecycle_manage.Chain.Tracking.Laws.{tracked, Tracks, submit_and_track-Tracks}
use vehicle_lifecycle_manage.Chain.Tracking.Guarded.{Unchanged}
use vehicle_lifecycle_manage.Challan.Rows.{with_id, with_order, update_challan}
use vehicle_lifecycle_manage.Challan.Police.{pending_challan_tx}
use vehicle_lifecycle_manage.Challan.Payment.{
  Webhook, Acknowledged, skipped, processed, Gateway, police_is_active, webhook_signature,
  check_signature, confirm_payment, settle_by_status, settle_order, challan_payment_webhook,
  acknowledge,
}

-- The world with the reference of the gateway on the challan.
abbrev pub referenced : Webhook → Challan → World → World
referenced input c w = record w {
  challans =
      update_first (with_id c.id) (λ c. record c { payment_ref = some input.payment_id })
        w.challans;
}

-- The signature of the webhook is the HMAC of its fields, as bytes.
abbrev pub IsSigned : Gateway → Webhook → Type 0
IsSigned gateway input =
    hex_bytes (webhook_signature gateway input.order_id input.payment_id input.amount_paid)
    ≡ hex_bytes input.signature

-- The payment may go on-chain: it is a success, the challan of the order is pending, known on-chain,
-- and paid in full, and the police entity is active.
pub record IsDue (gateway : Gateway) (w : World) (input : Webhook) (c : Challan)
    (own_tid chain_id : ℕ) : Type 0 where
  pub successful : input.status ≡ text "SUCCESS"
  pub found : find? (with_order input.order_id) w.challans ≡ some c
  pub unpaid : c.status ≡ ChallanStatus.pending
  pub in_full : input.amount_paid ≡ gateway.amount_text c.amount
  pub on_chain : c.own_tid ≡ some own_tid
  pub registered : c.challan_id ≡ some chain_id
  pub active : police_is_active c.police_entity_id w ≡ true

abbrev pub paid_by_webhook : Webhook → Challan → ℕ → ℕ → ℕ → World → World
paid_by_webhook input c own_tid chain_id hash w =
    tracked c.police_entity_id (Call.pay_challan own_tid chain_id)
      (pending_challan_tx challan_pay c.id c.police_entity_id none TxSource.webhook) hash
      (referenced input c w)

-- There is nothing to confirm: the payment is no success, or the challan is paid already.
abbrev pub IsSkipped : World → Webhook → Type 0
IsSkipped w input =
    (input.status ≢ text "SUCCESS")
    ⊎ ((c : Challan) × (find? (with_order input.order_id) w.challans ≡ some c)
        × (c.status ≡ ChallanStatus.paid))

abbrev pub Confirms : Gateway → World → Webhook → Result Acknowledged × World → Type 0
Confirms gateway w input (ok skipped, w') = (w' ≡ w) × IsSkipped w input
Confirms gateway w input (ok (processed hash), w') =
    (c : Challan) × (own_tid : ℕ) × (chain_id : ℕ) × IsDue gateway w input c own_tid chain_id
    × MayAct (referenced input c w) c.police_entity_id
    × (w' ≡ paid_by_webhook input c own_tid chain_id hash w)
Confirms gateway w input (err e, w') =
    (w' ≡ w)
    ⊎ ((c : Challan) × (own_tid : ℕ) × (chain_id : ℕ) × IsDue gateway w input c own_tid chain_id
        × ((w' ≡ referenced input c w)
            ⊎ ((hash : ℕ) × (is_tracked hash w ≡ true)
                × (w'
                    ≡ submitted c.police_entity_id (Call.pay_challan own_tid chain_id) hash
                        (referenced input c w)))))

module _ (gateway : Gateway) (node : Node) (w : World) (input : Webhook) where
  submitted-Confirms :
      (c : Challan) (own_tid chain_id : ℕ) (x : Result ℕ × World)
      → IsDue gateway w input c own_tid chain_id
      → Tracks
          (referenced input c w)
          c.police_entity_id
          (Call.pay_challan own_tid chain_id)
          (pending_challan_tx challan_pay c.id c.police_entity_id none TxSource.webhook)
          x
      → Confirms gateway w input (acknowledge gateway x)
  submitted-Confirms c own_tid chain_id (ok hash, w') due t = (c, own_tid, chain_id, due, t.0, t.2)
  submitted-Confirms c own_tid chain_id (err e, w') due (inl t) =
      inr (c, own_tid, chain_id, due, inl t.0)
  submitted-Confirms c own_tid chain_id (err e, w') due (inr (hash, known, sent, _)) =
      inr (c, own_tid, chain_id, due, inr (hash, known, sent))

  unchanged :
      (x : Result Acknowledged × World) → x.1 ≡ w → Unchanged w x → Confirms gateway w input x
  unchanged (ok _, w') e h = elim h [ ]
  unchanged (err f, w') e h = inl h

  -- Either a guard refuses, or the payment is due and the call is submitted.
  abbrev Due : Challan → Result Acknowledged × World → Type 0
  Due c x =
      ((own_tid : ℕ) × (chain_id : ℕ) × IsDue gateway w input c own_tid chain_id
        × (x
            ≡ acknowledge gateway (
                submit_and_track node c.police_entity_id police (Call.pay_challan own_tid chain_id)
                  (pending_challan_tx challan_pay c.id c.police_entity_id none TxSource.webhook)
                  (referenced input c w))))
      ⊎ ((x.1 ≡ w) × Unchanged w x)

  confirm_payment-Due :
      (c : Challan) (t n : Option ℕ)
      → input.status ≡ text "SUCCESS"
      → find? (with_order input.order_id) w.challans ≡ some c
      → is_some (find? (with_id c.id) w.challans) ≡ true
      → c.status ≡ ChallanStatus.pending
      → c.own_tid ≡ t
      → c.challan_id ≡ n
      → Due c (confirm_payment gateway node input c w)
  unfolding confirm_payment update_challan
  confirm_payment-Due c none n success found exists pending is_t is_n = inr (ground arith)
  confirm_payment-Due c (some zero) n success found exists pending is_t is_n = inr (ground arith)
  confirm_payment-Due c (some (suc t)) none success found exists pending is_t is_n =
      inr (ground arith)
  confirm_payment-Due c (some (suc t)) (some zero) success found exists pending is_t is_n =
      inr (ground arith)
  confirm_payment-Due c (some (suc t)) (some (suc n)) success found exists pending is_t is_n =
      elim (Bool-cases (text_eq input.amount_paid (gateway.amount_text c.amount))) [
        | inr short ↦ inr (ground arith)
        | inl full ↦ elim (Bool-cases (police_is_active c.police_entity_id w)) [
          | inr idle ↦ inr (ground arith)
          | inl active ↦ inl (
            suc t,
            suc n,
            record {
              successful = success;
              found = found;
              unpaid = pending;
              in_full = text_eq→eq _ _ full;
              on_chain = is_t;
              registered = is_n;
              active = active;
            },
            ground arith,
          )
        ]
      ]

  Due-Confirms :
      (c : Challan) (x : Result Acknowledged × World) → Due c x → Confirms gateway w input x
  Due-Confirms c x (inr (same, h)) = unchanged x same h
  Due-Confirms c x (inl (own_tid, chain_id, due, e)) = subst (Confirms gateway w input) (sym e) (
      submitted-Confirms c own_tid chain_id _ due (
        submit_and_track-Tracks node c.police_entity_id police (Call.pay_challan own_tid chain_id)
          (pending_challan_tx challan_pay c.id c.police_entity_id none TxSource.webhook)
          (referenced input c w) (λ h i. refl)))

  settle_found :
      (c : Challan) (s : ChallanStatus)
      → input.status ≡ text "SUCCESS"
      → find? (with_order input.order_id) w.challans ≡ some c
      → c.status ≡ s
      → Confirms gateway w input (settle_by_status gateway node input c s w)
  unfolding settle_by_status
  settle_found c ChallanStatus.paid success found is_s = (refl, inr (c, found, is_s))
  settle_found c ChallanStatus.cancelled success found is_s = inl refl
  settle_found c ChallanStatus.pending success found is_s = Due-Confirms c _ (
      confirm_payment-Due c c.own_tid c.challan_id success found
        (find?-exists _ (with_id c.id) w.challans c found (==_refl c.id)) is_s refl refl)

  settle_order-Confirms :
      input.status ≡ text "SUCCESS" → Confirms gateway w input (settle_order gateway node input w)
  unfolding settle_order
  settle_order-Confirms success =
      elim (Option-cases (find? (with_order input.order_id) w.challans)) [
        | inl missing ↦ rw (missing, settle_order) (inl refl)
        | inr (c, found) ↦ rw (found, settle_order) (settle_found c c.status success found refl)
      ]

  -- The webhook of the gateway goes on only if its bytes of the signature are those of the HMAC
  -- over its fields. It is acknowledged as not processed only if its status is not SUCCESS or the
  -- challan of its order is paid, and then nothing has changed. It is acknowledged as processed only
  -- if its status is SUCCESS and the challan of its order is pending, known on-chain, paid to the
  -- last digit, and issued by an active police entity that may act; then the payment reference has
  -- been recorded, one `payChallan` sent as that entity, and one pending CHALLAN_PAY row added, of
  -- source WEBHOOK and without a member. An error has changed nothing, except
  -- that, where those conditions but the right to act hold, the reference may stay recorded, and
  -- the call may have been sent under a hash that some row already has.
  pub challan_payment_webhook-Confirms :
      Confirms gateway w input (challan_payment_webhook gateway node input w)
      × (¬ IsSigned gateway input → Unchanged w (challan_payment_webhook gateway node input w))
  unfolding challan_payment_webhook check_signature timing_safe_equal
  challan_payment_webhook-Confirms = (confirms, forged)
    where
      goes_on :
          timing_safe_equal
              (hex_bytes
                (webhook_signature gateway input.order_id input.payment_id input.amount_paid))
              (hex_bytes input.signature)
            ≡ ok true
          → challan_payment_webhook gateway node input w ≡ (
              if text_eq input.status (text "SUCCESS")
              then settle_order gateway node input w
              else (ok skipped, w))
      goes_on signed = ground arith

      by_status :
          (b : Bool)
          → text_eq input.status (text "SUCCESS") ≡ b
          → Confirms gateway w input
              (if b then settle_order gateway node input w else (ok skipped, w))
      by_status true success = settle_order-Confirms (text_eq→eq _ _ success)
      by_status false failure = (refl, inl (λ e. ground (arith, text_eq_refl (text "SUCCESS"))))

      confirms : Confirms gateway w input (challan_payment_webhook gateway node input w)
      confirms =
          elim (Result-cases (
            timing_safe_equal
              (hex_bytes
                (webhook_signature gateway input.order_id input.payment_id input.amount_paid))
              (hex_bytes input.signature))) [
                | inl (e, thrown) ↦ unchanged _ (ground arith) (ground arith)
                | inr (false, wrong) ↦ unchanged _ (ground arith) (ground arith)
                | inr (true, signed) ↦
                    subst (Confirms gateway w input) (sym (goes_on signed)) (by_status _ refl)
              ]

      forged : ¬ IsSigned gateway input → Unchanged w (challan_payment_webhook gateway node input w)
      forged differs =
          elim (Result-cases (
            timing_safe_equal
              (hex_bytes
                (webhook_signature gateway input.order_id input.payment_id input.amount_paid))
              (hex_bytes input.signature))) [
                | inl (e, thrown) ↦ ground arith
                | inr (false, wrong) ↦ ground arith
                | inr (true, signed) ↦ elim (differs (timing_safe_equal→eq _ _ signed)) [ ]
              ]
