-- ===== src/Challan/Police/Laws.antt =====
-- What the handlers of the police module do, on every branch.
use vehicle_lifecycle_manage.Base.{
  ℕ, zero, suc, ◌<◌, ◌≡◌, ◌≢◌, ◌⊎◌, refl, sym, subst, inl, inr, Option, none, some, true, false,
  arith, Bool-cases, Option-cases, ◌==◌,
}
use vehicle_lifecycle_manage.Base.Text.{Text, text_eq, text_eq→eq, text_eq_refl}
use vehicle_lifecycle_manage.Domain.{
  police, ChallanStatus, TxSource, TxActionType, challan_pay, challan_cancel,
}
use vehicle_lifecycle_manage.Domain.Failure.{Result, ok, err}
use vehicle_lifecycle_manage.Store.Rows.{Challan}
use vehicle_lifecycle_manage.Store.Table.{find?}
use vehicle_lifecycle_manage.Store.World.{Call, World}
use vehicle_lifecycle_manage.Chain.Manager.{Node}
use vehicle_lifecycle_manage.Chain.Manager.Laws.{MayAct, submitted}
use vehicle_lifecycle_manage.Chain.Tracking.{is_tracked, submit_and_track}
use vehicle_lifecycle_manage.Chain.Tracking.Laws.{tracked, Tracks, submit_and_track-Tracks}
use vehicle_lifecycle_manage.Chain.Tracking.Guarded.{Unchanged}
use vehicle_lifecycle_manage.Challan.Rows.{with_chain_id}
use vehicle_lifecycle_manage.Challan.Police.{pending_challan_tx, cancel_challan, pay_challan}

-- A handler that fails has changed nothing, or has sent its call under a hash that was tracked
-- before.
abbrev pub Refuses : World → ℕ → Call → World → Type 0
Refuses w entity_id call w' =
    (w' ≡ w) ⊎ ((hash : ℕ) × (is_tracked hash w ≡ true) × (w' ≡ submitted entity_id call hash w))

-- The challan may be settled by this police entity: it is its own, is unpaid, and is on-chain.
pub record IsOpenFor (w : World) (challan_id police_entity own_tid : ℕ) (c : Challan) : Type 0 where
  pub found : find? (with_chain_id challan_id) w.challans ≡ some c
  pub issued_by : c.police_entity_id ≡ police_entity
  pub unpaid : c.status ≡ ChallanStatus.pending
  pub on_chain : c.own_tid ≡ some own_tid
  pub nonzero : 0 < own_tid

-- A handler on a challan that sends `call own_tid challan_id` for it and tracks it as `action`.
abbrev pub Settles : (ℕ → ℕ → Call) → TxActionType → World → ℕ → ℕ → ℕ → Result ℕ × World → Type 0
Settles call action w challan_id police_entity member (ok hash, w') =
    (c : Challan) × (own_tid : ℕ) × IsOpenFor w challan_id police_entity own_tid c
    × MayAct w police_entity
    × (is_tracked hash w ≡ false)
    × (w'
        ≡ tracked police_entity (call own_tid challan_id)
            (pending_challan_tx action c.id police_entity (some member) TxSource.member) hash w)
Settles call action w challan_id police_entity member (err e, w') =
    (own_tid : ℕ) × Refuses w police_entity (call own_tid challan_id) w'

-- Either the guards refuse, or the handler is the tracked submission of its call.
abbrev Decides :
    (ℕ → ℕ → Call) → TxActionType → Node → World → ℕ → ℕ → ℕ → Challan → Result ℕ × World → Type 0
Decides call action node w challan_id police_entity member c x =
    ((own_tid : ℕ) × IsOpenFor w challan_id police_entity own_tid c
      × (x
          ≡ submit_and_track node police_entity police (call own_tid challan_id)
              (pending_challan_tx action c.id police_entity (some member) TxSource.member) w))
    ⊎ Unchanged w x

module _ (call : ℕ → ℕ → Call) (action : TxActionType) (node : Node) (w : World)
    (challan_id police_entity member : ℕ) where
  refused :
      (x : Result ℕ × World)
      → Unchanged w x
      → Settles call action w challan_id police_entity member x
  refused (ok _, w') h = elim h [ ]
  refused (err e, w') h = (0, inl h)

  sent :
      (c : Challan) (own_tid : ℕ) (x : Result ℕ × World)
      → IsOpenFor w challan_id police_entity own_tid c
      → Tracks w police_entity
          (call own_tid challan_id)
          (pending_challan_tx action c.id police_entity (some member) TxSource.member)
          x
      → Settles call action w challan_id police_entity member x
  sent c own_tid (ok hash, w') open_for t = (c, own_tid, open_for, t.0, t.1, t.2)
  sent c own_tid (err e, w') open_for (inl t) = (own_tid, inl t.0)
  sent c own_tid (err e, w') open_for (inr (hash, known, done, _)) =
      (own_tid, inr (hash, known, done))

  decided :
      (c : Challan) (x : Result ℕ × World)
      → Decides call action node w challan_id police_entity member c x
      → Settles call action w challan_id police_entity member x
  decided c x (inr h) = refused x h
  decided c x (inl (own_tid, open_for, e)) =
      subst (Settles call action w challan_id police_entity member) (sym e) (
        sent c own_tid _ open_for (
          submit_and_track-Tracks node police_entity police (call own_tid challan_id)
            (pending_challan_tx action c.id police_entity (some member) TxSource.member) w
            (λ h i. refl)))

module _ (node : Node) (w : World) (challan_id police_entity member : ℕ) where
  cancel_found :
      (c : Challan) (s : ChallanStatus) (t : Option ℕ)
      → find? (with_chain_id challan_id) w.challans ≡ some c
      → c.status ≡ s
      → c.own_tid ≡ t
      → Decides Call.cancel_challan challan_cancel node w challan_id police_entity member c
          (cancel_challan node challan_id police_entity member w)
  unfolding cancel_challan
  cancel_found c ChallanStatus.paid t found is_s is_t = inr (ground arith)
  cancel_found c ChallanStatus.cancelled t found is_s is_t = inr (ground arith)
  cancel_found c ChallanStatus.pending none found is_s is_t = inr (ground arith)
  cancel_found c ChallanStatus.pending (some zero) found is_s is_t = inr (ground arith)
  cancel_found c ChallanStatus.pending (some (suc n)) found is_s is_t =
      elim (Bool-cases (c.police_entity_id == police_entity)) [
        | inl own ↦ inl (suc n, ground arith, ground arith)
        | inr foreign ↦ inr (ground arith)
      ]

  -- `cancelChallan` of the police succeeds only on a challan of its own that is pending and known
  -- on-chain, for an entity that may act; it then sends one `cancelChallan` and adds one pending
  -- CHALLAN_CANCEL row under a fresh hash, and changes nothing else. If it fails, nothing has
  -- changed but, at most, a call that was sent under a hash some row already has.
  pub cancel_challan-Settles :
      Settles Call.cancel_challan challan_cancel w challan_id police_entity member
        (cancel_challan node challan_id police_entity member w)
  unfolding cancel_challan
  cancel_challan-Settles = elim (Option-cases (find? (with_chain_id challan_id) w.challans)) [
    | inl missing ↦
        refused Call.cancel_challan challan_cancel node w challan_id police_entity member _
          (ground arith)
    | inr (c, found) ↦
        decided Call.cancel_challan challan_cancel node w challan_id police_entity member c _
          (cancel_found c c.status c.own_tid found refl refl)
  ]

  module _ (amount_text : ℕ → Text) (amount_paid : Text) where
    pay_found :
        (c : Challan) (s : ChallanStatus) (t : Option ℕ)
        → find? (with_chain_id challan_id) w.challans ≡ some c
        → c.status ≡ s
        → c.own_tid ≡ t
        → amount_paid ≡ amount_text c.amount
        → Decides Call.pay_challan challan_pay node w challan_id police_entity member c
            (pay_challan node amount_text challan_id amount_paid police_entity member w)
    unfolding pay_challan
    pay_found c ChallanStatus.paid t found is_s is_t full = inr (ground arith)
    pay_found c ChallanStatus.cancelled t found is_s is_t full = inr (ground arith)
    pay_found c ChallanStatus.pending none found is_s is_t full = inr (ground arith)
    pay_found c ChallanStatus.pending (some zero) found is_s is_t full = inr (ground arith)
    pay_found c ChallanStatus.pending (some (suc n)) found is_s is_t full =
        elim (Bool-cases (c.police_entity_id == police_entity)) [
          | inl own ↦ inl (suc n, ground arith, ground (arith, text_eq_refl amount_paid))
          | inr foreign ↦ inr (ground arith)
        ]

    pay_underpaid :
        (c : Challan) (s : ChallanStatus) (t : Option ℕ)
        → find? (with_chain_id challan_id) w.challans ≡ some c
        → c.status ≡ s
        → c.own_tid ≡ t
        → text_eq amount_paid (amount_text c.amount) ≡ false
        → Unchanged w (pay_challan node amount_text challan_id amount_paid police_entity member w)
    unfolding pay_challan
    pay_underpaid c ChallanStatus.paid t found is_s is_t short = ground arith
    pay_underpaid c ChallanStatus.cancelled t found is_s is_t short = ground arith
    pay_underpaid c ChallanStatus.pending none found is_s is_t short = ground arith
    pay_underpaid c ChallanStatus.pending (some zero) found is_s is_t short = ground arith
    pay_underpaid c ChallanStatus.pending (some (suc n)) found is_s is_t short = ground arith

    -- `payChallan` of the police succeeds only on a challan of this police entity that is pending
    -- and known on-chain, for a police entity that may act. It then sends one `payChallan` and adds
    -- one pending CHALLAN_PAY row on the challan, under a fresh hash, and leaves the challan as it
    -- is. A failure has changed nothing but, at most, sent such a call under a hash that some row
    -- already has. For any text of the amount but the challan's own, it fails and changes nothing.
    pub pay_challan-Settles :
        let x = pay_challan node amount_text challan_id amount_paid police_entity member w in
        Settles Call.pay_challan challan_pay w challan_id police_entity member x
        × ((c : Challan)
            → find? (with_chain_id challan_id) w.challans ≡ some c
            → amount_paid ≢ amount_text c.amount
            → Unchanged w x)
    unfolding pay_challan
    pay_challan-Settles = (settles, underpaid)
      where
        underpaid :
            (c : Challan)
            → find? (with_chain_id challan_id) w.challans ≡ some c
            → amount_paid ≢ amount_text c.amount
            → Unchanged w
                (pay_challan node amount_text challan_id amount_paid police_entity member w)
        underpaid c found differs = elim (Bool-cases (text_eq amount_paid (amount_text c.amount))) [
          | inl same ↦ elim (differs (text_eq→eq _ _ same)) [ ]
          | inr short ↦ pay_underpaid c c.status c.own_tid found refl refl short
        ]

        settles :
            Settles Call.pay_challan challan_pay w challan_id police_entity member
              (pay_challan node amount_text challan_id amount_paid police_entity member w)
        settles = elim (Option-cases (find? (with_chain_id challan_id) w.challans)) [
          | inl missing ↦
              refused Call.pay_challan challan_pay node w challan_id police_entity member _
                (ground arith)
          | inr (c, found) ↦ elim (Bool-cases (text_eq amount_paid (amount_text c.amount))) [
            | inl full ↦
                decided Call.pay_challan challan_pay node w challan_id police_entity member c _
                  (pay_found c c.status c.own_tid found refl refl (text_eq→eq _ _ full))
            | inr short ↦
                refused Call.pay_challan challan_pay node w challan_id police_entity member _
                  (pay_underpaid c c.status c.own_tid found refl refl short)
          ]
        ]
