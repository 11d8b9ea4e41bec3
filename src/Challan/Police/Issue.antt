-- ===== src/Challan/Police/Issue.antt =====
-- What `issueChallan` does, on every branch.
use vehicle_lifecycle_manage.Base.{
  ℕ, suc, ◌≡◌, ◌⊎◌, refl, sym, subst, inl, inr, some, [], ◌∷◌, ◌++◌, true, false, arith, Bool-cases,
  Option-cases,
}
use vehicle_lifecycle_manage.Domain.{police, TxSource, challan_issue}
use vehicle_lifecycle_manage.Domain.Failure.{Result, ok, err}
use vehicle_lifecycle_manage.Store.Rows.{VehicleOwnership}
use vehicle_lifecycle_manage.Store.Table.{find?}
use vehicle_lifecycle_manage.Store.World.{Call, World, unique_violation}
use vehicle_lifecycle_manage.Chain.Manager.{Node}
use vehicle_lifecycle_manage.Chain.Manager.Laws.{MayAct, submitted, Answers, submit_or_400-Answers}
use vehicle_lifecycle_manage.Chain.Tracking.{is_tracked, create_transaction}
use vehicle_lifecycle_manage.Challan.Rows.{is_id}
use vehicle_lifecycle_manage.Challan.Police.{
  issued_challan, pending_challan_tx, create_challan, create_challan_tx, with_both, track_challan,
  issue_challan,
}

module _ (own_tid amount police_entity member : ℕ) where
  -- The call is sent, and one challan and one row that tracks the call have been added.
  abbrev pub issued : VehicleOwnership → ℕ → World → World
  issued o hash w = record (submitted police_entity (Call.issue_challan own_tid amount) hash w) {
    challans =
        w.challans ++ issued_challan o own_tid police_entity amount member w.now w.next_id ∷ [];
    transactions =
        w.transactions
        ++ pending_challan_tx challan_issue w.next_id police_entity (some member) TxSource.member
            hash (suc w.next_id)
          ∷ [];
    next_id = suc (suc w.next_id);
  }

  abbrev pub Issues : World → Result (ℕ × ℕ) × World → Type 0
  Issues w (ok (id, hash), w') =
      (o : VehicleOwnership) × (find? (λ (o : VehicleOwnership). is_id own_tid o.own_tid)
          w.ownerships
        ≡ some o)
      × MayAct w police_entity
      × (is_tracked hash w ≡ false)
      × (id ≡ w.next_id)
      × (w' ≡ issued o hash w)
  Issues w (err e, w') =
      (w' ≡ w)
      ⊎ ((hash : ℕ) × (is_tracked hash w ≡ true)
          × (w' ≡ submitted police_entity (Call.issue_challan own_tid amount) hash w))

  module _ (o : VehicleOwnership) (w : World) where
    -- `createChallanTx` after a submission under `hash`.
    abbrev sent : ℕ → World
    sent hash = submitted police_entity (Call.issue_challan own_tid amount) hash w

    tracks_new :
        (hash : ℕ)
        → is_tracked hash w ≡ false
        → create_challan_tx o own_tid police_entity amount member hash (sent hash)
          ≡ (ok w.next_id, issued o hash w)
    unfolding create_challan_tx create_challan create_transaction
    tracks_new hash fresh = ground arith

    tracks_known :
        (hash : ℕ)
        → is_tracked hash w ≡ true
        → create_challan_tx o own_tid police_entity amount member hash (sent hash)
          ≡ (err unique_violation, sent hash)
    unfolding create_challan_tx create_challan create_transaction
    tracks_known hash known = ground arith

  module _ (node : Node) (w : World) where
    track_challan-Issues :
        (o : VehicleOwnership) (x : Result ℕ × World)
        → find? (λ (o : VehicleOwnership). is_id own_tid o.own_tid) w.ownerships ≡ some o
        → Answers w police_entity (Call.issue_challan own_tid amount) x
        → Issues w (track_challan o own_tid police_entity amount member x)
    unfolding track_challan
    track_challan-Issues o (err e, v) found (same, _) = inl same
    track_challan-Issues o (ok hash, v) found (may, done) =
        subst
          (λ v.
            Issues w
              (with_both hash (create_challan_tx o own_tid police_entity amount member hash v)))
          (sym done)
          (elim (Bool-cases (is_tracked hash w)) [
            | inl known ↦ by_eq _ (tracks_known o w hash known) (inr (hash, known, refl))
            | inr fresh ↦ by_eq _ (tracks_new o w hash fresh) (o, found, may, fresh, refl, refl)
          ])
      where
        by_eq :
            (y : Result ℕ × World)
            → create_challan_tx o own_tid police_entity amount member hash (sent o w hash) ≡ y
            → Issues w (with_both hash y)
            → Issues w (
                with_both hash
                  (create_challan_tx o own_tid police_entity amount member hash (sent o w hash)))
        by_eq y e t = subst (λ z. Issues w (with_both hash z)) (sym e) t

    -- `issueChallan` succeeds only for an ownership on record and a police entity that may act. It
    -- then sends one `issueChallan` and adds one pending challan without an on-chain id and one
    -- pending CHALLAN_ISSUE row that refers to it, under a fresh hash, and returns both. If it
    -- fails, nothing has changed but, at most, a call sent under a hash that some row already has.
    pub issue_challan-Issues : Issues w (issue_challan node own_tid amount police_entity member w)
    unfolding issue_challan
    issue_challan-Issues =
        elim (Option-cases
          (find? (λ (o : VehicleOwnership). is_id own_tid o.own_tid) w.ownerships)) [
            | inl missing ↦ rw (missing, issue_challan) (inl refl)
            | inr (o, found) ↦
                rw (found, issue_challan)
                  (track_challan-Issues o _ found (
                    submit_or_400-Answers node police_entity police
                      (Call.issue_challan own_tid amount) w))
          ]
