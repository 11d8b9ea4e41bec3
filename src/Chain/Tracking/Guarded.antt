-- ===== src/Chain/Tracking/Guarded.antt =====
-- A handler that checks its guards and then makes one tracked submission.
use vehicle_lifecycle_manage.Base.{ℕ, ◌≡◌, ◌⊎◌, sym, subst, inl, inr, true, false}
use vehicle_lifecycle_manage.Domain.{EntityType}
use vehicle_lifecycle_manage.Domain.Failure.{Result, ok, err}
use vehicle_lifecycle_manage.Store.Rows.{BlockchainTransaction}
use vehicle_lifecycle_manage.Store.World.{Call, World}
use vehicle_lifecycle_manage.Chain.Manager.{Node}
use vehicle_lifecycle_manage.Chain.Manager.Laws.{MayAct, submitted}
use vehicle_lifecycle_manage.Chain.Tracking.{is_tracked, submit_and_track}
use vehicle_lifecycle_manage.Chain.Tracking.Laws.{tracked, Tracks, submit_and_track-Tracks}

-- A value, or an error that changed nothing.
abbrev pub Unchanged : {A : Type 0} → World → Result A × World → Type 0
Unchanged w (ok _, w') = ⊥
Unchanged w (err _, w') = w' ≡ w

module _ (w : World) (entity_id : ℕ)
    (Allowed : Call → (ℕ → ℕ → BlockchainTransaction) → Type 0) where
  -- A success is one call that the guards allow, sent and tracked under a fresh hash; a failure
  -- has changed nothing but, at most, sent such a call under a hash that some row already has.
  abbrev pub Sends : Result ℕ × World → Type 0
  Sends (ok hash, w') =
      (call : Call) × (row : ℕ → ℕ → BlockchainTransaction) × Allowed call row
      × MayAct w entity_id
      × (is_tracked hash w ≡ false)
      × (w' ≡ tracked entity_id call row hash w)
  Sends (err e, w') =
      (w' ≡ w)
      ⊎ ((call : Call) × (row : ℕ → ℕ → BlockchainTransaction) × (hash : ℕ) × Allowed call row
          × (is_tracked hash w ≡ true)
          × (w' ≡ submitted entity_id call hash w))

  Tracks-Sends :
      (call : Call) (row : ℕ → ℕ → BlockchainTransaction) (x : Result ℕ × World)
      → Allowed call row
      → Tracks w entity_id call row x
      → Sends x
  Tracks-Sends call row (ok hash, w') allowed (may, fresh, done) =
      (call, row, allowed, may, fresh, done)
  Tracks-Sends call row (err e, w') allowed (inl (same, _)) = inl same
  Tracks-Sends call row (err e, w') allowed (inr (hash, known, sent, _)) =
      inr (call, row, hash, allowed, known, sent)

  pub Unchanged-Sends : (x : Result ℕ × World) → Unchanged w x → Sends x
  Unchanged-Sends (ok _, w') h = elim h [ ]
  Unchanged-Sends (err e, w') h = inl h

  -- A handler that is a submission which its guards allow.
  pub submission-Sends :
      (node : Node) (target : EntityType) (call : Call) (row : ℕ → ℕ → BlockchainTransaction)
      (x : Result ℕ × World)
      → ((h i : ℕ) → (row h i).tx_hash ≡ h)
      → Allowed call row
      → x ≡ submit_and_track node entity_id target call row w
      → Sends x
  submission-Sends node target call row x same allowed e = subst Sends (sym e) (
      Tracks-Sends call row _ allowed
        (submit_and_track-Tracks node entity_id target call row w same))
