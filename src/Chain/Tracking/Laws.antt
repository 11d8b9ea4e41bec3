-- ===== src/Chain/Tracking/Laws.antt =====
-- What a tracked submission leaves behind.
use vehicle_lifecycle_manage.Base.{
  ℕ, suc, ◌≡◌, ◌⊎◌, refl, sym, subst, inl, inr, [], ◌∷◌, ◌++◌, true, false, Bool-cases,
}
use vehicle_lifecycle_manage.Base.Text.{Text}
use vehicle_lifecycle_manage.Domain.{EntityType}
use vehicle_lifecycle_manage.Domain.Failure.{Failure, http, Result, ok, err}
use vehicle_lifecycle_manage.Store.Rows.{BlockchainTransaction}
use vehicle_lifecycle_manage.Store.World.{Call, World, unique_violation}
use vehicle_lifecycle_manage.Chain.Manager.{Node}
use vehicle_lifecycle_manage.Chain.Manager.Laws.{MayAct, submitted, Answers, submit_or_400-Answers}
use vehicle_lifecycle_manage.Chain.Tracking.{
  is_tracked, create_transaction, track, with_hash, submit_and_track,
}

-- The world with one more transaction in the mempool and one more row that tracks it.
abbrev pub tracked : ℕ → Call → (ℕ → ℕ → BlockchainTransaction) → ℕ → World → World
tracked entity_id call row hash w = record (submitted entity_id call hash w) {
  transactions = w.transactions ++ row hash w.next_id ∷ [];
  next_id = suc w.next_id;
}

-- It failed before anything was sent, or the node has given out a hash that a row already has.
abbrev pub Untracked : World → ℕ → Call → Failure → World → Type 0
Untracked w entity_id call e w' =
    ((w' ≡ w) × ((m : Text) × (e ≡ http 400 m)))
    ⊎ ((hash : ℕ) × (is_tracked hash w ≡ true)
        × (w' ≡ submitted entity_id call hash w)
        × (e ≡ unique_violation))

abbrev pub Tracks : World → ℕ → Call → (ℕ → ℕ → BlockchainTransaction) → Result ℕ × World → Type 0
Tracks w entity_id call row (ok hash, w') =
    MayAct w entity_id × (is_tracked hash w ≡ false) × (w' ≡ tracked entity_id call row hash w)
Tracks w entity_id call row (err e, w') = Untracked w entity_id call e w'

create_transaction_fresh :
    (row : ℕ → BlockchainTransaction) (w : World)
    → is_tracked (row w.next_id).tx_hash w ≡ false
    → create_transaction row w ≡ (
      ok tt,
      record w { transactions = w.transactions ++ row w.next_id ∷ []; next_id = suc w.next_id },
    )
unfolding create_transaction
create_transaction_fresh row w h = rw h refl

create_transaction_known :
    (row : ℕ → BlockchainTransaction) (w : World)
    → is_tracked (row w.next_id).tx_hash w ≡ true
    → create_transaction row w ≡ (err unique_violation, w)
unfolding create_transaction
create_transaction_known row w h = rw h refl

track-Tracks :
    (w : World) (entity_id : ℕ) (call : Call) (row : ℕ → ℕ → BlockchainTransaction)
    (x : Result ℕ × World)
    → ((h i : ℕ) → (row h i).tx_hash ≡ h)
    → Answers w entity_id call x
    → Tracks w entity_id call row (track row x)
unfolding track
track-Tracks w entity_id call row (err e, w') same a = inl (a.0, a.1)
track-Tracks w entity_id call row (ok hash, w') same (may, sent) =
    rw sent (elim (Bool-cases (is_tracked hash w)) [
      | inl known ↦
          goal_from _
            (create_transaction_known (row hash) (submitted entity_id call hash w)
              (rw (same hash w.next_id) known))
            (inr (hash, known, refl, refl))
      | inr fresh ↦
          goal_from _
            (create_transaction_fresh (row hash) (submitted entity_id call hash w)
              (rw (same hash w.next_id) fresh))
            (may, fresh, refl)
    ])
  where
    goal_from :
        (y : Result (Unit {0}) × World)
        → create_transaction (row hash) (submitted entity_id call hash w) ≡ y
        → Tracks w entity_id call row (with_hash hash y)
        → Tracks w entity_id call row
            (with_hash hash (create_transaction (row hash) (submitted entity_id call hash w)))
    goal_from y e t = subst (λ z. Tracks w entity_id call row (with_hash hash z)) (sym e) t

-- A tracked submission ends in one of three ways: it is sent once and tracked by one new row; it
-- fails with 400 and changes nothing; or it is sent under a hash that is already tracked, and the
-- creation of the row fails.
pub submit_and_track-Tracks :
    (node : Node) (entity_id : ℕ) (target : EntityType) (call : Call)
    (row : ℕ → ℕ → BlockchainTransaction) (w : World)
    → ((h i : ℕ) → (row h i).tx_hash ≡ h)
    → Tracks w entity_id call row (submit_and_track node entity_id target call row w)
unfolding submit_and_track
submit_and_track-Tracks node entity_id target call row w same =
    track-Tracks w entity_id call row _ same (submit_or_400-Answers node entity_id target call w)
