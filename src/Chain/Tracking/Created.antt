-- ===== src/Chain/Tracking/Created.antt =====
-- A submission that is followed by a new row and the row that tracks it, both or neither, as the
-- repositories under backend/src/modules create them in one `$transaction`.
use vehicle_lifecycle_manage.Base.{
  ℕ, suc, ◌≡◌, refl, sym, subst, inl, inr, [], ◌∷◌, ◌++◌, true, false, Bool-cases, arith,
}
use vehicle_lifecycle_manage.Domain.{EntityType}
use vehicle_lifecycle_manage.Domain.Failure.{Result, ok, err}
use vehicle_lifecycle_manage.Store.Rows.{BlockchainTransaction}
use vehicle_lifecycle_manage.Store.World.{
  Call, World, Action, pure, transaction, unique_violation, ◌>>=◌, ◌>>◌,
}
use vehicle_lifecycle_manage.Chain.Manager.{Node, submit_or_400}
use vehicle_lifecycle_manage.Chain.Manager.Laws.{MayAct, submitted, Answers, submit_or_400-Answers}
use vehicle_lifecycle_manage.Chain.Tracking.{is_tracked, create_transaction}
use vehicle_lifecycle_manage.Chain.Tracking.Laws.{Untracked}

-- `tx.<table>.create` of a row whose key is the next one
abbrev pub inserts : (World → World) → Action ℕ
inserts grown w = (ok w.next_id, grown w)

unfoldable pub create_tracked : (World → World) → (ℕ → ℕ → ℕ → BlockchainTransaction) → ℕ → Action ℕ
unfolding create_transaction
create_tracked grown row hash =
    transaction do id ← inserts grown; create_transaction (row id hash); pure id

abbrev pub with_hash : ℕ → Result ℕ × World → Result (ℕ × ℕ) × World
with_hash hash (ok id, w) = (ok (id, hash), w)
with_hash hash (err e, w) = (err e, w)

unfoldable pub track_created :
    (World → World)
    → (ℕ → ℕ → ℕ → BlockchainTransaction)
    → Result ℕ × World
    → Result (ℕ × ℕ) × World
unfolding create_tracked
track_created grown row (ok hash, w) = with_hash hash (create_tracked grown row hash w)
track_created grown row (err e, w) = (err e, w)

-- The id of the new row and the hash.
unfoldable pub submit_and_create :
    Node
    → ℕ
    → EntityType
    → Call
    → (World → World)
    → (ℕ → ℕ → ℕ → BlockchainTransaction)
    → Action (ℕ × ℕ)
unfolding track_created
submit_and_create node entity target call grown row w =
    track_created grown row (submit_or_400 node entity target call w)

module _ (w : World) (entity : ℕ) (call : Call) (grown : World → World)
    (row : ℕ → ℕ → ℕ → BlockchainTransaction) where
  -- the world with the new row and the one that tracks it
  abbrev pub created : ℕ → World
  created hash = record (grown (submitted entity call hash w)) {
    transactions = w.transactions ++ row w.next_id hash (suc w.next_id) ∷ [];
    next_id = suc (suc w.next_id);
  }

  -- How a tracked creation that began at `w` may end.
  abbrev pub Creates : Result (ℕ × ℕ) × World → Type 0
  Creates (ok (id, hash), v) =
      MayAct w entity × (id ≡ w.next_id) × (is_tracked hash w ≡ false) × (v ≡ created hash)
  Creates (err e, v) = Untracked w entity call e v

  module _ (same_hash : (id hash i : ℕ) → (row id hash i).tx_hash ≡ hash)
      (next : (u : World) → (grown u).next_id ≡ suc u.next_id)
      (keeps : (u : World) → (grown u).transactions ≡ u.transactions) where
    fresh_tracked :
        (hash : ℕ)
        → is_tracked hash w ≡ false
        → create_tracked grown row hash (submitted entity call hash w)
          ≡ (ok w.next_id, created hash)
    unfolding create_tracked
    fresh_tracked hash fresh = ground (
      arith,
      same_hash w.next_id hash (suc w.next_id),
      next (submitted entity call hash w),
      keeps (submitted entity call hash w),
    )

    known_tracked :
        (hash : ℕ)
        → is_tracked hash w ≡ true
        → create_tracked grown row hash (submitted entity call hash w)
          ≡ (err unique_violation, submitted entity call hash w)
    unfolding create_tracked
    known_tracked hash known = ground (
      arith,
      same_hash w.next_id hash (suc w.next_id),
      next (submitted entity call hash w),
      keeps (submitted entity call hash w),
    )

    sent_tracked :
        (hash : ℕ)
        → MayAct w entity
        → Creates (with_hash hash (create_tracked grown row hash (submitted entity call hash w)))
    sent_tracked hash may = elim (Bool-cases (is_tracked hash w)) [
      | inl known ↦
          subst (λ y. Creates (with_hash hash y)) (sym (known_tracked hash known))
            (inr (hash, known, refl, refl))
      | inr fresh ↦
          subst (λ y. Creates (with_hash hash y)) (sym (fresh_tracked hash fresh))
            (may, refl, fresh, refl)
    ]

    track-Creates :
        (x : Result ℕ × World) → Answers w entity call x → Creates (track_created grown row x)
    unfolding track_created
    track-Creates (err e, v) a = inl (a.0, a.1)
    track-Creates (ok hash, v) (may, sent) =
        subst (λ u. Creates (track_created grown row (ok hash, u))) (sym sent)
          (sent_tracked hash may)

    -- The submission is sent once, by an entity that may act, and leaves the two new rows; or it
    -- fails and changes nothing; or it is sent under a hash that some row already has, and leaves
    -- no row.
    pub submit_and_create-Creates :
        (node : Node) (target : EntityType)
        → Creates (submit_and_create node entity target call grown row w)
    unfolding submit_and_create
    submit_and_create-Creates node target =
        track-Creates _ (submit_or_400-Answers node entity target call w)
