-- ===== src/Chain/Tracking.antt =====
-- A submission and the row that tracks it: what the services and repositories under
-- backend/src/modules do around `submitEntityTx` and `blockchainTransaction.create`.
pub mod Laws
pub mod Guarded
pub mod Created
use vehicle_lifecycle_manage.Base.{ℕ, suc, List, [], ◌∷◌, ◌++◌, Bool, ◌==◌, if◌then◌else◌}
use vehicle_lifecycle_manage.Base.Lists.{any}
use vehicle_lifecycle_manage.Domain.{EntityType}
use vehicle_lifecycle_manage.Domain.Failure.{Result, ok, err}
use vehicle_lifecycle_manage.Store.Rows.{BlockchainTransaction}
use vehicle_lifecycle_manage.Store.World.{Call, World, Action, unique_violation}
use vehicle_lifecycle_manage.Chain.Manager.{Node, submit_or_400}

-- The column `tx_hash` already holds the hash.
abbrev pub is_tracked : ℕ → World → Bool
is_tracked hash w = any (λ t. t.tx_hash == hash) w.transactions

-- `blockchainTransaction.create`, of a row whose key is the next one
unfoldable pub create_transaction : (ℕ → BlockchainTransaction) → Action (Unit {0})
create_transaction row w =
    if is_tracked (row w.next_id).tx_hash w then (err unique_violation, w) else (
      ok tt,
      record w { transactions = w.transactions ++ row w.next_id ∷ []; next_id = suc w.next_id },
    )

-- `return { txHash, … }` after the row was created
abbrev pub with_hash : ℕ → Result (Unit {0}) × World → Result ℕ × World
with_hash hash (ok _, w) = (ok hash, w)
with_hash hash (err e, w) = (err e, w)

-- The row is given the hash and its key.
unfoldable pub track : (ℕ → ℕ → BlockchainTransaction) → Result ℕ × World → Result ℕ × World
unfolding create_transaction
track row (ok hash, w) = with_hash hash (create_transaction (row hash) w)
track row (err e, w) = (err e, w)

unfoldable pub submit_and_track :
    Node → ℕ → EntityType → Call → (ℕ → ℕ → BlockchainTransaction) → Action ℕ
unfolding track
submit_and_track node entity_id target call row w =
    track row (submit_or_400 node entity_id target call w)
