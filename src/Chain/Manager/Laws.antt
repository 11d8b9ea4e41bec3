-- ===== src/Chain/Manager/Laws.antt =====
-- A submission is all or nothing, and only an entity that may act makes one.
use vehicle_lifecycle_manage.Base.{
  ℕ, ◌≡◌, ◌≢◌, refl, inl, inr, Option, none, some, ◌∷◌, true, ◌==◌, ==_iff, arith, Option-cases,
}
use vehicle_lifecycle_manage.Base.Text.{Text}
use vehicle_lifecycle_manage.Domain.{EntityType}
use vehicle_lifecycle_manage.Domain.Failure.{http, Result, ok, err}
use vehicle_lifecycle_manage.Store.Rows.{B2bEntity}
use vehicle_lifecycle_manage.Store.Table.{find?, find?-holds}
use vehicle_lifecycle_manage.Store.World.{Call, World}
use vehicle_lifecycle_manage.Chain.Manager.{
  Node, send_signed, submit_entity_tx, submit_or_400, as_400,
}

-- The entity is in the database, active, registered on-chain, and has a key.
pub record MayAct (w : World) (entity_id : ℕ) : Type 0 where
  pub entity : B2bEntity
  pub found : find? (λ (e : B2bEntity). e.id == entity_id) w.entities ≡ some entity
  pub active : entity.is_active ≡ true
  pub registered : entity.on_chain_id ≢ none
  pub has_key : entity.signing_key ≢ none

abbrev pub submitted : ℕ → Call → ℕ → World → World
submitted entity_id call hash w = record w {
  mempool = record { sender = entity_id; call = call; hash = hash } ∷ w.mempool;
}

-- How a submission that began at `w` may end.
abbrev pub Submits : World → ℕ → Call → Result ℕ × World → Type 0
Submits w entity_id call (ok hash, w') = MayAct w entity_id × (w' ≡ submitted entity_id call hash w)
Submits w entity_id call (err _, w') = w' ≡ w

abbrev Sends : World → B2bEntity → Call → Result ℕ × World → Type 0
Sends w entity call (ok hash, w') =
    (entity.is_active ≡ true) × (entity.on_chain_id ≢ none) × (w' ≡ submitted entity.id call hash w)
Sends w entity call (err _, w') = w' ≡ w

send_signed-Sends :
    (node : Node) (entity : B2bEntity) (encrypted : Text) (target : EntityType) (call : Call)
    (w : World)
    → Sends w entity call (send_signed node entity encrypted target call w)
unfolding send_signed
send_signed-Sends node entity encrypted target call w = ground arith

Sends-Submits :
    (w : World) (entity_id : ℕ) (e : B2bEntity) (call : Call) (x : Result ℕ × World)
    → find? (λ (e : B2bEntity). e.id == entity_id) w.entities ≡ some e
    → e.signing_key ≢ none
    → e.id ≡ entity_id
    → Sends w e call x
    → Submits w entity_id call x
Sends-Submits w entity_id e call (err f, w') found key same s = s
Sends-Submits w entity_id e call (ok hash, w') found key same (active, registered, sent) = (
  record { entity = e; found = found; active = active; registered = registered; has_key = key },
  rw (← same) sent,
)

with_key :
    (node : Node) (entity_id : ℕ) (target : EntityType) (call : Call) (w : World) (e : B2bEntity)
    (k : Option Text)
    → find? (λ (e : B2bEntity). e.id == entity_id) w.entities ≡ some e
    → e.signing_key ≡ k
    → Submits w entity_id call (submit_entity_tx node entity_id target call w)
unfolding submit_entity_tx
with_key node entity_id target call w e none found key = rw (found, key, submit_entity_tx) refl
with_key node entity_id target call w e (some k) found key =
    rw (found, key, submit_entity_tx)
      (Sends-Submits w entity_id e call _ found (ground arith)
        ((==_iff e.id entity_id).0 (find?-holds _ w.entities e found))
        (send_signed-Sends node e k target call w))

-- The transaction of an entity is either sent once, by an entity that is active, registered
-- on-chain and has a key, or it fails and changes nothing.
pub submit_entity_tx-Submits :
    (node : Node) (entity_id : ℕ) (target : EntityType) (call : Call) (w : World)
    → Submits w entity_id call (submit_entity_tx node entity_id target call w)
unfolding submit_entity_tx
submit_entity_tx-Submits node entity_id target call w =
    elim (Option-cases (find? (λ (e : B2bEntity). e.id == entity_id) w.entities)) [
      | inl missing ↦ rw (missing, submit_entity_tx) refl
      | inr (e, found) ↦ with_key node entity_id target call w e e.signing_key found refl
    ]

-- What a service sees: the hash, or the answer 400 with nothing changed.
abbrev pub Answers : World → ℕ → Call → Result ℕ × World → Type 0
Answers w entity_id call (ok hash, w') = MayAct w entity_id × (w' ≡ submitted entity_id call hash w)
Answers w entity_id call (err e, w') = (w' ≡ w) × ((m : Text) × (e ≡ http 400 m))

caught-Answers :
    (w : World) (entity_id : ℕ) (call : Call) (x : Result ℕ × World)
    → Submits w entity_id call x
    → Answers w entity_id call (as_400 x)
unfolding as_400
caught-Answers w entity_id call (ok hash, w') s = s
caught-Answers w entity_id call (err e, w') s = (s, (_, refl))

pub submit_or_400-Answers :
    (node : Node) (entity_id : ℕ) (target : EntityType) (call : Call) (w : World)
    → Answers w entity_id call (submit_or_400 node entity_id target call w)
unfolding submit_or_400
submit_or_400-Answers node entity_id target call w =
    caught-Answers w entity_id call _ (submit_entity_tx-Submits node entity_id target call w)
