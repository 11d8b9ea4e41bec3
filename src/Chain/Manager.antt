-- ===== src/Chain/Manager.antt =====
-- `BlockchainManager.submitEntityTx` of backend/src/lib/blockchain.manager.ts. The messages of its
-- errors stand here without the ids that the source puts into them.
pub mod Laws
use vehicle_lifecycle_manage.Base.{
  ℕ, Option, none, some, List, [], ◌∷◌, ◌++◌, Bool, true, false, not, ◌==◌, is_none, if◌then◌else◌,
}
use vehicle_lifecycle_manage.Base.Text.{Text, text}
use vehicle_lifecycle_manage.Domain.{
  EntityType, government, rto, manufacturer, police, insurance, puc_center, scrap_center, bank,
}
use vehicle_lifecycle_manage.Domain.Failure.{Failure, http, other, Result, ok, err}
use vehicle_lifecycle_manage.Store.Rows.{B2bEntity}
use vehicle_lifecycle_manage.Store.Table.{find?}
use vehicle_lifecycle_manage.Store.World.{
  Call, Submission, World, Action, pure, throw, gets, or_throw, throw_if, modify, ◌>>=◌, ◌>>◌,
}
use vehicle_lifecycle_manage.Chain.Errors.{parse_error}

-- The cryptography and the node, which the code only calls.
pub record Node : Type 0 where
  -- `decryptAES256GCM(payload, type)`
  pub decrypt : Text → EntityType → Result Text
  -- `typeof contract[action] === 'function'`
  pub has_function : EntityType → Call → Bool
  -- `contract[action](...args)`: the hash of the transaction, which depends on what was sent before
  pub send : Text → Call → List Submission → Result ℕ

-- The entity types that `ContractMap` has a contract for.
unfoldable pub has_contract : EntityType → Bool
has_contract government = false
has_contract _ = true

lift : {A : Type 0} → Result A → Action A
lift r w = (r, w)

-- `throw createError(400, …)` in the `catch` of a submission
unfoldable pub as_400 : Result ℕ × World → Result ℕ × World
as_400 (ok hash, w) = (ok hash, w)
as_400 (err e, w) = (err (http 400 (text "Blockchain Error: " ++ parse_error e)), w)

module _ (node : Node) where
  unfoldable pub send_signed : B2bEntity → Text → EntityType → Call → Action ℕ
  unfolding lift has_contract
  send_signed entity encrypted target call = do
    throw_if (not entity.is_active) (other (text "Entity is inactive. Transaction blocked."))
    throw_if (is_none entity.on_chain_id)
        (other (text "Entity is not yet mined on-chain (onChainId is null)."))
    throw_if (not (has_contract target)) (other (text "Unsupported contract target"))
    key ← lift (node.decrypt encrypted entity.kind)
    throw_if (not (node.has_function target call))
        (other (text "Function does not exist on the target contract."))
    sent ← gets (λ w. w.mempool)
    hash ← lift (node.send key call sent)
    modify (λ w. record w {
      mempool = record { sender = entity.id; call = call; hash = hash } ∷ w.mempool;
    })
    pure hash

  unfoldable pub submit_entity_tx : ℕ → EntityType → Call → Action ℕ
  unfolding send_signed
  submit_entity_tx entity_id target call = do
    entities ← gets (λ w. w.entities)
    entity ←
        or_throw (find? (λ (e : B2bEntity). e.id == entity_id) entities)
          (other (text "Entity or its signing key not found. Cannot execute transaction."))
    encrypted ←
        or_throw entity.signing_key
          (other (text "Entity or its signing key not found. Cannot execute transaction."))
    send_signed entity encrypted target call

  -- The `try` and `catch` that every service puts around a submission.
  unfoldable pub submit_or_400 : ℕ → EntityType → Call → Action ℕ
  unfolding as_400
  submit_or_400 entity_id target call w = as_400 (submit_entity_tx entity_id target call w)
