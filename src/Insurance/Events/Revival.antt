-- ===== src/Insurance/Events/Revival.antt =====
-- The events of the end and of the issue of a policy, in this order.
use vehicle_lifecycle_manage.Base.{ℕ, ◌≡◌, refl, none, some, List, [], ◌∷◌, false, arith}
use vehicle_lifecycle_manage.Base.Lists.{any}
use vehicle_lifecycle_manage.Domain.{TxActionType, insurance_issue}
use vehicle_lifecycle_manage.Domain.Failure.{Result, ok}
use vehicle_lifecycle_manage.Store.Rows.{
  B2bEntity, VehicleOwnership, InsurancePolicy, BlockchainTransaction,
}
use vehicle_lifecycle_manage.Store.Table.{find?, update_first, find?-holds, find?-update_self}
use vehicle_lifecycle_manage.Store.World.{World}
use vehicle_lifecycle_manage.Challan.Rows.{is_id}
use vehicle_lifecycle_manage.Indexer.Finalize.{finalize_tx, with_hash}
use vehicle_lifecycle_manage.Transfers.Events.{with_own_tid}
use vehicle_lifecycle_manage.Insurance.Policies.{with_policy_id}
use vehicle_lifecycle_manage.Insurance.Events.{
  with_pol_id, takes_pol_id, is_active_on, ended, issued_with, policy_of, update_policy,
  update_policy_unique, policy_to_end, record_policy, write_issued, handle_policy_issued,
  handle_policy_terminated,
}

module _ (n id : ℕ) where
  untaken :
      (ps : List InsurancePolicy)
      → find? (with_pol_id n) ps ≡ none
      → any (takes_pol_id id n) ps ≡ false
  untaken [] h = refl
  untaken (p ∷ ps) h = ground (arith, untaken ps)

  untaken_after :
      (ps : List InsurancePolicy)
      → find? (with_pol_id n) ps ≡ none
      → any (takes_pol_id id n) (update_first (with_policy_id id) (ended n) ps) ≡ false
  untaken_after [] h = refl
  untaken_after (p ∷ ps) h = ground (arith, untaken_after ps, untaken ps)

module _ (n own_tid : ℕ) (w : World) (p : InsurancePolicy)
    (row : find? (with_policy_id p.id) w.policies ≡ some p)
    (unknown : find? (with_pol_id n) w.policies ≡ none)
    (active : find? (is_active_on own_tid) w.policies ≡ some p) where
  abbrev after_end : World
  after_end = record w { policies = update_first (with_policy_id p.id) (ended n) w.policies }

  ends : handle_policy_terminated n own_tid w ≡ after_end
  unfolding handle_policy_terminated policy_to_end update_policy_unique update_policy
  ends = ground (arith, row, unknown, active, untaken n p.id w.policies unknown)

  ended_row : find? (with_policy_id p.id) after_end.policies ≡ some (ended n p)
  ended_row =
      find?-update_self (with_policy_id p.id) (ended n) w.policies p row
        (find?-holds (with_policy_id p.id) w.policies p row)

  finalize-policies :
      (hash : ℕ) (action : TxActionType) (block : ℕ) (u : World)
      → (finalize_tx hash action block u).policies ≡ u.policies
  unfolding finalize_tx
  finalize-policies hash action block u = ground arith

  module _ (get_block : ℕ → Result ℕ) (comp_id expiry hash block date : ℕ) (e : B2bEntity)
      (o : VehicleOwnership) (tx : BlockchainTransaction)
      (company : find? (λ (e : B2bEntity). is_id comp_id e.on_chain_id) w.entities ≡ some e)
      (held : find? (with_own_tid own_tid) w.ownerships ≡ some o)
      (sent : find? (with_hash hash) w.transactions ≡ some tx)
      (its : policy_of (some tx) ≡ some p.id) (dated : get_block block ≡ ok date) where
    abbrev revived : World
    revived = record after_end {
      policies =
          update_first (with_policy_id p.id) (issued_with n date o.owner_user_id)
            after_end.policies;
    }

    recorded :
        (record_policy get_block n expiry block (some tx) (some o) (some e) after_end)
        ≡ (ok tt, revived)
    unfolding record_policy write_issued update_policy_unique update_policy
    recorded = ground (arith, its, dated, ended_row, untaken_after n p.id w.policies unknown)

    indexed :
        handle_policy_issued get_block n own_tid comp_id expiry hash block after_end
        ≡ finalize_tx hash insurance_issue block revived
    unfolding handle_policy_issued
    indexed = ground (arith, company, held, sent, recorded)

    -- Where the end of a policy is indexed before its issue (the policy that the backend has created
    -- for the vehicle is active and does not have its id on-chain yet): the end cancels the policy,
    -- and the issue, when it is indexed afterwards, makes it active again.
    pub terminated_policy_revives :
        (find? (with_policy_id p.id) (handle_policy_terminated n own_tid w).policies
          ≡ some (ended n p))
        × (find?
              (with_policy_id p.id)
              (handle_policy_issued get_block n own_tid comp_id expiry hash block
                (handle_policy_terminated n own_tid w)).policies
            ≡ some (issued_with n date o.owner_user_id p))
    terminated_policy_revives = (
      rw ends ended_row,
      rw (ends, indexed, finalize-policies hash insurance_issue block revived)
          (find?-update_self (with_policy_id p.id) (issued_with n date o.owner_user_id)
            after_end.policies (ended n p) ended_row
            (find?-holds (with_policy_id p.id) w.policies p row)),
    )
