-- ===== src/Insurance/Reconcile.antt =====
-- The branches for policies of backend/src/jobs/reconciliation.worker.ts, on the policy of the
-- transaction. The arguments of the events of the receipt are given.
pub mod Laws
use vehicle_lifecycle_manage.Base.{ℕ, Option, none, some}
use vehicle_lifecycle_manage.Base.Int.{pos, pred}
use vehicle_lifecycle_manage.Domain.{
  InsuranceStatus, TxActionType, insurance_issue, insurance_expire, insurance_claim,
}
use vehicle_lifecycle_manage.Store.Rows.{InsurancePolicy, BlockchainTransaction}
use vehicle_lifecycle_manage.Store.Table.{remove}
use vehicle_lifecycle_manage.Store.World.{World, Action, pure, caught}
use vehicle_lifecycle_manage.Challan.Rows.{is_id}
use vehicle_lifecycle_manage.Insurance.Policies.{with_policy_id}
use vehicle_lifecycle_manage.Insurance.Events.{
  update_policy, update_policy_unique, set_policy_status,
}

-- Success: `issued` is the first argument of PolicyIssued, `claimed` the second of ClaimFiled.
unfoldable pub reconcile_policy : Option ℕ → Option ℕ → TxActionType → ℕ → Action (Unit {0})
unfolding update_policy_unique
reconcile_policy none claimed insurance_issue id = pure tt
reconcile_policy (some pol_id) claimed insurance_issue id =
    update_policy_unique id pol_id
      (λ p. record p { pol_id = some pol_id; status = InsuranceStatus.active })
reconcile_policy issued none insurance_claim id = pure tt
reconcile_policy issued (some claim_num) insurance_claim id =
    update_policy id (λ p. record p { claim_count = pos claim_num })
reconcile_policy issued claimed insurance_expire id =
    update_policy id (set_policy_status InsuranceStatus.expired)
reconcile_policy issued claimed _ id = pure tt

-- `insurancePolicy.delete`: its transactions go with it, by the foreign key
unfoldable pub delete_policy : ℕ → World → World
delete_policy id w = record w {
  policies = remove (with_policy_id id) w.policies;
  transactions = remove (λ (t : BlockchainTransaction). is_id id t.insurance_id) w.transactions;
}

-- The branches of `handleRevertedRollback`, each of which ignores a policy that is missing.
unfoldable pub rollback_policy : TxActionType → ℕ → World → World
unfolding delete_policy update_policy
rollback_policy insurance_issue id w = delete_policy id w
rollback_policy insurance_claim id w =
    caught (update_policy id (λ p. record p { claim_count = pred p.claim_count })) w
rollback_policy insurance_expire id w =
    caught (update_policy id (set_policy_status InsuranceStatus.active)) w
rollback_policy _ id w = w
