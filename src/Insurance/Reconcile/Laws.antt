-- ===== src/Insurance/Reconcile/Laws.antt =====
-- What the rollback of a claim does to the count of a policy.
use vehicle_lifecycle_manage.Base.{arith, ℕ, ◌≡◌, refl, subst, some, true}
use vehicle_lifecycle_manage.Base.Int.{pred}
use vehicle_lifecycle_manage.Domain.{insurance_claim}
use vehicle_lifecycle_manage.Domain.Failure.{ok}
use vehicle_lifecycle_manage.Store.Rows.{InsurancePolicy}
use vehicle_lifecycle_manage.Store.Table.{find?, find?-holds, find?-update_self}
use vehicle_lifecycle_manage.Store.World.{World}
use vehicle_lifecycle_manage.Chain.Manager.{Node}
use vehicle_lifecycle_manage.Chain.Tracking.Guarded.{Sends}
use vehicle_lifecycle_manage.Insurance.Policies.{with_policy_id, file_claim}
use vehicle_lifecycle_manage.Insurance.Policies.Laws.{MayClaim, file_claim-Sends}
use vehicle_lifecycle_manage.Insurance.Events.{update_policy}
use vehicle_lifecycle_manage.Insurance.Reconcile.{rollback_policy}

module _ (node : Node) (policy_id ins_entity member hash : ℕ) (w v : World) (p : InsurancePolicy)
    (found : find? (with_policy_id policy_id) w.policies ≡ some p)
    (filed : file_claim node policy_id ins_entity member w ≡ (ok hash, v)) where
  -- After `fileClaim` has succeeded, the rollback of its transaction takes one off the claims that
  -- the policy counts, which filing the claim had not added.
  pub reverted_claim_lowers_count :
      find? (with_policy_id policy_id) (rollback_policy insurance_claim policy_id v).policies
      ≡ some (record p { claim_count = pred p.claim_count })
  unfolding rollback_policy update_policy
  reverted_claim_lowers_count =
      let sent : Sends w ins_entity (MayClaim w policy_id ins_entity member) (ok hash, v) =
        subst (Sends w ins_entity (MayClaim w policy_id ins_entity member)) filed
          (file_claim-Sends w policy_id ins_entity member node) in
      let (_, _, _, _, _, after) = sent in
      let same : v.policies ≡ w.policies = rw after refl in
      let has : find? (with_policy_id policy_id) v.policies ≡ some p = rw same found in
      let named : with_policy_id policy_id p ≡ true =
        find?-holds (with_policy_id policy_id) w.policies p found in
      ground (
        arith,
        has,
        find?-update_self (with_policy_id policy_id)
            (λ q. record q { claim_count = pred q.claim_count }) v.policies p has named,
      )
