-- ===== src/Insurance/Events.antt =====
-- `handlePolicyIssued`, `handlePolicyExpired`, `handleClaimFiled` and `handlePolicyTerminated` of
-- backend/src/modules/indexer/indexer.service.ts, without the notifications.
pub mod Revival
use vehicle_lifecycle_manage.Base.{
  ℕ, suc, Option, none, some, [], ◌∷◌, ◌++◌, Bool, ◌==◌, ◌*◌, ◌&&◌, not, is_some, if◌then◌else◌,
}
use vehicle_lifecycle_manage.Base.Int.{pos}
use vehicle_lifecycle_manage.Base.Lists.{any}
use vehicle_lifecycle_manage.Domain.{
  InsuranceStatus, insurance_issue, insurance_expire, insurance_claim,
}
use vehicle_lifecycle_manage.Domain.Failure.{Result, ok, err}
use vehicle_lifecycle_manage.Store.Rows.{
  B2bEntity, VehicleOwnership, InsurancePolicy, BlockchainTransaction,
}
use vehicle_lifecycle_manage.Store.Table.{find?, update_first}
use vehicle_lifecycle_manage.Store.World.{
  World, Action, gets, modify, caught, record_not_found, unique_violation, ◌>>=◌, ◌>>◌,
}
use vehicle_lifecycle_manage.Challan.Rows.{is_id}
use vehicle_lifecycle_manage.Indexer.Finalize.{finalize_tx, with_hash}
use vehicle_lifecycle_manage.Transfers.Events.{with_own_tid}
use vehicle_lifecycle_manage.Insurance.Policies.{with_policy_id, is_active_policy}

abbrev pub with_pol_id : ℕ → InsurancePolicy → Bool
with_pol_id n p = is_id n p.pol_id

-- another policy has the id on-chain
abbrev pub takes_pol_id : ℕ → ℕ → InsurancePolicy → Bool
takes_pol_id id n p = not (p.id == id) && is_id n p.pol_id

-- `insurancePolicy.update` by the key
unfoldable pub update_policy : ℕ → (InsurancePolicy → InsurancePolicy) → Action (Unit {0})
update_policy id f w =
    if is_some (find? (with_policy_id id) w.policies)
    then (ok tt, record w { policies = update_first (with_policy_id id) f w.policies })
    else (err record_not_found, w)

-- The same where the id on-chain is written.
unfoldable pub update_policy_unique :
    ℕ → ℕ → (InsurancePolicy → InsurancePolicy) → Action (Unit {0})
unfolding update_policy
update_policy_unique id pol_id f w =
    if is_some (find? (with_policy_id id) w.policies) && any (takes_pol_id id pol_id) w.policies
    then (err unique_violation, w)
    else update_policy id f w

-- `tx?.insuranceId && tx.actionType === INSURANCE_ISSUE`
unfoldable pub policy_of : Option BlockchainTransaction → Option ℕ
policy_of none = none
policy_of (some tx) = elim tx.action_type [ insurance_issue ↦ tx.insurance_id | _ ↦ none ]

abbrev pub initiator_of : Option BlockchainTransaction → Option ℕ
initiator_of none = none
initiator_of (some tx) = tx.initiator_member_id

abbrev pub issued_with : ℕ → ℕ → Option ℕ → InsurancePolicy → InsurancePolicy
issued_with pol_id date user p = record p {
  pol_id = some pol_id;
  status = InsuranceStatus.active;
  owner_user_id = user;
  issue_date = date;
}

abbrev pub set_policy_status : InsuranceStatus → InsurancePolicy → InsurancePolicy
set_policy_status s p = record p { status = s }

-- the policy that the `upsert` creates
abbrev pub observed_policy :
    ℕ → VehicleOwnership → B2bEntity → ℕ → ℕ → Option ℕ → ℕ → InsurancePolicy
observed_policy pol_id ownership company expiry date member id = record {
  id = id;
  pol_id = some pol_id;
  ownership_id = ownership.id;
  own_tid = none;
  ins_entity_id = company.id;
  coverage = 0;
  premium = 0;
  claim_count = pos 0;
  status = InsuranceStatus.active;
  issue_date = date;
  expiry_date = expiry * 1000;
  owner_wallet = ownership.owner_wallet;
  owner_user_id = ownership.owner_user_id;
  created_by_member_id = member;
}

unfoldable pub upsert_policy :
    ℕ → VehicleOwnership → B2bEntity → ℕ → ℕ → Option ℕ → Action (Unit {0})
upsert_policy pol_id ownership company expiry date member w =
    if is_some (find? (with_pol_id pol_id) w.policies)
    then (
      ok tt,
      record w {
        policies =
            update_first (with_pol_id pol_id) (set_policy_status InsuranceStatus.active) w.policies;
      },
    )
    else (
      ok tt,
      record w {
        policies =
            w.policies
            ++ observed_policy pol_id ownership company expiry date member w.next_id ∷ [];
        next_id = suc w.next_id;
      },
    )

-- The policy of the transaction, or one that is found or created by the id on-chain.
unfoldable pub write_issued :
    ℕ
    → ℕ
    → ℕ
    → Option BlockchainTransaction
    → Option ℕ
    → VehicleOwnership
    → B2bEntity
    → Action (Unit {0})
unfolding upsert_policy update_policy_unique
write_issued pol_id expiry date tx (some id) ownership company =
    update_policy_unique id pol_id (issued_with pol_id date ownership.owner_user_id)
write_issued pol_id expiry date tx none ownership company =
    upsert_policy pol_id ownership company expiry date (initiator_of tx)

-- `if (ownership && compEntity)`: the block is read only then
unfoldable pub record_policy :
    (ℕ → Result ℕ)
    → ℕ
    → ℕ
    → ℕ
    → Option BlockchainTransaction
    → Option VehicleOwnership
    → Option B2bEntity
    → Action (Unit {0})
unfolding write_issued policy_of
record_policy get_block pol_id expiry block tx none _ w = (ok tt, w)
record_policy get_block pol_id expiry block tx (some _) none w = (ok tt, w)
record_policy get_block pol_id expiry block tx (some ownership) (some company) w =
    elim (get_block block) [
      | err e ↦ (err e, w)
      | ok date ↦ write_issued pol_id expiry date tx (policy_of tx) ownership company w
    ]

unfoldable pub handle_policy_issued : (ℕ → Result ℕ) → ℕ → ℕ → ℕ → ℕ → ℕ → ℕ → World → World
unfolding record_policy finalize_tx
handle_policy_issued get_block pol_id own_tid comp_id expiry hash block = caught do
  company ← gets (λ w. find? (λ (e : B2bEntity). is_id comp_id e.on_chain_id) w.entities)
  ownership ← gets (λ w. find? (with_own_tid own_tid) w.ownerships)
  tx ← gets (λ w. find? (with_hash hash) w.transactions)
  record_policy get_block pol_id expiry block tx ownership company
  modify (finalize_tx hash insurance_issue block)

unfoldable pub handle_policy_expired : ℕ → ℕ → ℕ → World → World
unfolding finalize_tx
handle_policy_expired pol_id hash block w = finalize_tx hash insurance_expire block (record w {
  policies =
      update_first (with_pol_id pol_id) (set_policy_status InsuranceStatus.expired) w.policies;
})

-- The event says how many claims there are now.
unfoldable pub handle_claim_filed : ℕ → ℕ → ℕ → ℕ → World → World
unfolding finalize_tx
handle_claim_filed pol_id claim_num hash block w =
    finalize_tx hash insurance_claim block (record w {
      policies =
          update_first (with_pol_id pol_id) (λ p. record p { claim_count = pos claim_num })
            w.policies;
    })

-- `ownTid` and ACTIVE
abbrev pub is_active_on : ℕ → InsurancePolicy → Bool
is_active_on own_tid p = is_id own_tid p.own_tid && is_active_policy p.status

-- the policy with the id on-chain, or else the active one of the vehicle
unfoldable pub policy_to_end : ℕ → ℕ → World → Option InsurancePolicy
policy_to_end pol_id own_tid w = elim (find? (with_pol_id pol_id) w.policies) [
  | some p ↦ some p
  | none ↦ find? (is_active_on own_tid) w.policies
]

abbrev pub ended : ℕ → InsurancePolicy → InsurancePolicy
ended pol_id p = record p { pol_id = some pol_id; status = InsuranceStatus.cancelled }

unfoldable pub handle_policy_terminated : ℕ → ℕ → World → World
unfolding policy_to_end update_policy_unique
handle_policy_terminated pol_id own_tid w = elim (policy_to_end pol_id own_tid w) [
  | none ↦ w
  | some p ↦ caught (update_policy_unique p.id pol_id (ended pol_id)) w
]
