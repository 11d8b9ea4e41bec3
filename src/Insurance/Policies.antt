-- ===== src/Insurance/Policies.antt =====
-- The handlers that write of backend/src/modules/insurance/insurance.service.ts. The clock is in
-- milliseconds, as `Date.now()`; the dates of a request are in seconds.
pub mod Laws
pub mod Issue
use vehicle_lifecycle_manage.Base.{
  ℕ, suc, ◌+◌, ◌*◌, ◌/◌, Option, none, some, List, [], ◌∷◌, ◌++◌, Bool, true, false, ◌==◌, ◌&&◌,
  not, ltb, leb, is_some,
}
use vehicle_lifecycle_manage.Base.Int.{ℤ, pos, negsuc}
use vehicle_lifecycle_manage.Base.Text.{text}
use vehicle_lifecycle_manage.Domain.{
  insurance, InsuranceStatus, SyncStatus, TxSource, TxActionType, insurance_issue, insurance_expire,
  insurance_claim,
}
use vehicle_lifecycle_manage.Domain.Failure.{http}
use vehicle_lifecycle_manage.Store.Rows.{VehicleOwnership, InsurancePolicy, BlockchainTransaction}
use vehicle_lifecycle_manage.Store.Table.{find?}
use vehicle_lifecycle_manage.Store.World.{
  Call, World, Action, gets, or_throw, throw_if, ◌>>=◌, ◌>>◌,
}
use vehicle_lifecycle_manage.Chain.Manager.{Node}
use vehicle_lifecycle_manage.Chain.Tracking.{submit_and_track}
use vehicle_lifecycle_manage.Chain.Tracking.Created.{submit_and_create}
use vehicle_lifecycle_manage.Challan.Rows.{is_id}
use vehicle_lifecycle_manage.Challan.Police.{truthy_number}
use vehicle_lifecycle_manage.Transfers.Events.{with_own_tid}

-- in seconds
abbrev pub max_policy_duration : ℕ
max_policy_duration = 3 * 365 * 24 * 60 * 60

abbrev pub max_claims : ℕ
max_claims = 50

abbrev pub is_active_policy : InsuranceStatus → Bool
is_active_policy InsuranceStatus.active = true
is_active_policy InsuranceStatus.expired = false
is_active_policy InsuranceStatus.cancelled = false

abbrev pub is_expired_policy : InsuranceStatus → Bool
is_expired_policy InsuranceStatus.active = false
is_expired_policy InsuranceStatus.expired = true
is_expired_policy InsuranceStatus.cancelled = false

abbrev pub with_policy_id : ℕ → InsurancePolicy → Bool
with_policy_id n p = p.id == n

-- `findActivePolicyByOwnTid`
abbrev pub covers : ℕ → ℕ → InsurancePolicy → Bool
covers now own_tid p = is_id own_tid p.own_tid && is_active_policy p.status && leb now p.expiry_date

-- `claimCount >= MAX_CLAIMS`
abbrev pub at_limit : ℤ → Bool
at_limit (pos n) = leb max_claims n
at_limit (negsuc n) = false

-- a pending `BlockchainTransaction` of the given action on a policy
abbrev pub policy_tx : TxActionType → ℕ → ℕ → ℕ → ℕ → ℕ → BlockchainTransaction
policy_tx action ins_entity member policy hash id = record {
  id = id;
  tx_hash = hash;
  action_type = action;
  status = SyncStatus.pending;
  block_number = none;
  b2b_entity_id = some ins_entity;
  challan_id = none;
  loan_id = none;
  ownership_id = none;
  transfer_req_id = none;
  insurance_id = some policy;
  initiator_member_id = some member;
  initiator_user_id = none;
  tx_source = TxSource.member;
}

-- the policy of `createPendingPolicyTx`
abbrev pub pending_policy : VehicleOwnership → ℕ → ℕ → ℕ → ℕ → ℕ → ℕ → ℕ → ℕ → InsurancePolicy
pending_policy ownership own_tid ins_entity coverage premium expiry member now id = record {
  id = id;
  pol_id = none;
  ownership_id = ownership.id;
  own_tid = some own_tid;
  ins_entity_id = ins_entity;
  coverage = coverage;
  premium = premium;
  claim_count = pos 0;
  status = InsuranceStatus.active;
  issue_date = now;
  expiry_date = expiry * 1000;
  owner_wallet = ownership.owner_wallet;
  owner_user_id = none;
  created_by_member_id = some member;
}

abbrev pub with_policy : VehicleOwnership → ℕ → ℕ → ℕ → ℕ → ℕ → ℕ → World → World
with_policy ownership own_tid ins_entity coverage premium expiry member w = record w {
  policies =
      w.policies
      ++ pending_policy ownership own_tid ins_entity coverage premium expiry member w.now w.next_id
        ∷ [];
  next_id = suc w.next_id;
}

module _ (node : Node) where
  -- The id of the new policy and the hash.
  unfoldable pub issue_policy : ℕ → ℕ → ℕ → ℕ → ℕ → ℕ → Action (ℕ × ℕ)
  issue_policy own_tid expiry coverage premium ins_entity member = do
    held ← gets (λ w. find? (with_own_tid own_tid) w.ownerships)
    ownership ←
        or_throw held (http 404 (text "Vehicle ownership record not found for the given ownTid."))
    throw_if (not ownership.is_active) (http 400 (text "Vehicle ownership is not active."))
    now ← gets (λ w. w.now)
    throw_if (leb expiry (now / 1000))
        (http 400 (text "Expiry date must be in the future (ExpiryInPast)."))
    throw_if (ltb (now / 1000 + max_policy_duration) expiry)
        (http 400 (text "Expiry date exceeds maximum policy duration of 3 years (ExpiryTooFar)."))
    existing ← gets (λ w. find? (covers now own_tid) w.policies)
    throw_if (is_some existing)
        (http 409 (text "Vehicle already has a valid active policy (PolicyExists)."))
    submit_and_create node ins_entity insurance (Call.issue_policy own_tid expiry coverage premium)
        (with_policy ownership own_tid ins_entity coverage premium expiry member)
        (policy_tx insurance_issue ins_entity member)

  unfoldable pub mark_expired : ℕ → ℕ → ℕ → Action ℕ
  mark_expired policy_id ins_entity member = do
    found ← gets (λ w. find? (with_policy_id policy_id) w.policies)
    policy ← or_throw found (http 404 (text "Policy not found."))
    throw_if (not (policy.ins_entity_id == ins_entity))
        (http 403 (text "Unauthorized: Your entity did not issue this policy."))
    throw_if (is_expired_policy policy.status)
        (http 400 (text "Policy is already marked as expired."))
    now ← gets (λ w. w.now)
    throw_if (leb now policy.expiry_date)
        (http 400 (text "Policy has not expired yet (NotExpired)."))
    pol_id ←
        or_throw (truthy_number policy.pol_id) (http 400 (text "Policy is still pending on-chain."))
    submit_and_track node ins_entity insurance (Call.mark_expired pol_id)
        (policy_tx insurance_expire ins_entity member policy_id)

  unfoldable pub file_claim : ℕ → ℕ → ℕ → Action ℕ
  file_claim policy_id ins_entity member = do
    found ← gets (λ w. find? (with_policy_id policy_id) w.policies)
    policy ← or_throw found (http 404 (text "Policy not found."))
    throw_if (not (policy.ins_entity_id == ins_entity))
        (http 403 (text "Unauthorized: Only the issuing company can file claims."))
    throw_if (not (is_active_policy policy.status))
        (http 400 (text "Policy is not active (PolicyNotActive)."))
    now ← gets (λ w. w.now)
    throw_if (ltb policy.expiry_date now) (http 400 (text "Policy has expired (PolicyNotActive)."))
    throw_if (at_limit policy.claim_count)
        (http 400 (text "Claim limit reached. Max claims allowed: 50 (ClaimLimitReached)."))
    pol_id ←
        or_throw (truthy_number policy.pol_id) (http 400 (text "Policy is still pending on-chain."))
    submit_and_track node ins_entity insurance (Call.file_claim pol_id)
        (policy_tx insurance_claim ins_entity member policy_id)
