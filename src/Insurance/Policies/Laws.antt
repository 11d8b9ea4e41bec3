-- ===== src/Insurance/Policies/Laws.antt =====
-- What a claim and an expiry send and record.
use vehicle_lifecycle_manage.Base.{
  ℕ, zero, suc, ◌≡◌, ◌≤◌, ◌<◌, refl, Option, none, some, false, arith, Option-cases, Bool-cases,
  inl, inr, ◌==◌, ltb, leb,
}
use vehicle_lifecycle_manage.Domain.{insurance, InsuranceStatus, insurance_claim, insurance_expire}
use vehicle_lifecycle_manage.Store.Rows.{InsurancePolicy, BlockchainTransaction}
use vehicle_lifecycle_manage.Store.Table.{find?}
use vehicle_lifecycle_manage.Store.World.{Call, World}
use vehicle_lifecycle_manage.Chain.Manager.{Node}
use vehicle_lifecycle_manage.Chain.Tracking.Guarded.{Sends, Unchanged-Sends, submission-Sends}
use vehicle_lifecycle_manage.Insurance.Policies.{
  with_policy_id, is_expired_policy, at_limit, policy_tx, file_claim, mark_expired,
}

module _ (w : World) (policy_id ins_entity member : ℕ) where
  -- The policy of the company with this key, with its id on-chain.
  abbrev pub IsIssued : InsurancePolicy → ℕ → Type 0
  IsIssued p pol_id =
      (find? (with_policy_id policy_id) w.policies ≡ some p)
      × (p.ins_entity_id ≡ ins_entity)
      × (p.pol_id ≡ some pol_id)
      × (0 < pol_id)

  abbrev pub MayClaim : Call → (ℕ → ℕ → BlockchainTransaction) → Type 0
  MayClaim call row =
      (p : InsurancePolicy) × (pol_id : ℕ) × IsIssued p pol_id
      × (p.status ≡ InsuranceStatus.active)
      × (w.now ≤ p.expiry_date)
      × (at_limit p.claim_count ≡ false)
      × (call ≡ Call.file_claim pol_id)
      × (row ≡ policy_tx insurance_claim ins_entity member policy_id)

  abbrev pub MayExpire : Call → (ℕ → ℕ → BlockchainTransaction) → Type 0
  MayExpire call row =
      (p : InsurancePolicy) × (pol_id : ℕ) × IsIssued p pol_id
      × (is_expired_policy p.status ≡ false)
      × (p.expiry_date < w.now)
      × (call ≡ Call.mark_expired pol_id)
      × (row ≡ policy_tx insurance_expire ins_entity member policy_id)

  module _ (node : Node) where
    claim_found :
        (p : InsurancePolicy) (s : InsuranceStatus) (n : Option ℕ)
        → find? (with_policy_id policy_id) w.policies ≡ some p
        → p.status ≡ s
        → p.pol_id ≡ n
        → Sends w ins_entity MayClaim (file_claim node policy_id ins_entity member w)
    unfolding file_claim
    claim_found p InsuranceStatus.expired n found is_s is_n =
        Unchanged-Sends w ins_entity _ _ (ground arith)
    claim_found p InsuranceStatus.cancelled n found is_s is_n =
        Unchanged-Sends w ins_entity _ _ (ground arith)
    claim_found p InsuranceStatus.active none found is_s is_n =
        Unchanged-Sends w ins_entity _ _ (ground arith)
    claim_found p InsuranceStatus.active (some zero) found is_s is_n =
        Unchanged-Sends w ins_entity _ _ (ground arith)
    claim_found p InsuranceStatus.active (some (suc n)) found is_s is_n =
        elim (Bool-cases (p.ins_entity_id == ins_entity)) [
          | inr foreign ↦ Unchanged-Sends w ins_entity _ _ (ground arith)
          | inl own ↦ elim (Bool-cases (ltb p.expiry_date w.now)) [
            | inl late ↦ Unchanged-Sends w ins_entity _ _ (ground arith)
            | inr in_time ↦ elim (Bool-cases (at_limit p.claim_count)) [
              | inl full ↦ Unchanged-Sends w ins_entity _ _ (ground arith)
              | inr below ↦
                  submission-Sends w ins_entity MayClaim node insurance (Call.file_claim (suc n))
                    (policy_tx insurance_claim ins_entity member policy_id) _ (λ h i. refl)
                    (
                      p,
                      suc n,
                      (found, ground arith, is_n, omega arith),
                      is_s,
                      ground arith,
                      below,
                      refl,
                      refl,
                    )
                    (ground arith)
            ]
          ]
        ]

    -- `fileClaim` sends one `fileClaim` for a policy only if the company has issued it, it is
    -- active, not past its date, known on-chain, and below 50 claims; it adds one pending
    -- INSURANCE_CLAIM row and leaves the policy as it is. A failure has changed nothing but, at
    -- most, sent such a call under a hash that some row already has.
    pub file_claim-Sends :
        Sends w ins_entity MayClaim (file_claim node policy_id ins_entity member w)
    unfolding file_claim
    file_claim-Sends = elim (Option-cases (find? (with_policy_id policy_id) w.policies)) [
      | inl missing ↦ Unchanged-Sends w ins_entity _ _ (ground arith)
      | inr (p, found) ↦ claim_found p p.status p.pol_id found refl refl
    ]

    expiry_found :
        (p : InsurancePolicy) (n : Option ℕ)
        → find? (with_policy_id policy_id) w.policies ≡ some p
        → p.pol_id ≡ n
        → Sends w ins_entity MayExpire (mark_expired node policy_id ins_entity member w)
    unfolding mark_expired
    expiry_found p none found is_n = Unchanged-Sends w ins_entity _ _ (ground arith)
    expiry_found p (some zero) found is_n = Unchanged-Sends w ins_entity _ _ (ground arith)
    expiry_found p (some (suc n)) found is_n = elim (Bool-cases (p.ins_entity_id == ins_entity)) [
      | inr foreign ↦ Unchanged-Sends w ins_entity _ _ (ground arith)
      | inl own ↦ elim (Bool-cases (is_expired_policy p.status)) [
        | inl over ↦ Unchanged-Sends w ins_entity _ _ (ground arith)
        | inr open_still ↦ elim (Bool-cases (leb w.now p.expiry_date)) [
          | inl early ↦ Unchanged-Sends w ins_entity _ _ (ground arith)
          | inr late ↦
              submission-Sends w ins_entity MayExpire node insurance (Call.mark_expired (suc n))
                (policy_tx insurance_expire ins_entity member policy_id) _ (λ h i. refl)
                (
                  p,
                  suc n,
                  (found, ground arith, is_n, omega arith),
                  open_still,
                  ground arith,
                  refl,
                  refl,
                )
                (ground arith)
        ]
      ]
    ]

    -- `markExpired` sends one `markExpired` for a policy only if the company has issued it, it is
    -- not marked yet, past its date and known on-chain; it adds one pending INSURANCE_EXPIRE row
    -- and leaves the policy as it is. A failure has changed nothing but, at most, sent such a call
    -- under a hash that some row already has.
    pub mark_expired-Sends :
        Sends w ins_entity MayExpire (mark_expired node policy_id ins_entity member w)
    unfolding mark_expired
    mark_expired-Sends = elim (Option-cases (find? (with_policy_id policy_id) w.policies)) [
      | inl missing ↦ Unchanged-Sends w ins_entity _ _ (ground arith)
      | inr (p, found) ↦ expiry_found p p.pol_id found refl
    ]
