-- ===== src/Insurance/Policies/Issue.antt =====
-- `issuePolicy` on every branch.
use vehicle_lifecycle_manage.Base.{
  ℕ, ◌≡◌, ◌≤◌, ◌<◌, ◌⊎◌, ◌+◌, ◌/◌, refl, sym, subst, none, some, true, arith, Option-cases,
  Bool-cases, inl, inr, ltb, leb,
}
use vehicle_lifecycle_manage.Domain.{insurance, insurance_issue}
use vehicle_lifecycle_manage.Domain.Failure.{Result}
use vehicle_lifecycle_manage.Store.Rows.{VehicleOwnership}
use vehicle_lifecycle_manage.Store.Table.{find?}
use vehicle_lifecycle_manage.Store.World.{Call, World}
use vehicle_lifecycle_manage.Chain.Manager.{Node}
use vehicle_lifecycle_manage.Chain.Tracking.Guarded.{Unchanged}
use vehicle_lifecycle_manage.Chain.Tracking.Created.{
  submit_and_create, Creates, submit_and_create-Creates,
}
use vehicle_lifecycle_manage.Transfers.Events.{with_own_tid}
use vehicle_lifecycle_manage.Insurance.Policies.{
  max_policy_duration, covers, with_policy, policy_tx, issue_policy,
}

module _ (node : Node) (own_tid expiry coverage premium ins_entity member : ℕ) (w : World) where
  -- The vehicle may be insured until that date.
  pub record IsInsurable (o : VehicleOwnership) : Type 0 where
    pub held : find? (with_own_tid own_tid) w.ownerships ≡ some o
    pub active : o.is_active ≡ true
    pub later : w.now / 1000 < expiry
    pub near : expiry ≤ w.now / 1000 + max_policy_duration
    pub uncovered : find? (covers w.now own_tid) w.policies ≡ none

  abbrev pub Insures : VehicleOwnership → Result (ℕ × ℕ) × World → Type 0
  Insures o =
      Creates w ins_entity (Call.issue_policy own_tid expiry coverage premium)
        (with_policy o own_tid ins_entity coverage premium expiry member)
        (policy_tx insurance_issue ins_entity member)

  -- A guard refuses and nothing changes, or the vehicle may be insured and the policy is tracked.
  abbrev pub Issues : Result (ℕ × ℕ) × World → Type 0
  Issues x = Unchanged w x ⊎ ((o : VehicleOwnership) × IsInsurable o × Insures o x)

  issued :
      (o : VehicleOwnership)
      → IsInsurable o
      → issue_policy node own_tid expiry coverage premium ins_entity member w
        ≡ submit_and_create node ins_entity insurance
            (Call.issue_policy own_tid expiry coverage premium)
            (with_policy o own_tid ins_entity coverage premium expiry member)
            (policy_tx insurance_issue ins_entity member)
            w
      → Issues (issue_policy node own_tid expiry coverage premium ins_entity member w)
  issued o insurable same = inr (
    o,
    insurable,
    subst (Insures o) (sym same) (
        submit_and_create-Creates w ins_entity (Call.issue_policy own_tid expiry coverage premium)
          (with_policy o own_tid ins_entity coverage premium expiry member)
          (policy_tx insurance_issue ins_entity member) (λ id hash i. refl) (λ u. refl) (λ u. refl)
          node insurance),
  )

  issue_held :
      (o : VehicleOwnership)
      → find? (with_own_tid own_tid) w.ownerships ≡ some o
      → Issues (issue_policy node own_tid expiry coverage premium ins_entity member w)
  unfolding issue_policy
  issue_held o held = elim (Bool-cases o.is_active) [
    | inr inactive ↦ inl (ground arith)
    | inl active ↦ elim (Bool-cases (leb expiry (w.now / 1000))) [
      | inl past ↦ inl (ground arith)
      | inr later ↦ elim (Bool-cases (ltb (w.now / 1000 + max_policy_duration) expiry)) [
        | inl far ↦ inl (ground arith)
        | inr near ↦ elim (Option-cases (find? (covers w.now own_tid) w.policies)) [
          | inr (p, covered) ↦ inl (ground arith)
          | inl uncovered ↦
              issued o
                (record {
                  held = held;
                  active = active;
                  later = ground arith;
                  near = ground arith;
                  uncovered = uncovered;
                })
                (ground arith)
        ]
      ]
    ]
  ]

  -- `issuePolicy` is refused, and then nothing has changed, unless the vehicle is on record and
  -- active, the expiry date lies ahead by three years at most, and no active policy of the vehicle
  -- is still in its term. Then it sends one `issuePolicy` as a company that may act and adds one
  -- policy without an id on-chain and one pending INSURANCE_ISSUE row that refers to it, under a
  -- fresh hash, and returns both; or it fails, and then nothing has changed but, at most, a call was
  -- sent under a hash that some row already has.
  pub issue_policy-Issues :
      Issues (issue_policy node own_tid expiry coverage premium ins_entity member w)
  unfolding issue_policy
  issue_policy-Issues = elim (Option-cases (find? (with_own_tid own_tid) w.ownerships)) [
    | inl missing ↦ inl (ground arith)
    | inr (o, held) ↦ issue_held o held
  ]
