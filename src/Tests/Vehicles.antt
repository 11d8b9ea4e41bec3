-- ===== src/Tests/Vehicles.antt =====
-- The theorems on transfers and policies at a small world.
use vehicle_lifecycle_manage.Base.{◌≡◌, refl, none, some, List, [], ◌∷◌, true, false}
use vehicle_lifecycle_manage.Base.Int.{pos}
use vehicle_lifecycle_manage.Base.Text.{text}
use vehicle_lifecycle_manage.Domain.{
  rto, insurance, InsuranceStatus, VehicleStatus, TransferStatus, insurance_issue,
}
use vehicle_lifecycle_manage.Domain.Failure.{Failure, ok, err}
use vehicle_lifecycle_manage.Store.Rows.{
  User, B2bEntity, VehiclePassport, TransferRequest, InsurancePolicy,
}
use vehicle_lifecycle_manage.Store.Table.{find?}
use vehicle_lifecycle_manage.Store.World.{World}
use vehicle_lifecycle_manage.Chain.Tracking.Guarded.{Sends}
use vehicle_lifecycle_manage.Transfers.Events.{
  TransferLog, xfer_init, xfer_approved, xfer_done, index_all,
}
use vehicle_lifecycle_manage.Transfers.Approval.{approve_transfer}
use vehicle_lifecycle_manage.Transfers.Owner.{Owned, owner_after_all, index_all-Owned}
use vehicle_lifecycle_manage.Transfers.Unreachable.{approval_is_unreachable}
use vehicle_lifecycle_manage.Insurance.Events.{
  ended, issued_with, policy_of, handle_policy_issued, handle_policy_terminated,
}
use vehicle_lifecycle_manage.Insurance.Events.Revival.{terminated_policy_revives}
use vehicle_lifecycle_manage.Insurance.Policies.{
  policy_tx, with_policy_id, issue_policy, file_claim,
}
use vehicle_lifecycle_manage.Insurance.Policies.Laws.{MayClaim, file_claim-Sends}
use vehicle_lifecycle_manage.Insurance.Policies.Issue.{Issues, issue_policy-Issues}
use vehicle_lifecycle_manage.Vehicles.Events.{handle_vehicle_scrapped}
use vehicle_lifecycle_manage.Vehicles.Registration.{
  VehicleLog, mfg, status_change, scrap, authorized, reg, index_vehicle_logs,
}
use vehicle_lifecycle_manage.Vehicles.Ownerships.{HasNoOwner}
use vehicle_lifecycle_manage.Vehicles.Scrapping.{ownership_ends}
use vehicle_lifecycle_manage.Tests.Data.{node, station, ownership, world}

abbrev office : B2bEntity
office = record station { id = 51; kind = rto; on_chain_id = some 2 }

abbrev buyer : User
buyer = record {
  id = 10;
  wallet_address = text "0xcd";
  is_verified = true;
  rto_entity_id = some 51;
}

abbrev waiting : TransferRequest
waiting = record {
  id = 52;
  req_id = some 14;
  ownership_id = 2;
  own_tid = some 7;
  seller_wallet = text "0xab";
  buyer_wallet = text "0xcd";
  status = TransferStatus.pending;
  req_date = 44;
  completed_date = none;
  seller_ok = true;
  buyer_ok = true;
  rto_ok = false;
  seller_user_id = some 9;
  buyer_user_id = some 10;
  rto_approver_member_id = none;
}

abbrev selling : World
selling = record world { users = buyer ∷ []; entities = office ∷ []; transfers = waiting ∷ [] }

-- A transfer from its start to its end.
abbrev sold : List TransferLog
sold =
    record { event = xfer_init 15 7 (text "0xAB") (text "0xCD"); hash = 104; block = 60 }
    ∷ record { event = xfer_approved 15 1; hash = 105; block = 61 }
    ∷ record { event = xfer_done 15 7 (text "0xCD"); hash = 105; block = 61 }
    ∷ []

index_all-Owned_example :
    Owned 7 ownership (owner_after_all 7 sold (text "0xab")) (index_all sold selling)
index_all-Owned_example = index_all-Owned sold selling 7 ownership refl

approval_is_unreachable_example :
    (e : Failure) × (approve_transfer node 7 51 8
        (index_all sold (record selling { transfers = [] }))
      ≡ (err e, index_all sold (record selling { transfers = [] })))
approval_is_unreachable_example =
    approval_is_unreachable node sold (record selling { transfers = [] }) 7 51 8 refl

abbrev insurer : B2bEntity
insurer = record station { id = 61; kind = insurance; on_chain_id = some 3 }

abbrev insured : InsurancePolicy
insured = record {
  id = 62;
  pol_id = some 16;
  ownership_id = 2;
  own_tid = some 7;
  ins_entity_id = 61;
  coverage = 900;
  premium = 30;
  claim_count = pos 0;
  status = InsuranceStatus.active;
  issue_date = 20;
  expiry_date = 80;
  owner_wallet = text "0xab";
  owner_user_id = some 9;
  created_by_member_id = some 8;
}

abbrev covered : World
covered = record world { entities = insurer ∷ []; policies = insured ∷ [] }

issue_policy-Issues_example :
    Issues node 7 40 900 30 61 8
      (record covered { policies = [] })
      (issue_policy node 7 40 900 30 61 8 (record covered { policies = [] }))
issue_policy-Issues_example =
    issue_policy-Issues node 7 40 900 30 61 8 (record covered { policies = [] })

file_claim-Sends_example :
    Sends covered 61 (MayClaim covered 62 61 8) (file_claim node 62 61 8 covered)
file_claim-Sends_example = file_claim-Sends covered 62 61 8 node

abbrev car : VehiclePassport
car = record {
  id = 3;
  dvp_id = some 70;
  vin_hash = 77;
  status = VehicleStatus.active;
  mfg_entity_id = 71;
  mfg_date = 5;
  dealer_wallet = none;
  dealer_user_id = none;
  scrap_entity_id = none;
  scrap_date = none;
  authorized_scrap_center_id = some 72;
  created_by_member_id = none;
}

abbrev driven : World
driven = record world { passports = car ∷ [] }

-- The scrapping as the contract logs it, then a late authorization, the mint of another vehicle and
-- a registration that fails, since the vehicle has an ownership.
abbrev scrapping_logs : List VehicleLog
scrapping_logs =
    record { event = scrap 70 9 49; hash = 106; block = 61 }
    ∷ record { event = status_change 70 2; hash = 106; block = 61 }
    ∷ record { event = authorized 70 9; hash = 107; block = 62 }
    ∷ record { event = mfg 71 78 5; hash = 108; block = 63 }
    ∷ record { event = reg 8 (text "0xCD") 2 70; hash = 109; block = 64 }
    ∷ []

ownership_ends_example :
    HasNoOwner 3 (index_vehicle_logs scrapping_logs (handle_vehicle_scrapped 70 9 49 108 61 driven))
ownership_ends_example = ownership_ends 70 9 49 108 61 driven car scrapping_logs refl refl

abbrev unconfirmed : InsurancePolicy
unconfirmed = record insured { pol_id = none }

abbrev racing : World
racing = record covered {
  policies = unconfirmed ∷ [];
  transactions = policy_tx insurance_issue 61 8 62 109 63 ∷ [];
}

issues_it : policy_of (some (policy_tx insurance_issue 61 8 62 109 63)) ≡ some 62
unfolding policy_of
issues_it = refl

terminated_policy_revives_example :
    (find? (with_policy_id 62) (handle_policy_terminated 16 7 racing).policies
      ≡ some (ended 16 unconfirmed))
    × (find?
          (with_policy_id 62)
          (handle_policy_issued
            (λ n. ok 45)
            16
            7
            3
            80
            109
            64
            (handle_policy_terminated 16 7 racing)).policies
        ≡ some (issued_with 16 45 (some 9) unconfirmed))
terminated_policy_revives_example =
    terminated_policy_revives 16 7 racing unconfirmed refl refl refl (λ n. ok 45) 3 80 109 64 45
      insurer ownership (policy_tx insurance_issue 61 8 62 109 63) refl refl refl issues_it refl
