-- ===== src/Vehicles/Registration.antt =====
-- `handleVehicleReg` of backend/src/modules/indexer/indexer.service.ts, and all events of a vehicle.
use vehicle_lifecycle_manage.Base.{
  ℕ, suc, Option, none, some, List, [], ◌∷◌, ◌++◌, Bool, true, false, ◌==◌, ◌&&◌, is_some,
  if◌then◌else◌,
}
use vehicle_lifecycle_manage.Base.Lists.{any}
use vehicle_lifecycle_manage.Base.Text.{Text, to_lower}
use vehicle_lifecycle_manage.Domain.{VehicleStatus, RegistrationStatus, vehicle_register_rto}
use vehicle_lifecycle_manage.Domain.Failure.{ok, err}
use vehicle_lifecycle_manage.Store.Rows.{VehiclePassport, VehicleOwnership, RegistrationRequest}
use vehicle_lifecycle_manage.Store.Table.{find?, update_first}
use vehicle_lifecycle_manage.Store.World.{
  World, Action, modify, caught, unique_violation, foreign_key_violation, ◌>>◌,
}
use vehicle_lifecycle_manage.Indexer.Finalize.{finalize_tx, with_hash}
use vehicle_lifecycle_manage.Transfers.Events.{with_own_tid, user_with_wallet}
use vehicle_lifecycle_manage.Vehicles.Events.{
  with_dvp_id, entity_on_chain, entity_id_of, member_of, of_passport, sets_status, update_passport,
  handle_vehicle_mfg, handle_status_change, handle_vehicle_scrapped,
  handle_vehicle_assigned_to_dealer, handle_scrap_authorized,
}

-- `ownerUserId: user?.id`: undefined leaves the column as it is.
abbrev pub user_or : Option ℕ → Option ℕ → Option ℕ
user_or none old = old
user_or (some id) old = some id

abbrev pub reowned : Text → Option ℕ → VehicleOwnership → VehicleOwnership
reowned wallet user o = record o {
  owner_wallet = to_lower wallet;
  owner_user_id = user_or user o.owner_user_id;
}

-- `vehicleOwnership.upsert` by the token. A new row needs an RTO on record, and a passport that
-- has no other ownership.
unfoldable pub upsert_ownership : ℕ → ℕ → Option ℕ → Text → Option ℕ → Option ℕ → Action (Unit {0})
upsert_ownership own_tid passport rto wallet user member w =
    if is_some (find? (with_own_tid own_tid) w.ownerships)
    then (
      ok tt,
      record w {
        ownerships = update_first (with_own_tid own_tid) (reowned wallet user) w.ownerships;
      },
    )
    else elim rto [
      | none ↦ (err foreign_key_violation, w)
      | some office ↦
          if any (of_passport passport) w.ownerships then (err unique_violation, w) else (
            ok tt,
            record w {
              ownerships =
                  w.ownerships
                  ++ record {
                    id = w.next_id;
                    own_tid = some own_tid;
                    passport_id = passport;
                    rto_entity_id = office;
                    owner_wallet = to_lower wallet;
                    reg_date = w.now;
                    transfer_count = 0;
                    owner_user_id = user;
                    rto_member_id = member;
                    is_active = true;
                  }
                    ∷ [];
              next_id = suc w.next_id;
            },
          )
    ]

abbrev is_open_request : ℕ → ℕ → RegistrationRequest → Bool
is_open_request dvp office r = (r.dvp_id == dvp) && (r.rto_entity_id == office) && (elim r.status [
  | RegistrationStatus.pending ↦ true
  | RegistrationStatus.approved ↦ false
  | RegistrationStatus.rejected ↦ false
])

unfoldable pub approve_request : ℕ → Option ℕ → World → World
approve_request dvp none w = w
approve_request dvp (some office) w = record w {
  registrations =
      update_first (is_open_request dvp office)
        (λ r. record r { status = RegistrationStatus.approved }) w.registrations;
}

-- `if (passport)`
unfoldable pub record_registration :
    ℕ → Text → Option ℕ → ℕ → ℕ → Option VehiclePassport → Action (Unit {0})
unfolding upsert_ownership approve_request user_with_wallet
record_registration own_tid owner office dvp hash none w = (ok tt, w)
record_registration own_tid owner office dvp hash (some p) w =
    (upsert_ownership own_tid p.id office owner (user_with_wallet owner w)
          (member_of (find? (with_hash hash) w.transactions))
        >> modify (update_passport dvp (sets_status (some VehicleStatus.active)))
        >> modify (approve_request dvp office))
      w

unfoldable pub handle_vehicle_reg : ℕ → Text → ℕ → ℕ → ℕ → ℕ → World → World
unfolding record_registration entity_on_chain finalize_tx
handle_vehicle_reg own_tid owner rto_id dvp hash block w =
    caught
      (record_registration own_tid owner (entity_id_of (entity_on_chain rto_id w)) dvp hash
          (find? (with_dvp_id dvp) w.passports)
        >> modify (finalize_tx hash vehicle_register_rto block))
      w

-- The events of a vehicle, as the contracts emit them.
pub data VehicleEvent : Type 0 where
  mfg : (token vin mfg_id : ℕ) → VehicleEvent
  status_change : (token new_status : ℕ) → VehicleEvent
  scrap : (token scrap_id date : ℕ) → VehicleEvent
  assigned : (token : ℕ) (dealer : Text) → VehicleEvent
  authorized : (token scrap_id : ℕ) → VehicleEvent
  reg : (own_tid : ℕ) (owner : Text) (rto_id dvp : ℕ) → VehicleEvent

unfoldable pub index_vehicle_event : VehicleEvent → ℕ → ℕ → World → World
index_vehicle_event (mfg token vin mfg_id) hash block w =
    handle_vehicle_mfg token vin mfg_id hash block w
index_vehicle_event (status_change token new_status) hash block w =
    handle_status_change token new_status w
index_vehicle_event (scrap token scrap_id date) hash block w =
    handle_vehicle_scrapped token scrap_id date hash block w
index_vehicle_event (assigned token dealer) hash block w =
    handle_vehicle_assigned_to_dealer token dealer hash block w
index_vehicle_event (authorized token scrap_id) hash block w =
    handle_scrap_authorized token scrap_id w
index_vehicle_event (reg own_tid owner rto_id dvp) hash block w =
    handle_vehicle_reg own_tid owner rto_id dvp hash block w

-- A log: the event with the hash of its transaction and its block.
pub record VehicleLog : Type 0 where
  pub event : VehicleEvent
  pub hash : ℕ
  pub block : ℕ

abbrev pub index_vehicle_logs : List VehicleLog → World → World
index_vehicle_logs [] w = w
index_vehicle_logs (l ∷ ls) w = index_vehicle_logs ls (index_vehicle_event l.event l.hash l.block w)
