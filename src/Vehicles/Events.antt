-- ===== src/Vehicles/Events.antt =====
-- `handleVehicleMfg`, `handleStatusChange`, `handleVehicleScrapped`,
-- `handleVehicleAssignedToDealer`, `handleScrapAuthorized` and `handleVehicleReg` of
-- backend/src/modules/indexer/indexer.service.ts, without the notifications.
use vehicle_lifecycle_manage.Base.{
  ℕ, suc, Option, none, some, [], ◌∷◌, ◌++◌, Bool, false, ◌==◌, ◌&&◌, not, is_some, ◌*◌,
  if◌then◌else◌,
}
use vehicle_lifecycle_manage.Base.Lists.{any}
use vehicle_lifecycle_manage.Base.Text.{Text, to_lower}
use vehicle_lifecycle_manage.Domain.{
  VehicleStatus, vehicle_mint, vehicle_scrap, vehicle_assign_dealer,
}
use vehicle_lifecycle_manage.Domain.Failure.{ok, err}
use vehicle_lifecycle_manage.Store.Rows.{
  B2bEntity, VehiclePassport, VehicleOwnership, BlockchainTransaction,
}
use vehicle_lifecycle_manage.Store.Table.{find?, update_first, update_all}
use vehicle_lifecycle_manage.Store.World.{World, Action, modify, caught, unique_violation, ◌>>◌}
use vehicle_lifecycle_manage.Challan.Rows.{is_id}
use vehicle_lifecycle_manage.Indexer.Finalize.{finalize_tx, with_hash}
use vehicle_lifecycle_manage.Transfers.Events.{user_with_wallet}

abbrev pub with_dvp_id : ℕ → VehiclePassport → Bool
with_dvp_id n p = is_id n p.dvp_id

abbrev pub with_vin : ℕ → VehiclePassport → Bool
with_vin vin p = p.vin_hash == vin

-- `b2BEntity.findFirst({ where: { onChainId } })`
unfoldable pub entity_on_chain : ℕ → World → Option B2bEntity
entity_on_chain n w = find? (λ (e : B2bEntity). is_id n e.on_chain_id) w.entities

abbrev pub entity_id_of : Option B2bEntity → Option ℕ
entity_id_of none = none
entity_id_of (some e) = some e.id

abbrev pub member_of : Option BlockchainTransaction → Option ℕ
member_of none = none
member_of (some tx) = tx.initiator_member_id

abbrev pub minted : ℕ → ℕ → ℕ → ℕ → Option ℕ → ℕ → VehiclePassport
minted token vin mfg now member id = record {
  id = id;
  dvp_id = some token;
  vin_hash = vin;
  status = VehicleStatus.not_reg;
  mfg_entity_id = mfg;
  mfg_date = now;
  dealer_wallet = none;
  dealer_user_id = none;
  scrap_entity_id = none;
  scrap_date = none;
  authorized_scrap_center_id = none;
  created_by_member_id = member;
}

-- Another passport has the token already.
abbrev pub takes_token : ℕ → ℕ → VehiclePassport → Bool
takes_token vin token p = is_id token p.dvp_id && not (p.vin_hash == vin)

abbrev pub sets_token : ℕ → VehiclePassport → VehiclePassport
sets_token token p = record p { dvp_id = some token }

-- `vehiclePassport.upsert` by the hash of the VIN
unfoldable pub upsert_passport : ℕ → ℕ → ℕ → Option ℕ → Action (Unit {0})
upsert_passport token vin mfg member w =
    if any (takes_token vin token) w.passports
    then (err unique_violation, w)
    else if is_some (find? (with_vin vin) w.passports)
    then (
      ok tt,
      record w { passports = update_first (with_vin vin) (sets_token token) w.passports },
    )
    else (
      ok tt,
      record w {
        passports = w.passports ++ minted token vin mfg w.now member w.next_id ∷ [];
        next_id = suc w.next_id;
      },
    )

unfoldable pub handle_vehicle_mfg : ℕ → ℕ → ℕ → ℕ → ℕ → World → World
unfolding entity_on_chain upsert_passport finalize_tx
handle_vehicle_mfg token vin mfg_id hash block w = elim (entity_on_chain mfg_id w) [
  | none ↦ w
  | some mfg ↦
      caught
        (do
          upsert_passport token vin mfg.id (member_of (find? (with_hash hash) w.transactions))
          modify (finalize_tx hash vehicle_mint block))
        w
]

-- `statusMap`: an unknown number is undefined, and leaves the column as it is.
abbrev pub status_of : ℕ → Option VehicleStatus
status_of n =
    if n == 0
    then some VehicleStatus.not_reg
    else if n == 1
    then some VehicleStatus.active
    else if n == 2
    then some VehicleStatus.scrapped
    else none

abbrev pub sets_status : Option VehicleStatus → VehiclePassport → VehiclePassport
sets_status none p = p
sets_status (some s) p = record p { status = s }

-- `vehiclePassport.update` of the passport with this token, where there is one
abbrev pub update_passport : ℕ → (VehiclePassport → VehiclePassport) → World → World
update_passport token f w = record w { passports = update_first (with_dvp_id token) f w.passports }

unfoldable pub handle_status_change : ℕ → ℕ → World → World
handle_status_change token new_status w =
    update_passport token (sets_status (status_of new_status)) w

-- An unknown scrap center leaves its column as it is.
abbrev pub scrapped_by : Option ℕ → Option ℕ → Option ℕ
scrapped_by none old = old
scrapped_by (some id) old = some id

abbrev pub scrapped_at : Option ℕ → ℕ → VehiclePassport → VehiclePassport
scrapped_at center date p = record p {
  status = VehicleStatus.scrapped;
  scrap_entity_id = scrapped_by center p.scrap_entity_id;
  scrap_date = some (date * 1000);
  authorized_scrap_center_id = none;
}

abbrev pub of_passport : ℕ → VehicleOwnership → Bool
of_passport id o = o.passport_id == id

abbrev pub deactivated : VehicleOwnership → VehicleOwnership
deactivated o = record o { is_active = false }

abbrev pub record_scrap : ℕ → Option ℕ → ℕ → VehiclePassport → World → World
record_scrap token center date p w = record w {
  passports = update_first (with_dvp_id token) (scrapped_at center date) w.passports;
  ownerships = update_all (of_passport p.id) deactivated w.ownerships;
}

unfoldable pub handle_vehicle_scrapped : ℕ → ℕ → ℕ → ℕ → ℕ → World → World
unfolding entity_on_chain finalize_tx
handle_vehicle_scrapped token scrap_id date hash block w =
    finalize_tx hash vehicle_scrap block (elim (find? (with_dvp_id token) w.passports) [
      | none ↦ w
      | some p ↦ record_scrap token (entity_id_of (entity_on_chain scrap_id w)) date p w
    ])

abbrev pub assigned_to : Text → Option ℕ → VehiclePassport → VehiclePassport
assigned_to dealer user p = record p {
  dealer_wallet = some (to_lower dealer);
  dealer_user_id = user;
}

unfoldable pub handle_vehicle_assigned_to_dealer : ℕ → Text → ℕ → ℕ → World → World
unfolding finalize_tx user_with_wallet
handle_vehicle_assigned_to_dealer token dealer hash block w =
    finalize_tx hash vehicle_assign_dealer block
      (update_passport token (assigned_to dealer (user_with_wallet dealer w)) w)

abbrev pub authorizes : Option ℕ → VehiclePassport → VehiclePassport
authorizes center p = record p { authorized_scrap_center_id = center }

unfoldable pub handle_scrap_authorized : ℕ → ℕ → World → World
unfolding entity_on_chain
handle_scrap_authorized token scrap_id w =
    update_passport token (authorizes (entity_id_of (entity_on_chain scrap_id w))) w
