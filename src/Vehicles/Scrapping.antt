-- ===== src/Vehicles/Scrapping.antt =====
-- The ownerships of a vehicle end with its scrapping.
use vehicle_lifecycle_manage.Base.{
  ℕ, ◌≡◌, sym, subst, Option, none, some, List, [], ◌∷◌, arith, Option-cases, inl, inr, true,
}
use vehicle_lifecycle_manage.Base.Lists.{any}
use vehicle_lifecycle_manage.Base.Text.{Text}
use vehicle_lifecycle_manage.Domain.{
  VehicleStatus, vehicle_mint, vehicle_scrap, vehicle_register_rto, vehicle_assign_dealer,
}
use vehicle_lifecycle_manage.Store.Rows.{VehiclePassport}
use vehicle_lifecycle_manage.Store.Table.{find?}
use vehicle_lifecycle_manage.Store.World.{World, modify, ◌>>◌}
use vehicle_lifecycle_manage.Store.Keeps.{Keeps, bind-Keeps}
use vehicle_lifecycle_manage.Indexer.Finalize.{finalize_tx, with_hash}
use vehicle_lifecycle_manage.Transfers.Events.{user_with_wallet}
use vehicle_lifecycle_manage.Vehicles.Events.{
  with_dvp_id, update_passport, sets_status, record_scrap, assigned_to, entity_on_chain,
  entity_id_of, upsert_passport, member_of, handle_vehicle_mfg, handle_status_change,
  handle_vehicle_scrapped, handle_vehicle_assigned_to_dealer, handle_scrap_authorized,
}
use vehicle_lifecycle_manage.Vehicles.Registration.{
  VehicleEvent, VehicleLog, mfg, status_change, scrap, assigned, authorized, reg,
  index_vehicle_event, index_vehicle_logs, handle_vehicle_reg, record_registration,
  upsert_ownership, approve_request,
}
use vehicle_lifecycle_manage.Store.Rows.{VehicleOwnership}
use vehicle_lifecycle_manage.Store.Table.{update_all}
use vehicle_lifecycle_manage.Vehicles.Events.{of_passport, deactivated}
use vehicle_lifecycle_manage.Vehicles.Ownerships.{
  HasNoOwner, all-inactive, HasEnded, deactivated-HasEnded, Ended, upsert-Ended, finalize-Ended,
}

module _ (id : ℕ) where
  mfg-Ended :
      (token v mfg_id hash block : ℕ) (w : World)
      → Ended id w
      → Ended id (handle_vehicle_mfg token v mfg_id hash block w)
  unfolding handle_vehicle_mfg upsert_passport
  mfg-Ended token v mfg_id hash block w k = elim (Option-cases (entity_on_chain mfg_id w)) [
    | inl missing ↦ rw (handle_vehicle_mfg, missing) k
    | inr (e, found) ↦
        rw (handle_vehicle_mfg, found)
          (bind-Keeps (Ended id)
            (upsert_passport token v e.id (member_of (find? (with_hash hash) w.transactions)))
            (λ _. modify (finalize_tx hash vehicle_mint block))
            (λ u l. subst (HasEnded id) (sym (same e.id _ u)) l)
            (λ _ u l. finalize-Ended id hash vehicle_mint block u l) w k)
  ]
    where
      same :
          (maker : ℕ) (member : Option ℕ) (u : World)
          → (upsert_passport token v maker member u).1.ownerships ≡ u.ownerships
      same maker member u = ground arith

  scrap-Ended :
      (token scrap_id date hash block : ℕ) (w : World)
      → Ended id w
      → Ended id (handle_vehicle_scrapped token scrap_id date hash block w)
  unfolding handle_vehicle_scrapped
  scrap-Ended token scrap_id date hash block w k =
      elim (Option-cases (find? (with_dvp_id token) w.passports)) [
        | inl missing ↦
            rw (handle_vehicle_scrapped, missing) (finalize-Ended id hash vehicle_scrap block w k)
        | inr (p, found) ↦
            rw (handle_vehicle_scrapped, found)
              (finalize-Ended id hash vehicle_scrap block
                (record_scrap token (entity_id_of (entity_on_chain scrap_id w)) date p w)
                (deactivated-HasEnded id p.id w.ownerships k))
      ]

  request-Ended :
      (dvp : ℕ) (rto : Option ℕ) (w : World) → Ended id w → Ended id (approve_request dvp rto w)
  unfolding approve_request
  request-Ended dvp none w k = k
  request-Ended dvp (some office) w k = k

  record-Ended :
      (own_tid : ℕ) (owner : Text) (office : Option ℕ) (dvp hash : ℕ) (p : Option VehiclePassport)
      → Keeps (Ended id) (record_registration own_tid owner office dvp hash p)
  unfolding record_registration
  record-Ended own_tid owner office dvp hash none w k = k
  record-Ended own_tid owner office dvp hash (some p) w k =
      bind-Keeps (Ended id)
        (upsert_ownership own_tid p.id office owner (user_with_wallet owner w)
            (member_of (find? (with_hash hash) w.transactions))
          >> modify (update_passport dvp (sets_status (some VehicleStatus.active))))
        (λ _. modify (approve_request dvp office))
        (bind-Keeps (Ended id)
          (upsert_ownership own_tid p.id office owner (user_with_wallet owner w)
            (member_of (find? (with_hash hash) w.transactions)))
          (λ _. modify (update_passport dvp (sets_status (some VehicleStatus.active))))
          (λ u l. upsert-Ended id own_tid p.id office owner _ _ u l) (λ _ u l. l))
        (λ _ u l. request-Ended dvp office u l) w k

  event-Ended :
      (e : VehicleEvent) (hash block : ℕ) (w : World)
      → Ended id w
      → Ended id (index_vehicle_event e hash block w)
  unfolding index_vehicle_event handle_status_change handle_vehicle_assigned_to_dealer
      handle_scrap_authorized handle_vehicle_reg
  event-Ended (mfg token v mfg_id) hash block w k = mfg-Ended token v mfg_id hash block w k
  event-Ended (status_change token number) hash block w k = k
  event-Ended (scrap token scrap_id date) hash block w k =
      scrap-Ended token scrap_id date hash block w k
  event-Ended (assigned token dealer) hash block w k =
      finalize-Ended id hash vehicle_assign_dealer block
        (update_passport token (assigned_to dealer (user_with_wallet dealer w)) w) k
  event-Ended (authorized token scrap_id) hash block w k = k
  event-Ended (reg own_tid owner rto_id dvp) hash block w k =
      bind-Keeps (Ended id)
        (record_registration own_tid owner (entity_id_of (entity_on_chain rto_id w)) dvp hash
          (find? (with_dvp_id dvp) w.passports))
        (λ _. modify (finalize_tx hash vehicle_register_rto block))
        (record-Ended own_tid owner _ dvp hash _)
        (λ _ u l. finalize-Ended id hash vehicle_register_rto block u l) w k

  all-Ended : (ls : List VehicleLog) (w : World) → Ended id w → Ended id (index_vehicle_logs ls w)
  all-Ended [] w k = k
  all-Ended (l ∷ ls) w k =
      all-Ended ls (index_vehicle_event l.event l.hash l.block w)
        (event-Ended l.event l.hash l.block w k)

-- The scrapping itself ends the ownerships of the passport that it finds.
scrapping-Ended :
    (n scrap_id date hash block : ℕ) (w : World) (p : VehiclePassport)
    → find? (with_dvp_id n) w.passports ≡ some p
    → any (of_passport p.id) w.ownerships ≡ true
    → Ended p.id (handle_vehicle_scrapped n scrap_id date hash block w)
unfolding handle_vehicle_scrapped
scrapping-Ended n scrap_id date hash block w p found owned =
    rw (handle_vehicle_scrapped, found)
      (finalize-Ended p.id hash vehicle_scrap block
        (record_scrap n (entity_id_of (entity_on_chain scrap_id w)) date p w)
        (kept w.ownerships owned, all-inactive p.id w.ownerships))
  where
    kept :
        (os : List VehicleOwnership)
        → any (of_passport p.id) os ≡ true
        → any (of_passport p.id) (update_all (of_passport p.id) deactivated os) ≡ true
    kept [] h = cc
    kept (o ∷ os) h = ground (arith, kept os)

-- Once the event has scrapped a vehicle of which some ownership is on record, none of its
-- ownerships is active, and none becomes active again, whatever mints, changes of status,
-- scrappings, assignments, authorizations and registrations of this and other vehicles follow,
-- further registrations of its own token included.
pub ownership_ends :
    (n scrap_id date hash block : ℕ) (w : World) (p : VehiclePassport) (ls : List VehicleLog)
    → find? (with_dvp_id n) w.passports ≡ some p
    → any (of_passport p.id) w.ownerships ≡ true
    → HasNoOwner p.id (index_vehicle_logs ls (handle_vehicle_scrapped n scrap_id date hash block w))
ownership_ends n scrap_id date hash block w p ls found owned =
    (all-Ended p.id ls _ (scrapping-Ended n scrap_id date hash block w p found owned)).1
