-- ===== src/Vehicles/Handlers.antt =====
-- What each handler does to the status of one vehicle.
use vehicle_lifecycle_manage.Base.{
  ℕ, ◌≡◌, ◌⊎◌, refl, sym, subst, Option, none, some, false, ◌==◌, arith, Bool-cases, Option-cases,
  inl, inr, is_some, true, if◌then◌else◌,
}
use vehicle_lifecycle_manage.Base.Lists.{any}
use vehicle_lifecycle_manage.Base.Text.{Text}
use vehicle_lifecycle_manage.Domain.{
  VehicleStatus, TxActionType, vehicle_mint, vehicle_scrap, vehicle_register_rto,
}
use vehicle_lifecycle_manage.Store.Rows.{VehiclePassport}
use vehicle_lifecycle_manage.Store.Table.{find?, update_first, find?-append}
use vehicle_lifecycle_manage.Store.World.{World, modify, ◌>>◌}
use vehicle_lifecycle_manage.Store.Keeps.{Keeps, bind-Keeps}
use vehicle_lifecycle_manage.Indexer.Finalize.{finalize_tx, with_hash}
use vehicle_lifecycle_manage.Transfers.Events.{user_with_wallet}
use vehicle_lifecycle_manage.Vehicles.Events.{
  with_dvp_id, with_vin, update_passport, sets_status, record_scrap, scrapped_at, entity_on_chain,
  entity_id_of, upsert_passport, takes_token, member_of, handle_vehicle_mfg,
  handle_vehicle_scrapped,
}
use vehicle_lifecycle_manage.Vehicles.Registration.{
  handle_vehicle_reg, record_registration, upsert_ownership, approve_request,
}
use vehicle_lifecycle_manage.Vehicles.Passports.{IsAt, update-IsAt, token-IsAt}

module _ (n vin : ℕ) (s : VehicleStatus) where
  abbrev pub Stands : World → Type 0
  Stands w = IsAt n vin s w.passports

  pub unchanged :
      (token : ℕ) (f : VehiclePassport → VehiclePassport)
      → ((p : VehiclePassport)
          → ((f p).dvp_id ≡ p.dvp_id) × ((f p).vin_hash ≡ p.vin_hash) × ((f p).status ≡ p.status))
      → (w : World) → Stands w
      → Stands (update_passport token f w)
  unchanged token f keeps w k = elim (Bool-cases (token == n)) [
    | inl same ↦ rw same at (update-IsAt n vin s token f (λ t. t) w.passports keeps k)
    | inr other ↦ rw other at (update-IsAt n vin s token f (λ t. t) w.passports keeps k)
  ]

  pub finalize-passports :
      (hash : ℕ) (action : TxActionType) (block : ℕ) (w : World)
      → (finalize_tx hash action block w).passports ≡ w.passports
  unfolding finalize_tx
  finalize-passports hash action block w = ground arith

  upsert-Stands :
      (token v mfg_id : ℕ) (member : Option ℕ) (w : World)
      → (token == n) ≡ false
      → (v == vin) ≡ false
      → Stands w
      → Stands (upsert_passport token v mfg_id member w).1
  unfolding upsert_passport
  upsert-Stands token v mfg_id member w apart other k =
      elim (Bool-cases (any (takes_token v token) w.passports)) [
        | inl taken ↦ rw (upsert_passport, taken) k
        | inr free ↦ elim (Bool-cases (is_some (find? (with_vin v) w.passports))) [
          | inl known ↦
              rw (upsert_passport, free, known)
                (token-IsAt n vin s token v w.passports apart other k)
          | inr new ↦
              rw (upsert_passport, free, new)
                (k.0, find?-append (with_dvp_id n) w.passports _ k.0 k.1, k.2, k.3)
        ]
      ]

  finalize-Stands :
      (hash : ℕ) (action : TxActionType) (block : ℕ) (w : World)
      → Stands w
      → Stands (finalize_tx hash action block w)
  finalize-Stands hash action block w k = rw (finalize-passports hash action block w) k

  pub mfg-Stands :
      (token v mfg_id hash block : ℕ) (w : World)
      → (token == n) ≡ false
      → (v == vin) ≡ false
      → Stands w
      → Stands (handle_vehicle_mfg token v mfg_id hash block w)
  unfolding handle_vehicle_mfg
  mfg-Stands token v mfg_id hash block w apart other k =
      elim (Option-cases (entity_on_chain mfg_id w)) [
        | inl missing ↦ rw (handle_vehicle_mfg, missing) k
        | inr (e, found) ↦
            rw (handle_vehicle_mfg, found)
              (bind-Keeps Stands
                (upsert_passport token v e.id (member_of (find? (with_hash hash) w.transactions)))
                (λ _. modify (finalize_tx hash vehicle_mint block))
                (λ u l. upsert-Stands token v e.id _ u apart other l)
                (λ _ u l. finalize-Stands hash vehicle_mint block u l) w k)
      ]

  pub scrap-IsAt :
      (token scrap_id date hash block : ℕ) (w : World)
      → IsAt n vin s w.passports
      → IsAt n vin
          (if token == n then VehicleStatus.scrapped else s)
          (handle_vehicle_scrapped token scrap_id date hash block w).passports
  unfolding handle_vehicle_scrapped
  scrap-IsAt token scrap_id date hash block w k =
      subst (IsAt n vin (if token == n then VehicleStatus.scrapped else s))
        (sym (
          finalize-passports hash vehicle_scrap block
            (written (find? (with_dvp_id token) w.passports))))
        (recorded (find? (with_dvp_id token) w.passports) refl)
    where
      center : Option ℕ
      center = entity_id_of (entity_on_chain scrap_id w)

      written : Option VehiclePassport → World
      written found = elim found [ none ↦ w | some p ↦ record_scrap token center date p w ]

      recorded :
          (found : Option VehiclePassport)
          → find? (with_dvp_id token) w.passports ≡ found
          → IsAt n vin (if token == n then VehicleStatus.scrapped else s) (written found).passports
      recorded none missing = elim (Bool-cases (token == n)) [
        | inl same ↦ absurd (ground (arith, missing, k.1))
        | inr other ↦ rw other k
      ]
      recorded (some p) found =
          update-IsAt n vin s token (scrapped_at center date) (λ _. VehicleStatus.scrapped)
            w.passports (λ q. (refl, refl, refl)) k

  -- During a registration, the vehicle has its status still, or has been made active by it.
  abbrev pub Registering : ℕ → World → Type 0
  Registering dvp w = Stands w ⊎ (((dvp == n) ≡ true) × IsAt n vin VehicleStatus.active w.passports)

  ownership-Registering :
      (dvp own_tid passport : ℕ) (rto : Option ℕ) (wallet : Text) (user member : Option ℕ)
      → Keeps (Registering dvp) (upsert_ownership own_tid passport rto wallet user member)
  unfolding upsert_ownership
  ownership-Registering dvp own_tid passport rto wallet user member w k =
      subst (λ ps. IsAt n vin s ps ⊎ (((dvp == n) ≡ true) × IsAt n vin VehicleStatus.active ps))
        same k
    where
      same : w.passports ≡ (upsert_ownership own_tid passport rto wallet user member w).1.passports
      same = ground arith

  activation-Registering :
      (dvp : ℕ) (w : World)
      → Registering dvp w
      → Registering dvp (update_passport dvp (sets_status (some VehicleStatus.active)) w)
  activation-Registering dvp w k = elim (Bool-cases (dvp == n)) [
    | inl same ↦ inr (
      same,
      elim k [
        | inl before ↦ rw same at (made_active s before)
        | inr (_, after) ↦ rw same at (made_active VehicleStatus.active after)
      ],
    )
    | inr other ↦ elim k [
      | inl before ↦ inl (rw other at (made_active s before))
      | inr (same, _) ↦ absurd (ground arith)
    ]
  ]
    where
      made_active :
          (t : VehicleStatus)
          → IsAt n vin t w.passports
          → IsAt n vin
              (if dvp == n then VehicleStatus.active else t)
              (update_first (with_dvp_id dvp) (sets_status (some VehicleStatus.active)) w.passports)
      made_active t k =
          update-IsAt n vin t dvp (sets_status (some VehicleStatus.active))
            (λ _. VehicleStatus.active) w.passports (λ q. (refl, refl, refl)) k

  request-Registering :
      (dvp : ℕ) (rto : Option ℕ) (w : World)
      → Registering dvp w
      → Registering dvp (approve_request dvp rto w)
  unfolding approve_request
  request-Registering dvp none w k = k
  request-Registering dvp (some office) w k = k

  record-Registering :
      (own_tid : ℕ) (owner : Text) (office : Option ℕ) (dvp hash : ℕ) (p : Option VehiclePassport)
      → Keeps (Registering dvp) (record_registration own_tid owner office dvp hash p)
  unfolding record_registration
  record-Registering own_tid owner office dvp hash none w k = k
  record-Registering own_tid owner office dvp hash (some p) w k =
      bind-Keeps (Registering dvp)
        (upsert_ownership own_tid p.id office owner (user_with_wallet owner w)
            (member_of (find? (with_hash hash) w.transactions))
          >> modify (update_passport dvp (sets_status (some VehicleStatus.active))))
        (λ _. modify (approve_request dvp office))
        (bind-Keeps (Registering dvp)
          (upsert_ownership own_tid p.id office owner (user_with_wallet owner w)
            (member_of (find? (with_hash hash) w.transactions)))
          (λ _. modify (update_passport dvp (sets_status (some VehicleStatus.active))))
          (λ u l. ownership-Registering dvp own_tid p.id office owner _ _ u l)
          (λ _ u l. activation-Registering dvp u l))
        (λ _ u l. request-Registering dvp office u l) w k

  finalize-Registering :
      (dvp hash : ℕ) (action : TxActionType) (block : ℕ) (w : World)
      → Registering dvp w
      → Registering dvp (finalize_tx hash action block w)
  finalize-Registering dvp hash action block w k =
      subst (λ ps. IsAt n vin s ps ⊎ (((dvp == n) ≡ true) × IsAt n vin VehicleStatus.active ps))
        (sym (finalize-passports hash action block w)) k

  pub reg-Registering :
      (own_tid : ℕ) (owner : Text) (rto_id dvp hash block : ℕ) (w : World)
      → Stands w
      → Registering dvp (handle_vehicle_reg own_tid owner rto_id dvp hash block w)
  unfolding handle_vehicle_reg
  reg-Registering own_tid owner rto_id dvp hash block w k =
      bind-Keeps (Registering dvp)
        (record_registration own_tid owner (entity_id_of (entity_on_chain rto_id w)) dvp hash
          (find? (with_dvp_id dvp) w.passports))
        (λ _. modify (finalize_tx hash vehicle_register_rto block))
        (record-Registering own_tid owner _ dvp hash _)
        (λ _ u l. finalize-Registering dvp hash vehicle_register_rto block u l) w (inl k)
