-- ===== src/Vehicles/Follows.antt =====
-- How the events of a vehicle may take it from one status to another.
use vehicle_lifecycle_manage.Base.{
  ℕ, zero, suc, ◌≡◌, ◌⊎◌, refl, Option, none, some, List, [], ◌∷◌, false, ◌==◌, arith, true,
  if◌then◌else◌,
}
use vehicle_lifecycle_manage.Domain.{VehicleStatus}
use vehicle_lifecycle_manage.Store.Rows.{VehiclePassport}
use vehicle_lifecycle_manage.Vehicles.Events.{sets_status, status_of}
use vehicle_lifecycle_manage.Vehicles.Registration.{
  VehicleEvent, VehicleLog, mfg, status_change, scrap, assigned, authorized, reg,
}

-- No log mints the token or the VIN.
abbrev pub IsNoMint : ℕ → ℕ → VehicleEvent → Type 0
IsNoMint n vin (mfg token v _) = ((token == n) ≡ false) × ((v == vin) ≡ false)
IsNoMint n vin _ = Unit

abbrev pub AllNoMint : ℕ → ℕ → List VehicleLog → Type 0
AllNoMint n vin [] = Unit
AllNoMint n vin (l ∷ ls) = IsNoMint n vin l.event × AllNoMint n vin ls

-- The status that the number of a `StatusChange` stands for, from 0 on: NOT_REG, ACTIVE, SCRAPPED.
abbrev pub numbered : ℕ → VehicleStatus → VehicleStatus
numbered zero s = VehicleStatus.not_reg
numbered (suc zero) s = VehicleStatus.active
numbered (suc (suc zero)) s = VehicleStatus.scrapped
numbered (suc (suc (suc _))) s = s

-- How one event may take the status of the vehicle with token `n` from `s` to `t`: a change of its
-- status sets the status with the number, and an unknown number leaves it; a scrapping makes it
-- scrapped; a registration makes it active, or leaves it where it fails; all else leaves it.
abbrev pub Follows : ℕ → VehicleEvent → VehicleStatus → VehicleStatus → Type 0
Follows n (mfg _ _ _) s t = t ≡ s
Follows n (status_change token number) s t = t ≡ (if token == n then numbered number s else s)
Follows n (scrap token _ _) s t = t ≡ (if token == n then VehicleStatus.scrapped else s)
Follows n (assigned _ _) s t = t ≡ s
Follows n (authorized _ _) s t = t ≡ s
Follows n (reg _ _ _ dvp) s t = (t ≡ s) ⊎ (((dvp == n) ≡ true) × (t ≡ VehicleStatus.active))

abbrev pub FollowsAll : ℕ → List VehicleLog → VehicleStatus → VehicleStatus → Type 0
FollowsAll n [] s t = t ≡ s
FollowsAll n (l ∷ ls) s t = (u : VehicleStatus) × Follows n l.event s u × FollowsAll n ls u t

-- What `sets_status` does to a status.
abbrev pub set_or_keep : Option VehicleStatus → VehicleStatus → VehicleStatus
set_or_keep none s = s
set_or_keep (some t) s = t

pub status_keeps :
    (o : Option VehicleStatus) (p : VehiclePassport)
    → ((sets_status o p).dvp_id ≡ p.dvp_id)
      × ((sets_status o p).vin_hash ≡ p.vin_hash)
      × ((sets_status o p).status ≡ set_or_keep o p.status)
status_keeps none p = (refl, refl, refl)
status_keeps (some s) p = (refl, refl, refl)

pub numbered-status_of :
    (number : ℕ) (s : VehicleStatus) → set_or_keep (status_of number) s ≡ numbered number s
numbered-status_of zero s = refl
numbered-status_of (suc zero) s = refl
numbered-status_of (suc (suc zero)) s = refl
numbered-status_of (suc (suc (suc k))) s = ground arith
