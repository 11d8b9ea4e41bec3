-- ===== src/Vehicles/Passports.antt =====
-- What the updates of the table of passports do to the status of one vehicle.
use vehicle_lifecycle_manage.Base.{
  ℕ, ◌≡◌, ◌∙◌, ap, some, List, [], ◌∷◌, false, ◌==◌, arith, Bool-cases, inl, inr, if◌then◌else◌,
}
use vehicle_lifecycle_manage.Domain.{VehicleStatus}
use vehicle_lifecycle_manage.Store.Rows.{VehiclePassport}
use vehicle_lifecycle_manage.Store.Table.{
  find?, update_first, find?-holds, find?-update_self, find?-update_other,
}
use vehicle_lifecycle_manage.Vehicles.Events.{with_dvp_id, with_vin, sets_token}

-- The passport with this token and VIN is there, and has this status.
abbrev pub IsAt : ℕ → ℕ → VehicleStatus → List VehiclePassport → Type 0
IsAt n vin s ps =
    (p : VehiclePassport) × (find? (with_dvp_id n) ps ≡ some p)
    × (p.status ≡ s)
    × (p.vin_hash ≡ vin)

module _ (n vin : ℕ) (s : VehicleStatus) where
  -- The update of a passport by its token that keeps token and VIN, and changes the status by `g`.
  pub update-IsAt :
      (m : ℕ) (f : VehiclePassport → VehiclePassport) (g : VehicleStatus → VehicleStatus)
      (ps : List VehiclePassport)
      → ((p : VehiclePassport)
          → ((f p).dvp_id ≡ p.dvp_id) × ((f p).vin_hash ≡ p.vin_hash) × ((f p).status ≡ g p.status))
      → IsAt n vin s ps
      → IsAt n vin (if m == n then g s else s) (update_first (with_dvp_id m) f ps)
  update-IsAt m f g ps keeps (p, found, is_s, same_vin) = elim (Bool-cases (m == n)) [
    | inl same ↦ rw same (
      f p,
      ground (
        arith,
        (keeps p).0,
        find?-holds (with_dvp_id n) ps p found,
        find?-update_self (with_dvp_id n) f ps p found,
      ),
      (keeps p).2 ∙ ap g is_s,
      ground (arith, (keeps p).1),
    )
    | inr other ↦ rw other (
      p,
      find?-update_other (with_dvp_id m) (with_dvp_id n) f ps (λ x h. ground arith)
            (λ x h. ground (arith, (keeps x).0))
          ∙ found,
      is_s,
      same_vin,
    )
  ]

  -- The passport of another VIN gets another token.
  pub token-IsAt :
      (token v : ℕ) (ps : List VehiclePassport)
      → (token == n) ≡ false
      → (v == vin) ≡ false
      → IsAt n vin s ps
      → IsAt n vin s (update_first (with_vin v) (sets_token token) ps)
  token-IsAt token v ps apart other (p, found, is_s, same_vin) = (p, kept ps found, is_s, same_vin)
    where
      kept :
          (qs : List VehiclePassport)
          → find? (with_dvp_id n) qs ≡ some p
          → find? (with_dvp_id n) (update_first (with_vin v) (sets_token token) qs) ≡ some p
      kept [] h = cc
      kept (q ∷ qs) h = ground (arith, kept qs)
