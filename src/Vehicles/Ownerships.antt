-- ===== src/Vehicles/Ownerships.antt =====
-- The writes to the ownerships that leave those of a scrapped vehicle inactive.
use vehicle_lifecycle_manage.Base.{
  ℕ, ◌≡◌, refl, sym, subst, Option, List, [], ◌∷◌, false, ◌==◌, arith, Bool-cases, Option-cases,
  inl, inr, is_some, true,
}
use vehicle_lifecycle_manage.Base.Lists.{any}
use vehicle_lifecycle_manage.Base.Text.{Text}
use vehicle_lifecycle_manage.Domain.{TxActionType}
use vehicle_lifecycle_manage.Store.Table.{find?, update_first}
use vehicle_lifecycle_manage.Store.World.{World}
use vehicle_lifecycle_manage.Store.Keeps.{Keeps}
use vehicle_lifecycle_manage.Indexer.Finalize.{finalize_tx}
use vehicle_lifecycle_manage.Vehicles.Registration.{upsert_ownership}
use vehicle_lifecycle_manage.Store.Rows.{VehicleOwnership}
use vehicle_lifecycle_manage.Base.{◌&&◌, ◌++◌}
use vehicle_lifecycle_manage.Store.Table.{update_all}
use vehicle_lifecycle_manage.Vehicles.Events.{of_passport, deactivated}
use vehicle_lifecycle_manage.Vehicles.Registration.{reowned}
use vehicle_lifecycle_manage.Transfers.Events.{with_own_tid}

-- No ownership of the passport is active.
abbrev pub HasNoOwner : ℕ → World → Type 0
HasNoOwner passport w = any (λ o. of_passport passport o && o.is_active) w.ownerships ≡ false

pub all-inactive :
    (id : ℕ) (os : List VehicleOwnership)
    → any (λ o. of_passport id o && o.is_active) (update_all (of_passport id) deactivated os)
      ≡ false
all-inactive id [] = refl
all-inactive id (o ∷ os) = ground (arith, all-inactive id os)

module _ (id : ℕ) where
  -- The passport has been registered once, and none of its ownerships is active.
  abbrev pub HasEnded : List VehicleOwnership → Type 0
  HasEnded os =
      (any (of_passport id) os ≡ true) × (any (λ o. of_passport id o && o.is_active) os ≡ false)

  pub deactivated-HasEnded :
      (other : ℕ) (os : List VehicleOwnership)
      → HasEnded os
      → HasEnded (update_all (of_passport other) deactivated os)
  deactivated-HasEnded other os (some_row, ended) = (rows os some_row, no_owner os ended)
    where
      rows :
          (os : List VehicleOwnership)
          → any (of_passport id) os ≡ true
          → any (of_passport id) (update_all (of_passport other) deactivated os) ≡ true
      rows [] h = cc
      rows (o ∷ os) h = ground (arith, rows os)

      no_owner :
          (os : List VehicleOwnership)
          → any (λ o. of_passport id o && o.is_active) os ≡ false
          → any
              (λ o. of_passport id o && o.is_active)
              (update_all (of_passport other) deactivated os)
            ≡ false
      no_owner [] h = refl
      no_owner (o ∷ os) h = ground (arith, no_owner os)

  reowned-HasEnded :
      (own_tid : ℕ) (wallet : Text) (user : Option ℕ) (os : List VehicleOwnership)
      → HasEnded os
      → HasEnded (update_first (with_own_tid own_tid) (reowned wallet user) os)
  reowned-HasEnded own_tid wallet user os (some_row, ended) = (rows os some_row, no_owner os ended)
    where
      rows :
          (os : List VehicleOwnership)
          → any (of_passport id) os ≡ true
          → any (of_passport id) (update_first (with_own_tid own_tid) (reowned wallet user) os)
            ≡ true
      rows [] h = cc
      rows (o ∷ os) h = ground (arith, rows os)

      no_owner :
          (os : List VehicleOwnership)
          → any (λ o. of_passport id o && o.is_active) os ≡ false
          → any
              (λ o. of_passport id o && o.is_active)
              (update_first (with_own_tid own_tid) (reowned wallet user) os)
            ≡ false
      no_owner [] h = refl
      no_owner (o ∷ os) h = ground (arith, no_owner os)

  added-HasEnded :
      (new : VehicleOwnership) (os : List VehicleOwnership)
      → of_passport id new ≡ false
      → HasEnded os
      → HasEnded (os ++ new ∷ [])
  added-HasEnded new os apart (some_row, ended) = (rows os some_row, no_owner os ended)
    where
      rows :
          (os : List VehicleOwnership)
          → any (of_passport id) os ≡ true
          → any (of_passport id) (os ++ new ∷ []) ≡ true
      rows [] h = cc
      rows (o ∷ os) h = ground (arith, rows os)

      no_owner :
          (os : List VehicleOwnership)
          → any (λ o. of_passport id o && o.is_active) os ≡ false
          → any (λ o. of_passport id o && o.is_active) (os ++ new ∷ []) ≡ false
      no_owner [] h = ground arith
      no_owner (o ∷ os) h = ground (arith, no_owner os)

  abbrev pub Ended : World → Type 0
  Ended w = HasEnded w.ownerships

  -- A registration gives the passport no second ownership, and reactivates none.
  pub upsert-Ended :
      (own_tid passport : ℕ) (rto : Option ℕ) (wallet : Text) (user member : Option ℕ)
      → Keeps Ended (upsert_ownership own_tid passport rto wallet user member)
  unfolding upsert_ownership
  upsert-Ended own_tid passport rto wallet user member w k =
      elim (Bool-cases (is_some (find? (with_own_tid own_tid) w.ownerships))) [
        | inl known ↦
            rw (known, upsert_ownership) (reowned-HasEnded own_tid wallet user w.ownerships k)
        | inr new ↦ elim (Option-cases rto) [
          | inl unknown ↦ rw (new, unknown, upsert_ownership) k
          | inr (office, located) ↦ elim (Bool-cases (any (of_passport passport) w.ownerships)) [
            | inl taken ↦ rw (new, located, taken, upsert_ownership) k
            | inr free ↦
                rw (new, located, free, upsert_ownership)
                  (added-HasEnded _ w.ownerships (apart free) k)
          ]
        ]
      ]
    where
      apart : any (of_passport passport) w.ownerships ≡ false → (passport == id) ≡ false
      apart free = elim (Bool-cases (passport == id)) [
        | inl same ↦ absurd (ground (arith, free, k.0))
        | inr other ↦ other
      ]

  finalize-ownerships :
      (hash : ℕ) (action : TxActionType) (block : ℕ) (w : World)
      → (finalize_tx hash action block w).ownerships ≡ w.ownerships
  unfolding finalize_tx
  finalize-ownerships hash action block w = ground arith

  pub finalize-Ended :
      (hash : ℕ) (action : TxActionType) (block : ℕ) (w : World)
      → Ended w
      → Ended (finalize_tx hash action block w)
  finalize-Ended hash action block w k =
      subst HasEnded (sym (finalize-ownerships hash action block w)) k
