-- ===== src/Transfers/Owner.antt =====
-- The owner in the table follows the events of the contract.
use vehicle_lifecycle_manage.Base.{
  ℕ, ◌≡◌, refl, ◌∙◌, some, List, [], ◌∷◌, ◌==◌, arith, Bool-cases, inl, inr, if◌then◌else◌,
}
use vehicle_lifecycle_manage.Base.Text.{Text, to_lower}
use vehicle_lifecycle_manage.Store.Rows.{VehicleOwnership}
use vehicle_lifecycle_manage.Store.Table.{find?, find?-holds, find?-update_self, find?-update_other}
use vehicle_lifecycle_manage.Store.World.{World}
use vehicle_lifecycle_manage.Transfers.Events.{
  TransferEvent, TransferLog, xfer_init, xfer_cancelled, xfer_approved, xfer_done, index_event,
  index_all, with_own_tid, handle_xfer_init, handle_xfer_cancelled, handle_xfer_approved,
  handle_xfer_done, owned_by, user_with_wallet,
}

-- The specification: a completed transfer of the token makes the new owner its owner, and nothing
-- else does.
abbrev pub owner_after : ℕ → TransferEvent → Text → Text
owner_after n (xfer_init _ _ _ _) owner = owner
owner_after n (xfer_cancelled _ _) owner = owner
owner_after n (xfer_approved _ _) owner = owner
owner_after n (xfer_done _ own_tid new_owner) owner =
    if own_tid == n then to_lower new_owner else owner

abbrev pub owner_after_all : ℕ → List TransferLog → Text → Text
owner_after_all n [] owner = owner
owner_after_all n (l ∷ ls) owner = owner_after_all n ls (owner_after n l.event owner)

-- The ownership of the token, with this owner and all else as in `o`.
abbrev pub Owned : ℕ → VehicleOwnership → Text → World → Type 0
Owned n o owner w =
    (p : VehicleOwnership) × (find? (with_own_tid n) w.ownerships ≡ some p)
    × (p.owner_wallet ≡ owner)
    × (p.id ≡ o.id)
    × (p.passport_id ≡ o.passport_id)
    × (p.is_active ≡ o.is_active)

init-ownerships :
    (r n : ℕ) (seller buyer : Text) (hash block : ℕ) (w : World)
    → (handle_xfer_init r n seller buyer hash block w).ownerships ≡ w.ownerships
unfolding handle_xfer_init
init-ownerships r n seller buyer hash block w = ground arith

cancelled-ownerships :
    (r hash block : ℕ) (w : World)
    → (handle_xfer_cancelled r hash block w).ownerships ≡ w.ownerships
unfolding handle_xfer_cancelled
cancelled-ownerships r hash block w = ground arith

approved-ownerships :
    (r approver hash block : ℕ) (w : World)
    → (handle_xfer_approved r approver hash block w).ownerships ≡ w.ownerships
unfolding handle_xfer_approved
approved-ownerships r approver hash block w = ground arith

done-Owned :
    (n m : ℕ) (o : VehicleOwnership) (owner new_owner : Text) (w : World)
    → Owned n o owner w
    → Owned n o (if m == n then to_lower new_owner else owner) (handle_xfer_done m new_owner w)
unfolding handle_xfer_done
done-Owned n m o owner new_owner w (p, found, is_owner, same_id, same_vehicle, same_state) =
    elim (Bool-cases (m == n)) [
      | inl same ↦ (
        owned_by new_owner (user_with_wallet new_owner w) p,
        ground (
          arith,
          found,
          find?-holds (with_own_tid n) w.ownerships p found,
          find?-update_self (with_own_tid n) (owned_by new_owner (user_with_wallet new_owner w))
              w.ownerships p found,
        ),
        ground arith,
        same_id,
        same_vehicle,
        same_state,
      )
      | inr other ↦ (
        p,
        find?-update_other (with_own_tid m) (with_own_tid n)
              (owned_by new_owner (user_with_wallet new_owner w)) w.ownerships (λ x h. ground arith)
              (λ x h. ground arith)
            ∙ found,
        ground arith,
        same_id,
        same_vehicle,
        same_state,
      )
    ]

event-Owned :
    (n : ℕ) (o : VehicleOwnership) (owner : Text) (e : TransferEvent) (hash block : ℕ) (w : World)
    → Owned n o owner w
    → Owned n o (owner_after n e owner) (index_event e hash block w)
unfolding index_event
event-Owned n o owner (xfer_init r m seller buyer) hash block w (p, found, is_owner, a, b, c) =
    (p, rw (init-ownerships r m seller buyer hash block w) found, is_owner, a, b, c)
event-Owned n o owner (xfer_cancelled r m) hash block w (p, found, is_owner, a, b, c) =
    (p, rw (cancelled-ownerships r hash block w) found, is_owner, a, b, c)
event-Owned n o owner (xfer_approved r approver) hash block w (p, found, is_owner, a, b, c) =
    (p, rw (approved-ownerships r approver hash block w) found, is_owner, a, b, c)
event-Owned n o owner (xfer_done r m new_owner) hash block w owned =
    done-Owned n m o owner new_owner w owned

all-Owned :
    (n : ℕ) (o : VehicleOwnership) (owner : Text) (ls : List TransferLog) (w : World)
    → Owned n o owner w
    → Owned n o (owner_after_all n ls owner) (index_all ls w)
all-Owned n o owner [] w owned = owned
all-Owned n o owner (l ∷ ls) w owned =
    all-Owned n o (owner_after n l.event owner) ls (index_event l.event l.hash l.block w)
      (event-Owned n o owner l.event l.hash l.block w owned)

-- After any sequence of the events of transfers, an ownership token on record belongs to whom the
-- last completed transfer of this token names, and where there was none, to whom it belonged; its
-- vehicle and whether it is active are as before.
pub index_all-Owned :
    (ls : List TransferLog) (w : World) (n : ℕ) (o : VehicleOwnership)
    → find? (with_own_tid n) w.ownerships ≡ some o
    → Owned n o (owner_after_all n ls o.owner_wallet) (index_all ls w)
index_all-Owned ls w n o found =
    all-Owned n o o.owner_wallet ls w (o, found, refl, refl, refl, refl)
