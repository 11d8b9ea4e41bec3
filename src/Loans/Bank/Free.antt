-- ===== src/Loans/Bank/Free.antt =====
-- Which vehicles may be hypothecated: the guard of `registerLoan`.
use vehicle_lifecycle_manage.Base.{
  ℕ, ◌≡◌, ◌⊎◌, inl, inr, Option, none, some, false, arith, Bool-cases, Option-cases, ◌==◌, ◌&&◌,
}
use vehicle_lifecycle_manage.Base.Text.{Text, to_lower, text_eq→eq}
use vehicle_lifecycle_manage.Domain.{VehicleStatus}
use vehicle_lifecycle_manage.Domain.Failure.{ok}
use vehicle_lifecycle_manage.Store.Rows.{VehiclePassport, VehicleOwnership, TransferRequest}
use vehicle_lifecycle_manage.Store.Table.{find?}
use vehicle_lifecycle_manage.Store.World.{World}
use vehicle_lifecycle_manage.Chain.Tracking.Guarded.{Unchanged}
use vehicle_lifecycle_manage.Loans.Rows.{
  is_active_vehicle, is_pending_on, is_open_on, is_transfer_of,
}
use vehicle_lifecycle_manage.Loans.Bank.{is_foreign, check_transfer, check_title, check_free}

-- The active ownership of the vehicle.
abbrev pub owner_of : World → VehiclePassport → Option VehicleOwnership
owner_of w p = find? (λ (o : VehicleOwnership). (o.passport_id == p.id) && o.is_active) w.ownerships

-- The vehicle may be hypothecated: in transfer it has no pending loan; otherwise it has no open
-- loan at all, and if it is registered and an active ownership of it is on record, that is the
-- borrower's. A registered vehicle without an active ownership passes for any borrower.
abbrev pub IsFree : World → VehiclePassport → ℕ → Text → Type 0
IsFree w p dvp_id borrower =
    ((t : TransferRequest) × (find? (is_transfer_of w dvp_id) w.transfers ≡ some t)
      × (find? (is_pending_on w dvp_id) w.loans ≡ none))
    ⊎ ((find? (is_transfer_of w dvp_id) w.transfers ≡ none)
        × (find? (is_open_on w dvp_id) w.loans ≡ none)
        × (p.status ≡ VehicleStatus.active
            → (o : VehicleOwnership) → owner_of w p ≡ some o
            → to_lower o.owner_wallet ≡ to_lower borrower))

own-borrower :
    (borrower : Text) (found : Option VehicleOwnership)
    → is_foreign borrower found ≡ false
    → (o : VehicleOwnership) → found ≡ some o
    → to_lower o.owner_wallet ≡ to_lower borrower
unfolding is_foreign
own-borrower borrower none own o e = cc
own-borrower borrower (some p) own o e = text_eq→eq _ _ (ground (arith, own))

module _ (dvp_id : ℕ) (borrower : Text) (w : World) where
  pub check_free-cases :
      (p : VehiclePassport) (s : VehicleStatus) (t : Option TransferRequest)
      → p.status ≡ s
      → find? (is_transfer_of w dvp_id) w.transfers ≡ t
      → ((check_free p dvp_id borrower t w ≡ (ok tt, w)) × IsFree w p dvp_id borrower)
        ⊎ Unchanged w (check_free p dvp_id borrower t w)
  unfolding check_free check_transfer check_title
  check_free-cases p s (some t) is_s in_transfer =
      elim (Option-cases (find? (is_pending_on w dvp_id) w.loans)) [
        | inl free ↦ inl (ground arith, inl (t, in_transfer, free))
        | inr (l, taken) ↦ inr (ground arith)
      ]
  check_free-cases p s none is_s settled =
      elim (Option-cases (find? (is_open_on w dvp_id) w.loans)) [
        | inr (l, taken) ↦ inr (ground arith)
        | inl free ↦ elim (Bool-cases (is_foreign borrower (owner_of w p))) [
          | inr own ↦ inl (ground arith, inr (settled, free, λ _. own-borrower borrower _ own))
          | inl foreign ↦ elim (Bool-cases (is_active_vehicle p.status)) [
            | inl registered ↦ inr (ground arith)
            | inr unregistered ↦ inl (ground arith, inr (settled, free, λ e. absurd (ground arith)))
          ]
        ]
      ]
