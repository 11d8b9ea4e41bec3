-- ===== src/Transfers/Approval/Laws.antt =====
-- When an approval is refused.
use vehicle_lifecycle_manage.Base.{ℕ, ◌≡◌, none, arith, Option-cases, inl, inr}
use vehicle_lifecycle_manage.Base.Text.{text}
use vehicle_lifecycle_manage.Domain.Failure.{Failure, http, err}
use vehicle_lifecycle_manage.Store.Table.{find?}
use vehicle_lifecycle_manage.Store.World.{World}
use vehicle_lifecycle_manage.Chain.Manager.{Node}
use vehicle_lifecycle_manage.Transfers.Events.{with_own_tid}
use vehicle_lifecycle_manage.Transfers.Approval.{is_ready, approve_transfer}

module _ (node : Node) (own_tid rto_entity member : ℕ) (w : World) where
  -- An approval answers with an error where no request is ready.
  pub approve_transfer-none :
      find? (is_ready w own_tid rto_entity) w.transfers ≡ none
      → (e : Failure) × (approve_transfer node own_tid rto_entity member w ≡ (err e, w))
  unfolding approve_transfer
  approve_transfer-none none_waits =
      elim (Option-cases (find? (with_own_tid own_tid) w.ownerships)) [
        | inl missing ↦ (http 404 (text "Ownership record not found."), ground arith)
        | inr (o, held) ↦ (
          http 400
              (text "No pending transfer request found that is ready for your RTO to approve."),
          ground arith,
        )
      ]
