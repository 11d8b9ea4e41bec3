-- ===== src/Loans/Reconcile/Laws.antt =====
-- The reconciliation of a registration writes to the loans what the missed event would have
-- written.
use vehicle_lifecycle_manage.Base.Text.{Text}
use vehicle_lifecycle_manage.Store.World.{World}
use vehicle_lifecycle_manage.Chain.Receipt.{Receipt}
