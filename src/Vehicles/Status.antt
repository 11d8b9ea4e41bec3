-- ===== src/Vehicles/Status.antt =====
-- The status of a vehicle follows its events.
use vehicle_lifecycle_manage.Store.World.{World}
use vehicle_lifecycle_manage.Vehicles.Follows.{Follows}
