-- ===== src/Http/Routes.antt =====
-- The guard chains of the route files: bank.routes.ts (lines 18 to 20 and the role guard of the
-- write operations), admin.routes.ts and citizen.routes.ts, under backend/src/modules.
use vehicle_lifecycle_manage.Base.{Option, [], ◌∷◌, Bool}
use vehicle_lifecycle_manage.Base.Text.{Text}
use vehicle_lifecycle_manage.Domain.{bank, government, admin, operator, owner}
use vehicle_lifecycle_manage.Http.Request.{Middleware, run_chain}
use vehicle_lifecycle_manage.Http.Auth.{Verified, require_auth}
use vehicle_lifecycle_manage.Http.Guards.{
  require_entity_type, require_role, require_b2b, require_b2c, require_kyc,
}

unfoldable pub bank_write_chain : (Text → Verified) → Middleware
unfolding run_chain
bank_write_chain verify = run_chain (
    require_auth verify
    ∷ require_b2b
    ∷ require_entity_type (bank ∷ [])
    ∷ require_role (admin ∷ operator ∷ [])
    ∷ [])

unfoldable pub admin_chain : (Text → Verified) → Middleware
unfolding run_chain
admin_chain verify = run_chain (
    require_auth verify
    ∷ require_b2b
    ∷ require_entity_type (government ∷ [])
    ∷ require_role (owner ∷ [])
    ∷ [])

unfoldable pub citizen_kyc_chain : (Text → Verified) → (Text → Option Bool) → Middleware
unfolding run_chain
citizen_kyc_chain verify is_verified =
    run_chain (require_auth verify ∷ require_b2c ∷ require_kyc is_verified ∷ [])
