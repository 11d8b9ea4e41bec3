-- ===== src/Http/Guards.antt =====
-- backend/src/middlewares/rbac.ts, requireB2B.ts, requireB2C.ts and requireKyc.ts.
use vehicle_lifecycle_manage.Base.{
  Option, none, some, List, Bool, true, false, ◌||◌, not, if◌then◌else◌, same, is_none,
}
use vehicle_lifecycle_manage.Base.Lists.{any}
use vehicle_lifecycle_manage.Base.Text.{Text, text, truthy}
use vehicle_lifecycle_manage.Domain.{
  CallerIdentity, EntityType, EntityType-discrete, MemberRole, MemberRole-discrete, AuthType, b2c,
  b2b,
}
use vehicle_lifecycle_manage.Domain.Failure.{http, Result, ok, err}
use vehicle_lifecycle_manage.Http.Request.{Request, Middleware}

abbrev unauthenticated : Result Request
unauthenticated = err (http 401 (text "Authentication required"))

-- `caller.entityType && allowedTypes.includes(caller.entityType)`
abbrev type_allowed : List EntityType → Option EntityType → Bool
type_allowed allowed none = false
type_allowed allowed (some t) = any (λ a. same EntityType-discrete a t) allowed

abbrev role_allowed : List MemberRole → Option MemberRole → Bool
role_allowed allowed none = false
role_allowed allowed (some r) = any (λ a. same MemberRole-discrete a r) allowed

abbrev is_b2c : AuthType → Bool
is_b2c b2c = true
is_b2c b2b = false

-- `if (!caller) throw`, then the test of the guard
guarded : (CallerIdentity → Result Request) → Option CallerIdentity → Result Request
guarded k none = unauthenticated
guarded k (some caller) = k caller

unfoldable pub require_entity_type : List EntityType → Middleware
unfolding guarded EntityType-discrete
require_entity_type allowed req =
    guarded
      (λ caller.
        if type_allowed allowed caller.entity_type
        then ok req
        else err (http 403 (text "Access denied: insufficient organization privileges")))
      req.caller

unfoldable pub require_role : List MemberRole → Middleware
unfolding guarded MemberRole-discrete
require_role allowed req =
    guarded
      (λ caller.
        if role_allowed allowed caller.role
        then ok req
        else err (http 403 (text "Access denied: insufficient member role privileges")))
      req.caller

unfoldable pub require_b2b : Middleware
unfolding guarded
require_b2b req =
    guarded
      (λ caller.
        if not (truthy caller.entity_id) || is_none caller.entity_type
        then err (
            http 403
              (text "Access denied: This endpoint is restricted to B2B Institutional staff only"))
        else ok req)
      req.caller

unfoldable pub require_b2c : Middleware
unfolding guarded
require_b2c req =
    guarded
      (λ caller.
        if not (is_b2c caller.kind) || not (truthy caller.wallet)
        then err
            (http 403 (text "Access denied: This endpoint is restricted to citizen accounts only"))
        else ok req)
      req.caller

-- the row that `citizenRepository.findById` returns, as far as `requireKyc` reads it
abbrev kyc_outcome : Request → Option Bool → Result Request
kyc_outcome req none = err (http 404 (text "Citizen account not found"))
kyc_outcome req (some true) = ok req
kyc_outcome req (some false) = err (
    http 403 (
      text
        "Access denied: You must complete your KYC verification to perform this action or access this data."))

-- `is_verified` looks the account up by its id: none where there is no row.
unfoldable pub require_kyc : (Text → Option Bool) → Middleware
unfolding guarded
require_kyc is_verified req =
    guarded
      (λ caller.
        if truthy (some caller.sub)
        then kyc_outcome req (is_verified caller.sub)
        else unauthenticated)
      req.caller
