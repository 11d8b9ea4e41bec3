-- ===== src/Http/Auth.antt =====
-- backend/src/middlewares/requireAuth.ts. `jwt.verify` is a parameter: the outcome of verifying
-- a token under the secret of the environment.
use vehicle_lifecycle_manage.Base.{Option, none, some, if◌then◌else◌}
use vehicle_lifecycle_manage.Base.Lists.{drop}
use vehicle_lifecycle_manage.Base.Text.{Text, text, starts_with, trim, truthy}
use vehicle_lifecycle_manage.Domain.{CallerIdentity}
use vehicle_lifecycle_manage.Domain.Failure.{Failure, http, Result, ok, err}
use vehicle_lifecycle_manage.Http.Request.{
  HeaderValue, absent, single, multiple, Request, Middleware,
}

-- What `jwt.verify` returns or throws.
pub data Verified : Type 0 where
  valid : CallerIdentity → Verified
  expired : Verified
  malformed : Verified
  broken : Failure → Verified

-- `authHeader.slice(7).trim()`, or null where the header is no bearer token or holds none
bearer_token : HeaderValue → Option Text
unfolding starts_with trim
bearer_token absent = none
bearer_token (multiple _) = none
bearer_token (single header) =
    if starts_with (text "Bearer ") header
    then (let token = trim (drop 7 header) in if truthy (some token) then some token else none)
    else none

unfoldable pub extract_access_token : Request → Option Text
unfolding bearer_token
extract_access_token req =
    if truthy req.cookie_access then req.cookie_access else bearer_token req.authorization

unfoldable pub attach : Request → Verified → Result Request
attach req (valid payload) = ok (record req { caller = some payload })
attach req expired = err (http 401 (text "Token expired"))
attach req malformed = err (http 401 (text "Invalid token"))
attach req (broken e) = err e

unfoldable pub require_auth : (Text → Verified) → Middleware
require_auth verify req = elim (extract_access_token req) [
  | none ↦ err (http 401 (text "Authentication required"))
  | some token ↦ attach req (verify token)
]
