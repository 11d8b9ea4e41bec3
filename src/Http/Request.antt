-- ===== src/Http/Request.antt =====
-- The parts of an Express request that the middlewares of backend/src/middlewares read. A
-- middleware that calls `next()` returns the request, changed where it attached something; one
-- that throws, or that calls `next(error)`, returns the error, as `asyncHandler` and Express do.
use vehicle_lifecycle_manage.Base.{Option, List, [], ◌∷◌, Bool}
use vehicle_lifecycle_manage.Base.Text.{Text}
use vehicle_lifecycle_manage.Domain.{CallerIdentity}
use vehicle_lifecycle_manage.Domain.Failure.{Result, ok, ◌>>=◌}

-- A header is missing, one text, or several.
pub data HeaderValue : Type 0 where
  absent : HeaderValue
  single : Text → HeaderValue
  multiple : List Text → HeaderValue

pub record Request : Type 0 where
  pub method : Text
  pub path : Text
  pub cookie_access : Option Text
  pub cookie_csrf : Option Text
  pub authorization : HeaderValue
  pub csrf_header : HeaderValue
  pub cf_connecting_ip : HeaderValue
  pub x_forwarded_for : HeaderValue
  pub x_real_ip : HeaderValue
  pub express_ip : Option Text
  pub socket_address : Option Text
  pub trust_proxy : Bool
  pub caller : Option CallerIdentity

abbrev pub Middleware : Type 0
Middleware = Request → Result Request

-- The handlers of a route run in order, until one of them fails.
unfoldable pub run_chain : List Middleware → Middleware
run_chain [] req = ok req
run_chain (m ∷ ms) req = m req >>= run_chain ms
