-- ===== src/Http/Csrf.antt =====
-- backend/src/middlewares/csrf.middleware.ts, with the constants of backend/src/config/constants.ts.
pub mod Laws
use vehicle_lifecycle_manage.Base.{
  ℕ, Option, none, some, List, [], ◌∷◌, Bool, true, false, ◌||◌, not, ◌==◌, if◌then◌else◌,
}
use mathlib.Core.List.{reverse, tail}
use vehicle_lifecycle_manage.Base.Lists.{length, any}
use vehicle_lifecycle_manage.Base.Text.{Text, text, text_eq, utf8}
use vehicle_lifecycle_manage.Domain.Failure.{http, other, Result, ok, err, ◌>>=◌}
use vehicle_lifecycle_manage.Crypto.{timing_safe_equal}
use vehicle_lifecycle_manage.Http.Request.{
  HeaderValue, absent, single, multiple, Request, Middleware,
}

abbrev pub csrf_token_length : ℕ
csrf_token_length = 32

abbrev csrf_exempt_methods : List Text
csrf_exempt_methods = text "GET" ∷ text "HEAD" ∷ text "OPTIONS" ∷ []

abbrev csrf_exempt_paths : List Text
csrf_exempt_paths =
    text "/api/auth/institution/login"
    ∷ text "/api/auth/citizen/login"
    ∷ text "/api/auth/citizen/login-aadhaar"
    ∷ text "/api/auth/refresh"
    ∷ []

-- `path.replace(/\/$/, '')`
drop_slash_reversed : Text → Text
drop_slash_reversed [] = []
drop_slash_reversed (c ∷ s) = if c == b'/' then s else c ∷ s

unfoldable pub normalized_path : Text → Text
unfolding drop_slash_reversed
normalized_path path =
    if text_eq path (text "/") then text "/" else reverse (drop_slash_reversed (reverse path))

-- The request is one that the check leaves out.
unfoldable pub is_exempt : Request → Bool
is_exempt req =
    any (text_eq req.method) csrf_exempt_methods
    || any (text_eq (normalized_path req.path)) csrf_exempt_paths

abbrev token_missing : Result Request
token_missing = err (http 403 (text "CSRF token missing"))

abbrev token_invalid : Result Request
token_invalid = err (http 403 (text "CSRF token invalid"))

unfoldable pub check_tokens : Request → Option Text → HeaderValue → Result Request
unfolding timing_safe_equal
check_tokens req none _ = token_missing
check_tokens req (some _) absent = token_missing
check_tokens req (some _) (multiple _) = token_missing
check_tokens req (some cookie) (single header) =
    if (length cookie == 0) || (length header == 0)
    then token_missing
    else if not (length cookie == csrf_token_length) || not (length header == csrf_token_length)
    then token_invalid
    else (timing_safe_equal (utf8 cookie) (utf8 header) >>= λ equal.
        if equal then ok req else token_invalid)

unfoldable pub csrf_protection : Bool → Middleware
csrf_protection production req =
    if not production
    then ok req
    else if is_exempt req
    then ok req
    else check_tokens req req.cookie_csrf req.csrf_header
