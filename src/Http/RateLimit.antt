-- ===== src/Http/RateLimit.antt =====
-- The key of backend/src/middlewares/rate-limit/index.ts, under which requests are counted.
pub mod Laws
use vehicle_lifecycle_manage.Base.{ℕ, Option, none, some, ◌++◌, if◌then◌else◌}
use vehicle_lifecycle_manage.Base.Text.{Text, text, truthy}
use vehicle_lifecycle_manage.Domain.{CallerIdentity}
use vehicle_lifecycle_manage.Http.Request.{Request}
use vehicle_lifecycle_manage.Http.Address.{extract_real_ip}

abbrev address_key : Option Text → Text
address_key none = text "gateway:unknown_ip"
address_key (some ip) = text "gateway:ip:" ++ ip

unfoldable pub key_for : Option Text → Option CallerIdentity → Text
key_for ip none = address_key ip
key_for ip (some caller) =
    if truthy (some caller.sub) then text "gateway:sub:" ++ caller.sub else address_key ip

unfoldable pub key_generator : (Text → ℕ) → Request → Text
key_generator is_ip req = key_for (extract_real_ip is_ip req) req.caller

-- the key of a service's own limiter
unfoldable pub service_key : (Text → ℕ) → Text → Request → Text
service_key is_ip service req = service ++ text ":" ++ key_generator is_ip req
