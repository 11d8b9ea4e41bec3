-- ===== src/Http/Address.antt =====
-- backend/src/utils/isValidIP.ts and extractRealIP.ts. `isIP` of node:net is a parameter: 0 for a
-- text that is no address, 4 or 6 for one that is.
pub mod Laws
use vehicle_lifecycle_manage.Base.{
  ℕ, Option, none, some, List, [], ◌∷◌, Bool, true, false, ◌&&◌, ◌||◌, not, ◌==◌, if◌then◌else◌,
}
use vehicle_lifecycle_manage.Base.Text.{Text, text, text_eq, trim, before_comma, truthy}
use vehicle_lifecycle_manage.Http.Request.{HeaderValue, absent, single, multiple, Request}

module _ (is_ip : Text → ℕ) where
  unfoldable pub is_valid_ip : Option Text → Bool
  is_valid_ip none = false
  is_valid_ip (some ip) =
      if not (truthy (some ip)) || text_eq ip (text "unknown")
      then false
      else if text_eq ip (text "::1") || text_eq ip (text "127.0.0.1")
      then true
      else not (is_ip ip == 0)

  -- the text of the candidate, if it is an address
  abbrev checked : Text → Option Text
  checked ip = if is_valid_ip (some ip) then some ip else none

  -- a header that must be one text: `cf-connecting-ip` and `x-real-ip`
  unfoldable pub from_header : HeaderValue → Option Text
  from_header absent = none
  from_header (multiple _) = none
  from_header (single ip) = if truthy (some ip) then checked (trim ip) else none

  -- the first entry of `x-forwarded-for`
  unfoldable pub from_forwarded : HeaderValue → Option Text
  from_forwarded absent = none
  from_forwarded (multiple []) = none
  from_forwarded (multiple (raw ∷ _)) = checked (trim (before_comma raw))
  from_forwarded (single raw) =
      if truthy (some raw) then checked (trim (before_comma raw)) else none

  -- `req.ip` and the socket's address
  unfoldable pub from_peer : Option Text → Option Text
  from_peer none = none
  from_peer (some ip) = if truthy (some ip) then checked ip else none

  -- the first source that gives an address
  abbrev or_else : Option Text → Option Text → Option Text
  or_else none b = b
  or_else (some a) b = some a

  unfoldable pub from_proxy : Request → Option Text
  from_proxy req =
      or_else (from_header req.cf_connecting_ip)
        (or_else (from_forwarded req.x_forwarded_for) (from_header req.x_real_ip))

  unfoldable pub extract_real_ip : Request → Option Text
  extract_real_ip req =
      or_else (if req.trust_proxy then from_proxy req else none)
        (or_else (from_peer req.express_ip) (from_peer req.socket_address))
