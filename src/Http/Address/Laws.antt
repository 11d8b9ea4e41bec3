-- ===== src/Http/Address/Laws.antt =====
-- Where the address of a client comes from.
use vehicle_lifecycle_manage.Base.{ℕ, ◌≡◌, ◌⊎◌, Option, none, some, [], ◌∷◌, true, arith}
use vehicle_lifecycle_manage.Base.Text.{Text, trim, before_comma}
use vehicle_lifecycle_manage.Http.Request.{HeaderValue, absent, single, multiple, Request}
use vehicle_lifecycle_manage.Http.Address.{
  is_valid_ip, checked, from_header, from_forwarded, from_peer, from_proxy, extract_real_ip,
}

module _ (is_ip : Text → ℕ) where
  checked-eq-some :
      (s ip : Text) → checked is_ip s ≡ some ip → (is_valid_ip is_ip (some ip) ≡ true) × (s ≡ ip)
  checked-eq-some s ip h = ground arith

  from_header-valid :
      (v : HeaderValue) (ip : Text)
      → from_header is_ip v ≡ some ip
      → is_valid_ip is_ip (some ip) ≡ true
  unfolding from_header
  from_header-valid absent ip h = cc
  from_header-valid (multiple _) ip h = cc
  from_header-valid (single s) ip h = ground (arith, checked-eq-some (trim s) ip)

  from_forwarded-valid :
      (v : HeaderValue) (ip : Text)
      → from_forwarded is_ip v ≡ some ip
      → is_valid_ip is_ip (some ip) ≡ true
  unfolding from_forwarded
  from_forwarded-valid absent ip h = cc
  from_forwarded-valid (multiple []) ip h = cc
  from_forwarded-valid (multiple (s ∷ _)) ip h = (checked-eq-some (trim (before_comma s)) ip h).0
  from_forwarded-valid (single s) ip h = ground (arith, checked-eq-some (trim (before_comma s)) ip)

  from_peer-valid :
      (o : Option Text) (ip : Text)
      → from_peer is_ip o ≡ some ip
      → (is_valid_ip is_ip (some ip) ≡ true) × (o ≡ some ip)
  unfolding from_peer
  from_peer-valid none ip h = cc
  from_peer-valid (some s) ip h = ground (arith, checked-eq-some s ip)

  from_proxy-valid :
      (req : Request) (ip : Text)
      → from_proxy is_ip req ≡ some ip
      → is_valid_ip is_ip (some ip) ≡ true
  unfolding from_proxy
  from_proxy-valid req ip h = ground (
    arith,
    from_header-valid req.cf_connecting_ip ip,
    from_forwarded-valid req.x_forwarded_for ip,
    from_header-valid req.x_real_ip ip,
  )

  -- An address that is found is valid. It comes from a header only where the proxy is trusted, and
  -- is otherwise the address that Express or the socket reports.
  pub extract_real_ip_sound :
      (req : Request) (ip : Text)
      → extract_real_ip is_ip req ≡ some ip
      → (is_valid_ip is_ip (some ip) ≡ true)
        × (((req.trust_proxy ≡ true) × (from_proxy is_ip req ≡ some ip))
            ⊎ (req.express_ip ≡ some ip)
            ⊎ (req.socket_address ≡ some ip))
  unfolding extract_real_ip
  extract_real_ip_sound req ip h = ground (
    arith,
    from_proxy-valid req ip,
    from_peer-valid req.express_ip ip,
    from_peer-valid req.socket_address ip,
  )
