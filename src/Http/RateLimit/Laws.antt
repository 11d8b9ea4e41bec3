-- ===== src/Http/RateLimit/Laws.antt =====
-- Callers that are counted apart.
use vehicle_lifecycle_manage.Base.{ℕ, ◌≡◌, Option, none, some, [], ◌∷◌, ◌++◌, arith}
use vehicle_lifecycle_manage.Base.Text.{Text, text}
use vehicle_lifecycle_manage.Http.Request.{Request}
use vehicle_lifecycle_manage.Http.Address.{extract_real_ip}
use vehicle_lifecycle_manage.Http.RateLimit.{key_for, key_generator}

-- The id under which a request is authenticated, where it is not empty.
abbrev pub authenticated_id : Request → Option Text
authenticated_id req = elim req.caller [
  | none ↦ none
  | some c ↦ elim c.sub [ [] ↦ none | x ∷ s ↦ some (x ∷ s) ]
]

abbrev prefixed : Option Text → Option Text → Text
prefixed ip none = elim ip [ none ↦ text "gateway:unknown_ip" | some a ↦ text "gateway:ip:" ++ a ]
prefixed ip (some sub) = text "gateway:sub:" ++ sub

key-prefixed :
    (is_ip : Text → ℕ) (req : Request)
    → key_generator is_ip req ≡ prefixed (extract_real_ip is_ip req) (authenticated_id req)
unfolding key_generator key_for
key-prefixed is_ip req = ground arith

prefixed-injective :
    (a b : Option Text) (s t : Option Text)
    → prefixed a s ≡ prefixed b t
    → (s ≡ t) × ((s ≡ none) → a ≡ b)
prefixed-injective none none none none h = ground arith
prefixed-injective none (some y) none none h = ground arith
prefixed-injective (some x) none none none h = ground arith
prefixed-injective (some x) (some y) none none h = ground arith
prefixed-injective none b none (some t) h = ground arith
prefixed-injective (some x) b none (some t) h = ground arith
prefixed-injective a none (some s) none h = ground arith
prefixed-injective a (some y) (some s) none h = ground arith
prefixed-injective a b (some s) (some t) h = ground arith

-- Two requests are counted together only if they are authenticated under the same id, or neither
-- is and they have the same client address.
pub key_generator-injective :
    (is_ip : Text → ℕ) (r s : Request)
    → key_generator is_ip r ≡ key_generator is_ip s
    → (authenticated_id r ≡ authenticated_id s)
      × ((authenticated_id r ≡ none) → extract_real_ip is_ip r ≡ extract_real_ip is_ip s)
key_generator-injective is_ip r s h =
    prefixed-injective (extract_real_ip is_ip r) (extract_real_ip is_ip s) (authenticated_id r)
      (authenticated_id s) (rw (← key-prefixed is_ip r, ← key-prefixed is_ip s) h)
