-- ===== src/Http/Access.antt =====
-- Who gets through the guard chains of the routes.
use vehicle_lifecycle_manage.Base.{
  ◌≡◌, ◌⊎◌, ◌↔◌, refl, ◌∙◌, inl, inr, Option, some, Bool, true, arith, Option-cases,
}
use vehicle_lifecycle_manage.Base.Text.{Text, truthy}
use vehicle_lifecycle_manage.Domain.{CallerIdentity, bank, government, admin, operator, owner, b2c}
use vehicle_lifecycle_manage.Domain.Failure.{ok, ◌>>=◌, >>=-eq-ok}
use vehicle_lifecycle_manage.Http.Request.{Request, Middleware}
use vehicle_lifecycle_manage.Http.Auth.{
  Verified, valid, expired, malformed, broken, extract_access_token, require_auth, attach,
}
use vehicle_lifecycle_manage.Http.Guards.{
  require_entity_type, require_role, require_b2b, require_b2c, require_kyc,
}
use vehicle_lifecycle_manage.Http.Routes.{bank_write_chain, admin_chain, citizen_kyc_chain}

-- The request carries a token that verifies, with this payload.
pub record IsAuthenticated (verify : Text → Verified) (req : Request) (p : CallerIdentity)
    : Type 0 where
  pub token : Text
  pub carried : extract_access_token req ≡ some token
  pub verified : verify token ≡ valid p

attach-eq-ok :
    (req req' : Request) (v : Verified)
    → attach req v ≡ ok req'
    → (p : CallerIdentity) × (v ≡ valid p) × (req' ≡ record req { caller = some p })
unfolding attach
attach-eq-ok req req' (valid p) h = (p, refl, ground arith)
attach-eq-ok req req' expired h = cc
attach-eq-ok req req' malformed h = cc
attach-eq-ok req req' (broken e) h = cc

-- A request that `require_auth` lets through carries a token that verifies, and goes on with the
-- payload of that token as its caller and unchanged otherwise.
pub require_auth-IsAuthenticated :
    (verify : Text → Verified) (req req' : Request)
    → require_auth verify req ≡ ok req'
    → (p : CallerIdentity) × IsAuthenticated verify req p × (req' ≡ record req { caller = some p })
unfolding require_auth
require_auth-IsAuthenticated verify req req' h = elim (Option-cases (extract_access_token req)) [
  | inl missing ↦ cc (rw (missing, require_auth) at h)
  | inr (t, carried) ↦
      let (p, e, same_but_caller) =
        attach-eq-ok req req' (verify t) (rw (carried, require_auth) at h) in
      (p, record { token = t; carried = carried; verified = e }, same_but_caller)
]

-- and the other way round
require_auth_of_IsAuthenticated :
    (verify : Text → Verified) (req : Request) (p : CallerIdentity)
    → IsAuthenticated verify req p
    → require_auth verify req ≡ ok (record req { caller = some p })
unfolding require_auth attach
require_auth_of_IsAuthenticated verify req p a =
    rw (a.carried, require_auth) (rw (a.verified, attach))

-- A chain that begins with `require_auth` is decided by the payload of the token.
require_auth_then_iff :
    (verify : Text → Verified) (k : Middleware) (Allowed : CallerIdentity → Type 0)
    → ((r r' : Request) (p : CallerIdentity)
        → r.caller ≡ some p
        → (k r ≡ ok r') ↔ (Allowed p × (r' ≡ r)))
    → (req req' : Request)
    → ((require_auth verify req >>= k) ≡ ok req') ↔ (
        (p : CallerIdentity) × IsAuthenticated verify req p
        × Allowed p
        × (req' ≡ record req { caller = some p }))
require_auth_then_iff verify k Allowed decided req req' = (forth, back)
  where
    forth :
        (require_auth verify req >>= k) ≡ ok req'
        → (p : CallerIdentity) × IsAuthenticated verify req p
          × Allowed p
          × (req' ≡ record req { caller = some p })
    forth h =
        let (r, passed, e) = >>=-eq-ok (require_auth verify req) k h in
        let (p, a, known) = require_auth-IsAuthenticated verify req r passed in
        let (may, done) = (decided r req' p (rw known refl)).0 e in (p, a, may, done ∙ known)

    back :
        ((p : CallerIdentity) × IsAuthenticated verify req p
          × Allowed p
          × (req' ≡ record req { caller = some p }))
        → (require_auth verify req >>= k) ≡ ok req'
    back (p, a, may, done) =
        rw (require_auth_of_IsAuthenticated verify req p a)
          ((decided (record req { caller = some p }) req' p refl).1 (may, done))

-- An active session of a member of a bank who may write.
abbrev pub MayWriteLoans : CallerIdentity → Type 0
MayWriteLoans p =
    (truthy p.entity_id ≡ true)
    × (p.entity_type ≡ some bank)
    × ((p.role ≡ some admin) ⊎ (p.role ≡ some operator))

abbrev pub MayGovern : CallerIdentity → Type 0
MayGovern p =
    (truthy p.entity_id ≡ true) × (p.entity_type ≡ some government) × (p.role ≡ some owner)

abbrev pub IsVerifiedCitizen : (Text → Option Bool) → CallerIdentity → Type 0
IsVerifiedCitizen is_verified p =
    (p.kind ≡ b2c)
    × (truthy p.wallet ≡ true)
    × (truthy (some p.sub) ≡ true)
    × (is_verified p.sub ≡ some true)

-- The write operations of a bank are open exactly to a request whose token verifies to a payload
-- with an entity id, the entity type BANK and the role ADMIN or OPERATOR; it goes on with that
-- payload as its caller.
pub bank_write_chain_iff :
    (verify : Text → Verified) (req req' : Request)
    → (bank_write_chain verify req ≡ ok req') ↔ (
        (p : CallerIdentity) × IsAuthenticated verify req p
        × MayWriteLoans p
        × (req' ≡ record req { caller = some p }))
unfolding bank_write_chain require_b2b require_entity_type require_role
bank_write_chain_iff verify req req' =
    require_auth_then_iff verify _ MayWriteLoans (λ r r' p c. ground arith) req req'

-- The governance routes are open exactly to a request whose token verifies to a payload with an
-- entity id, the entity type GOVERNMENT and the role OWNER.
pub admin_chain_iff :
    (verify : Text → Verified) (req req' : Request)
    → (admin_chain verify req ≡ ok req') ↔ (
        (p : CallerIdentity) × IsAuthenticated verify req p
        × MayGovern p
        × (req' ≡ record req { caller = some p }))
unfolding admin_chain require_b2b require_entity_type require_role
admin_chain_iff verify req req' =
    require_auth_then_iff verify _ MayGovern (λ r r' p c. ground arith) req req'

-- The vehicle routes of a citizen are open exactly to a request whose token verifies to a payload
-- of type B2C with a wallet and an id, where the account of that id is verified in the database.
pub citizen_kyc_chain_iff :
    (verify : Text → Verified) (is_verified : Text → Option Bool) (req req' : Request)
    → (citizen_kyc_chain verify is_verified req ≡ ok req') ↔ (
        (p : CallerIdentity) × IsAuthenticated verify req p
        × IsVerifiedCitizen is_verified p
        × (req' ≡ record req { caller = some p }))
unfolding citizen_kyc_chain require_b2c require_kyc
citizen_kyc_chain_iff verify is_verified req req' =
    require_auth_then_iff verify _ (IsVerifiedCitizen is_verified) (λ r r' p c. ground arith) req
      req'
