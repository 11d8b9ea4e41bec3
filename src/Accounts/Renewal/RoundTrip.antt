-- ===== src/Accounts/Renewal/RoundTrip.antt =====
-- A refresh after a login, and after the member was deactivated.
use vehicle_lifecycle_manage.Base.{
  ℕ, ◌≡◌, ◌<◌, ◌+◌, ◌*◌, ◌/◌, refl, subst, some, List, [], ◌∷◌, false, ◌&&◌, arith, ltb,
}
use vehicle_lifecycle_manage.Base.Lists.{any}
use vehicle_lifecycle_manage.Base.Text.{Text}
use vehicle_lifecycle_manage.Domain.Failure.{ok}
use vehicle_lifecycle_manage.Store.Rows.{B2bEntity, B2bMember, RefreshToken}
use vehicle_lifecycle_manage.Store.Table.{find?, find?-append_new}
use vehicle_lifecycle_manage.Store.Keyed.{IsKeyed, find?-key}
use vehicle_lifecycle_manage.Store.World.{World}
use vehicle_lifecycle_manage.Accounts.Tokens.{
  Keys, Claims, TokenPair, has_jti, is_open, member_with, entity_with, member_claims,
  refresh_access_token, claims_of,
}
use vehicle_lifecycle_manage.Accounts.Auth.{login_institution}
use vehicle_lifecycle_manage.Accounts.Renewal.{
  new_session, with_session, SignsIn, login_institution-SignsIn,
}

-- The same rights, issued at another time.
abbrev pub renewed : Keys → Claims → ℕ → Claims
renewed keys c now = record c { iat = now / 1000; exp = now / 1000 + keys.access_ttl }

not_valid :
    (jti now : ℕ) (ts : List RefreshToken)
    → any (has_jti jti) ts ≡ false
    → any (λ t. has_jti jti t && is_open t && ltb now t.expires_at) ts ≡ false
not_valid jti now [] h = refl
not_valid jti now (t ∷ ts) h = ground (arith, not_valid jti now ts)

claims_of-member :
    (keys : Keys) (w : World) (t : RefreshToken) (m : B2bMember) (e : B2bEntity)
    → t.member_id ≡ some m.id
    → find? (member_with m.id) w.members ≡ some m
    → find? (entity_with m.entity_id) w.entities ≡ some e
    → claims_of keys w t ≡ some (member_claims keys m e t.jti w.now)
unfolding claims_of
claims_of-member keys w t m e of member entity = rw (claims_of, of, member, entity) refl

module _ (keys : Keys) (raw : Text) (w : World) (later : ℕ) where
  refreshes :
      (m : B2bMember) (e : B2bEntity)
      → later < w.now + keys.refresh_ttl * 1000
      → any (has_jti (keys.sha256 raw)) w.sessions ≡ false
      → find? (member_with m.id) w.members ≡ some m
      → find? (entity_with m.entity_id) w.entities ≡ some e
      → refresh_access_token keys raw
          (record (with_session w (keys.sha256 raw) m.id keys.refresh_ttl) { now = later })
        ≡ some (member_claims keys m e (keys.sha256 raw) later)
  unfolding refresh_access_token
  refreshes m e soon fresh member entity =
      rw
        (
          refresh_access_token,
          find?-append_new (λ t. has_jti (keys.sha256 raw) t && is_open t && ltb later t.expires_at)
              w.sessions (new_session w (keys.sha256 raw) m.id keys.refresh_ttl)
              (not_valid (keys.sha256 raw) later w.sessions fresh) (ground arith),
        )
        (claims_of-member keys
          (record (with_session w (keys.sha256 raw) m.id keys.refresh_ttl) { now = later })
          (new_session w (keys.sha256 raw) m.id keys.refresh_ttl) m e refl member entity)

  -- Where the members have different keys, the refresh token of a member's login yields, at any
  -- time before it expires, an access token with the rights that the login gave, issued anew.
  pub refresh_after_login :
      (email password : Text) (pair : TokenPair) (v : World)
      → IsKeyed (λ (m : B2bMember). m.id) w.members
      → login_institution keys email password raw w ≡ (ok pair, v)
      → later < w.now + keys.refresh_ttl * 1000
      → refresh_access_token keys raw (record v { now = later })
        ≡ some (renewed keys pair.access later)
  refresh_after_login email password pair v keyed login soon =
      let (m, e, found, _, _, of, _, fresh, same, after) =
        subst (SignsIn keys w email password raw) login
          (login_institution-SignsIn keys email password raw w) in
      rw (after, same) (refreshes m e soon fresh (find?-key _ _ w.members m keyed found) of)
