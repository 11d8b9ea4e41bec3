-- ===== src/Accounts/Tokens.antt =====
-- backend/src/modules/token: the sessions behind the refresh tokens, and the access tokens that are
-- issued for them. An access token stands for its payload, since jwt.sign only seals it; random
-- tokens are arguments.
pub mod Laws
use vehicle_lifecycle_manage.Base.{
  ℕ, suc, ◌+◌, ◌*◌, ◌/◌, Option, none, some, List, [], ◌∷◌, ◌++◌, Bool, false, ◌==◌, ◌&&◌, ltb,
  if◌then◌else◌, is_none,
}
use vehicle_lifecycle_manage.Base.Lists.{any}
use vehicle_lifecycle_manage.Base.Text.{Text}
use vehicle_lifecycle_manage.Domain.{EntityType, MemberRole, AuthType, b2b, b2c}
use vehicle_lifecycle_manage.Domain.Failure.{Result, ok, err}
use vehicle_lifecycle_manage.Store.Rows.{User, B2bEntity, B2bMember, RefreshToken}
use vehicle_lifecycle_manage.Store.Table.{find?, update_all}
use vehicle_lifecycle_manage.Store.World.{
  World, Action, pure, gets, modify, unique_violation, ◌>>=◌, ◌>>◌,
}

-- The environment variables of the tokens, in seconds, and the cryptography.
pub record Keys : Type 0 where
  pub access_ttl : ℕ
  pub refresh_ttl : ℕ
  -- `crypto.createHash('sha256')`, of the text of a token or of a code
  pub sha256 : Text → ℕ
  -- `bcrypt.compare(password, hash)`
  pub compare : Text → Text → Bool
  -- `bcrypt.hash`, with the salt that it draws
  pub hash : ℕ → Text → Text
  -- `verifyMessage(message, signature)`: the address of the signer
  pub signer : Text → Text → Result Text
  -- the mail with a one-time code
  pub send_otp : Text → Text → Result (Unit {0})

-- The payload of an access token: `CallerIdentity`, with the keys of rows as in the tables.
pub record Claims : Type 0 where
  pub sub : ℕ
  pub kind : AuthType
  pub email : Option Text
  pub entity_id : Option ℕ
  pub entity_type : Option EntityType
  pub role : Option MemberRole
  pub wallet : Option Text
  pub jti : ℕ
  pub iat : ℕ
  pub exp : ℕ

-- What a sign-in hands out: the access token and the raw refresh token.
pub record TokenPair : Type 0 where
  pub access : Claims
  pub refresh : Text

abbrev pub has_jti : ℕ → RefreshToken → Bool
has_jti jti t = t.jti == jti

-- `revokedAt: null`
abbrev pub is_open : RefreshToken → Bool
is_open t = is_none t.revoked_at

-- `where: { memberId }` on a nullable column
abbrev pub points_to : ℕ → Option ℕ → Bool
points_to id none = false
points_to id (some k) = k == id

abbrev pub revoked_by : ℕ → RefreshToken → RefreshToken
revoked_by now t = record t { revoked_at = some now }

-- `createRefreshToken`, without the address and the device of the request
unfoldable pub create_refresh_token : ℕ → Option ℕ → Option ℕ → ℕ → Action (Unit {0})
create_refresh_token jti user_id member_id expires_at w =
    if any (has_jti jti) w.sessions then (err unique_violation, w) else (
      ok tt,
      record w {
        sessions =
            w.sessions
            ++ record {
              id = w.next_id;
              jti = jti;
              user_id = user_id;
              member_id = member_id;
              expires_at = expires_at;
              revoked_at = none;
            }
              ∷ [];
        next_id = suc w.next_id;
      },
    )

unfoldable pub find_valid_token : ℕ → World → Option RefreshToken
find_valid_token jti w =
    find? (λ t. has_jti jti t && is_open t && ltb w.now t.expires_at) w.sessions

unfoldable pub revoke_token : ℕ → Action (Unit {0})
revoke_token jti = modify λ w. record w {
  sessions = update_all (λ t. has_jti jti t && is_open t) (revoked_by w.now) w.sessions;
}

unfoldable pub revoke_all_member_tokens : ℕ → Action (Unit {0})
revoke_all_member_tokens id = modify λ w. record w {
  sessions = update_all (λ t. points_to id t.member_id && is_open t) (revoked_by w.now) w.sessions;
}

abbrev pub member_with : ℕ → B2bMember → Bool
member_with id m = m.id == id

abbrev pub entity_with : ℕ → B2bEntity → Bool
entity_with id e = e.id == id

abbrev pub user_with : ℕ → User → Bool
user_with id u = u.id == id

-- `member.walletAddress || undefined`
abbrev pub present : Option Text → Option Text
present none = none
present (some []) = none
present (some (c ∷ s)) = some (c ∷ s)

module _ (keys : Keys) where
  -- the payload for a member of an institution, at the time `now` in milliseconds
  abbrev pub member_claims : B2bMember → B2bEntity → ℕ → ℕ → Claims
  member_claims member entity jti now = record {
    sub = member.id;
    kind = b2b;
    email = some member.email;
    entity_id = some member.entity_id;
    entity_type = some entity.kind;
    role = some member.role;
    wallet = present member.wallet_address;
    jti = jti;
    iat = now / 1000;
    exp = now / 1000 + keys.access_ttl;
  }

  abbrev pub citizen_claims : User → ℕ → ℕ → Claims
  citizen_claims user jti now = record {
    sub = user.id;
    kind = b2c;
    email = none;
    entity_id = none;
    entity_type = none;
    role = none;
    wallet = some user.wallet_address;
    jti = jti;
    iat = now / 1000;
    exp = now / 1000 + keys.access_ttl;
  }

  unfoldable pub issue_token_pair_institution : B2bMember → B2bEntity → Text → Action TokenPair
  unfolding create_refresh_token
  issue_token_pair_institution member entity raw = do
    now ← gets (λ w. w.now)
    create_refresh_token (keys.sha256 raw) none (some member.id) (now + keys.refresh_ttl * 1000)
    pure (record { access = member_claims member entity (keys.sha256 raw) now; refresh = raw })

  unfoldable pub issue_token_pair_citizen : User → Text → Action TokenPair
  unfolding create_refresh_token
  issue_token_pair_citizen user raw = do
    now ← gets (λ w. w.now)
    create_refresh_token (keys.sha256 raw) (some user.id) none (now + keys.refresh_ttl * 1000)
    pure (record { access = citizen_claims user (keys.sha256 raw) now; refresh = raw })

  -- `session.member && session.member.entity`, with the relations of the row
  unfoldable pub session_member : World → RefreshToken → Option (B2bMember × B2bEntity)
  session_member w t = elim t.member_id [
    | none ↦ none
    | some id ↦ elim (find? (member_with id) w.members) [
      | none ↦ none
      | some m ↦ elim (find? (entity_with m.entity_id) w.entities) [
        | none ↦ none
        | some e ↦ some (m, e)
      ]
    ]
  ]

  unfoldable pub session_user : World → RefreshToken → Option User
  session_user w t = elim t.user_id [ none ↦ none | some id ↦ find? (user_with id) w.users ]

  unfoldable pub claims_of : World → RefreshToken → Option Claims
  unfolding session_member session_user
  claims_of w t = elim (session_member w t) [
    | some (m, e) ↦ some (member_claims m e t.jti w.now)
    | none ↦ elim (session_user w t) [ some u ↦ some (citizen_claims u t.jti w.now) | none ↦ none ]
  ]

  -- `refreshAccessToken` only reads.
  unfoldable pub refresh_access_token : Text → World → Option Claims
  unfolding find_valid_token claims_of
  refresh_access_token raw w = elim (find_valid_token (keys.sha256 raw) w) [
    | none ↦ none
    | some t ↦ claims_of w t
  ]
