-- ===== src/Accounts/Renewal.antt =====
-- Signing in and renewing an access token.
pub mod RoundTrip
use vehicle_lifecycle_manage.Base.{
  ℕ, suc, ◌≡◌, ◌<◌, ◌+◌, ◌*◌, ◌/◌, refl, sym, subst, Option, none, some, List, [], ◌∷◌, ◌++◌, Bool,
  true, false, ◌==◌, ◌&&◌, not, arith, Option-cases, Bool-cases, inl, inr, ==_iff, ==_refl, ltb,
}
use vehicle_lifecycle_manage.Base.Lists.{any}
use vehicle_lifecycle_manage.Base.Text.{Text, text}
use vehicle_lifecycle_manage.Domain.Failure.{http, Result, ok, err}
use vehicle_lifecycle_manage.Store.Rows.{B2bEntity, B2bMember, RefreshToken}
use vehicle_lifecycle_manage.Store.Table.{find?, find?-append_new}
use vehicle_lifecycle_manage.Store.Keyed.{IsKeyed, find?-key}
use vehicle_lifecycle_manage.Store.World.{World, unique_violation}
use vehicle_lifecycle_manage.Accounts.Tokens.{
  Keys, Claims, TokenPair, has_jti, is_open, member_with, entity_with, member_claims,
  refresh_access_token,
}
use vehicle_lifecycle_manage.Accounts.Auth.{login_institution, with_email, if_active}

-- The world with a new session of a member.
abbrev pub new_session : World → ℕ → ℕ → ℕ → RefreshToken
new_session w jti member ttl = record {
  id = w.next_id;
  jti = jti;
  user_id = none;
  member_id = some member;
  expires_at = w.now + ttl * 1000;
  revoked_at = none;
}

abbrev pub with_session : World → ℕ → ℕ → ℕ → World
with_session w jti member ttl = record w {
  sessions = w.sessions ++ new_session w jti member ttl ∷ [];
  next_id = suc w.next_id;
}

-- How the login of a member may end.
abbrev pub SignsIn : Keys → World → Text → Text → Text → Result TokenPair × World → Type 0
SignsIn keys w email password raw (ok pair, v) =
    (m : B2bMember) × (e : B2bEntity) × (find? (with_email email) w.members ≡ some m)
    × (m.is_active ≡ true)
    × (keys.compare password m.password_hash ≡ true)
    × (find? (entity_with m.entity_id) w.entities ≡ some e)
    × (e.is_active ≡ true)
    × (any (has_jti (keys.sha256 raw)) w.sessions ≡ false)
    × (pair ≡ record { access = member_claims keys m e (keys.sha256 raw) w.now; refresh = raw })
    × (v ≡ with_session w (keys.sha256 raw) m.id keys.refresh_ttl)
SignsIn keys w email password raw (err _, v) = v ≡ w

if_active-some :
    (o : Option B2bMember) (m : B2bMember)
    → if_active o ≡ some m
    → (o ≡ some m) × (m.is_active ≡ true)
if_active-some none m h = cc
if_active-some (some x) m h = ground arith

module _ (keys : Keys) (email password raw : Text) (w : World) where
  from_outcome :
      (x : Result TokenPair × World)
      → login_institution keys email password raw w ≡ x
      → SignsIn keys w email password raw x
      → SignsIn keys w email password raw (login_institution keys email password raw w)
  from_outcome x e s = subst (SignsIn keys w email password raw) (sym e) s

  with_entity :
      (m : B2bMember) (e : B2bEntity)
      → if_active (find? (with_email email) w.members) ≡ some m
      → keys.compare password m.password_hash ≡ true
      → find? (entity_with m.entity_id) w.entities ≡ some e
      → e.is_active ≡ true
      → SignsIn keys w email password raw (login_institution keys email password raw w)
  unfolding login_institution
  with_entity m e active right of acts =
      let (found, is_active) = if_active-some (find? (with_email email) w.members) m active in
      elim (Bool-cases (any (has_jti (keys.sha256 raw)) w.sessions)) [
        | inl taken ↦ from_outcome (err unique_violation, w) (ground arith) refl
        | inr fresh ↦
            from_outcome
              (
                ok (record {
                  access = member_claims keys m e (keys.sha256 raw) w.now;
                  refresh = raw;
                }),
                with_session w (keys.sha256 raw) m.id keys.refresh_ttl,
              )
              (ground arith) (m, e, found, is_active, right, of, acts, fresh, refl, refl)
      ]

  with_member :
      (m : B2bMember)
      → if_active (find? (with_email email) w.members) ≡ some m
      → keys.compare password m.password_hash ≡ true
      → SignsIn keys w email password raw (login_institution keys email password raw w)
  unfolding login_institution
  with_member m active right = elim (Option-cases (find? (entity_with m.entity_id) w.entities)) [
    | inl missing ↦
        from_outcome
          (err (http 400 (text "Account configuration error: No associated entity found")), w)
          (ground arith) refl
    | inr (e, of) ↦ elim (Bool-cases e.is_active) [
      | inl acts ↦ with_entity m e active right of acts
      | inr stopped ↦
          from_outcome
            (
              err (
                  http 403
                    (text "Institutional entity account is currently suspended or inactive")),
              w,
            )
            (ground arith) refl
    ]
  ]

  -- A login of a member succeeds only for an active member of an active institution, with the right
  -- password. It then hands out the member's rights under a fresh session, and adds just that
  -- session; a failure changes nothing.
  pub login_institution-SignsIn :
      SignsIn keys w email password raw (login_institution keys email password raw w)
  unfolding login_institution
  login_institution-SignsIn = elim (Option-cases (if_active (find? (with_email email) w.members))) [
    | inl missing ↦
        from_outcome (err (http 401 (text "Invalid credentials or inactive account")), w)
          (ground arith) refl
    | inr (m, active) ↦ elim (Bool-cases (keys.compare password m.password_hash)) [
      | inl right ↦ with_member m active right
      | inr wrong ↦
          from_outcome (err (http 401 (text "Invalid credentials")), w) (ground arith) refl
    ]
  ]
