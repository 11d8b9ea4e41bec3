-- ===== src/Accounts/Auth/Laws.antt =====
-- What the handlers of signing in keep and do.
use vehicle_lifecycle_manage.Base.{
  ℕ, ◌≡◌, ◌+◌, ◌*◌, Option, none, some, ◌++◌, arith, Bool-cases, inl, inr,
}
use vehicle_lifecycle_manage.Base.Text.{Text, text, text_eq, to_lower}
use vehicle_lifecycle_manage.Store.Rows.{User, B2bEntity, B2bMember}
use vehicle_lifecycle_manage.Store.World.{World}
use vehicle_lifecycle_manage.Store.Keeps.{Keeps, bind-Keeps, pure_after-Keeps}
use vehicle_lifecycle_manage.Domain.Failure.{Result, Result-cases}
use vehicle_lifecycle_manage.Accounts.Tokens.{
  TokenPair, revoke_token, revoke_all_member_tokens, Keys, create_refresh_token,
  issue_token_pair_institution, issue_token_pair_citizen,
}
use vehicle_lifecycle_manage.Accounts.Auth.{
  login_institution, login_institution_route, request_password_reset, reset_password, login_citizen,
  login_citizen_aadhaar, sign_in_wallet, includes, find_or_create_citizen, logout, unless_http,
}

module _ (keys : Keys) (P : World → Type 0)
    (creates : (k : ℕ) (user member : Option ℕ) (expires : ℕ)
      → Keeps P (create_refresh_token k user member expires)) where
  issue_institution-Keeps :
      (m : B2bMember) (e : B2bEntity) (raw : Text)
      → Keeps P (issue_token_pair_institution keys m e raw)
  unfolding issue_token_pair_institution
  issue_institution-Keeps m e raw w c =
      pure_after-Keeps P
        (create_refresh_token (keys.sha256 raw) none (some m.id) (w.now + keys.refresh_ttl * 1000))
        _ (creates _ _ _ _) w c

  issue_citizen-Keeps : (u : User) (raw : Text) → Keeps P (issue_token_pair_citizen keys u raw)
  unfolding issue_token_pair_citizen
  issue_citizen-Keeps u raw w c =
      pure_after-Keeps P
        (create_refresh_token (keys.sha256 raw) (some u.id) none (w.now + keys.refresh_ttl * 1000))
        _ (creates _ _ _ _) w c

  login_institution-Keeps :
      (email password raw : Text) → Keeps P (login_institution keys email password raw)
  unfolding login_institution
  login_institution-Keeps email password raw w c = grind (arith, issue_institution-Keeps)

  module _ (ignores : (w w' : World) → w'.sessions ≡ w.sessions → P w → P w')
      (revokes : (k : ℕ) → Keeps P (revoke_token k))
      (revokes_all : (id : ℕ) → Keeps P (revoke_all_member_tokens id)) where
    pub login_institution_route-Keeps :
        (email password raw : Text) (salt : ℕ)
        → Keeps P (login_institution_route keys email password raw salt)
    unfolding login_institution_route
    login_institution_route-Keeps email password raw salt w c =
        grind (arith, login_institution-Keeps, ignores w)

    pub request_password_reset-Keeps :
        (email otp : Text) → Keeps P (request_password_reset keys email otp)
    unfolding request_password_reset
    request_password_reset-Keeps email otp w c = grind (arith, ignores w)

    find_or_create_citizen-Keeps : (wallet : Text) → Keeps P (find_or_create_citizen wallet)
    unfolding find_or_create_citizen
    find_or_create_citizen-Keeps wallet w c = grind (arith, ignores w)

    pub login_citizen_aadhaar-Keeps :
        (own_tid : ℕ) (document raw : Text)
        → Keeps P (login_citizen_aadhaar keys own_tid document raw)
    unfolding login_citizen_aadhaar
    login_citizen_aadhaar-Keeps own_tid document raw w c = grind (arith, issue_citizen-Keeps)

    pub logout-Keeps : (cookie : Option Text) → Keeps P (logout keys cookie)
    unfolding logout
    logout-Keeps none w c = c
    logout-Keeps (some raw) w c = revokes (keys.sha256 raw) w c

    unless_http-same : (x : Result TokenPair × World) → (unless_http x).1 ≡ x.1
    unfolding unless_http
    unless_http-same x = ground arith

    sign_in_wallet-Keeps :
        (address wallet message nonce raw : Text)
        → Keeps P (sign_in_wallet keys address wallet message nonce raw)
    unfolding sign_in_wallet
    sign_in_wallet-Keeps address wallet message nonce raw w c =
        elim (Bool-cases (text_eq (to_lower address) (to_lower wallet))) [
          | inr other ↦ rw other c
          | inl same ↦ elim (Bool-cases (includes (text "Nonce: " ++ nonce) message)) [
            | inr missing ↦ rw (same, missing) c
            | inl present ↦
                rw (same, present)
                  (bind-Keeps P (find_or_create_citizen wallet)
                    (λ user. issue_token_pair_citizen keys user raw)
                    (find_or_create_citizen-Keeps wallet) (λ user. issue_citizen-Keeps user raw) w
                    c)
          ]
        ]

    pub login_citizen-Keeps :
        (wallet message signature nonce raw : Text)
        → Keeps P (login_citizen keys wallet message signature nonce raw)
    unfolding login_citizen
    login_citizen-Keeps wallet message signature nonce raw w c =
        elim (Result-cases (keys.signer message signature)) [
          | inl (_, failed) ↦ rw (failed, login_citizen) c
          | inr (address, signed) ↦
              rw
                (
                  signed,
                  login_citizen,
                  unless_http-same (sign_in_wallet keys address wallet message nonce raw w),
                )
                (sign_in_wallet-Keeps address wallet message nonce raw w c)
        ]

    pub reset_password-Keeps :
        (email otp new_password : Text) (salt : ℕ)
        → Keeps P (reset_password keys email otp new_password salt)
    unfolding reset_password
    reset_password-Keeps email otp new_password salt w c = grind (arith, ignores w, revokes_all)
