-- ===== src/Accounts/SignOut.antt =====
-- Sessions end: after a logout and after a reset of the password.
use vehicle_lifecycle_manage.Base.{
  ℕ, ◌≡◌, refl, sym, subst, Option, none, some, true, ◌==◌, ◌&&◌, arith, Option-cases, Bool-cases,
  inl, inr, ==_iff,
}
use vehicle_lifecycle_manage.Base.Lists.{any}
use vehicle_lifecycle_manage.Base.Text.{Text, text}
use vehicle_lifecycle_manage.Domain.Failure.{http, Result, ok, err}
use vehicle_lifecycle_manage.Store.Rows.{B2bMember, OtpCode}
use vehicle_lifecycle_manage.Store.Table.{find?, find_last?, update_first, update_all}
use vehicle_lifecycle_manage.Store.World.{World}
use vehicle_lifecycle_manage.Accounts.Tokens.{
  Keys, has_jti, is_open, points_to, member_with, revoked_by, refresh_access_token,
}
use vehicle_lifecycle_manage.Accounts.Tokens.Laws.{
  Closed, create_refresh_token-Closed, revoke_token-Closed, revoke_all-Closed, revoke_token-closes,
  refresh-Closed,
}
use vehicle_lifecycle_manage.Accounts.Auth.{
  reset_password, refresh, logout, with_email, if_active, sets_password, is_valid_otp, otp_with,
  used_at_time,
}
use vehicle_lifecycle_manage.Accounts.Auth.Laws.{
  login_institution_route-Keeps, login_citizen-Keeps, login_citizen_aadhaar-Keeps,
  request_password_reset-Keeps, reset_password-Keeps, logout-Keeps,
}
use vehicle_lifecycle_manage.Accounts.Members.Laws.{
  create_member-sessions, update_member_role-sessions, toggle_member_status-sessions,
  force_reset_password-sessions, change_password-sessions,
}
use vehicle_lifecycle_manage.Accounts.Machine.{Step, Reachable}

module _ (keys : Keys) where
  refresh_reads : (cookie : Option Text) (w : World) → (refresh keys cookie w).1 ≡ w
  unfolding refresh
  refresh_reads cookie w = ground arith

  module _ (jti : ℕ) where
    ignores : (w w' : World) → w'.sessions ≡ w.sessions → Closed jti w → Closed jti w'
    ignores w w' same c = rw same c

    Step-Closed : {w v : World} → Step keys w v → Closed jti w → Closed jti v
    Step-Closed {w} (Step.institution_login e p r s) c =
        login_institution_route-Keeps keys (Closed jti) (create_refresh_token-Closed jti) ignores
          (revoke_token-Closed jti) (revoke_all-Closed jti) e p r s w c
    Step-Closed {w} (Step.citizen_login a m s n r) c =
        login_citizen-Keeps keys (Closed jti) (create_refresh_token-Closed jti) ignores
          (revoke_token-Closed jti) (revoke_all-Closed jti) a m s n r w c
    Step-Closed {w} (Step.aadhaar_login t d r) c =
        login_citizen_aadhaar-Keeps keys (Closed jti) (create_refresh_token-Closed jti) ignores
          (revoke_token-Closed jti) (revoke_all-Closed jti) t d r w c
    Step-Closed {w} (Step.forgot_password e o) c =
        request_password_reset-Keeps keys (Closed jti) (create_refresh_token-Closed jti) ignores
          (revoke_token-Closed jti) (revoke_all-Closed jti) e o w c
    Step-Closed {w} (Step.password_reset e o p s) c =
        reset_password-Keeps keys (Closed jti) (create_refresh_token-Closed jti) ignores
          (revoke_token-Closed jti) (revoke_all-Closed jti) e o p s w c
    Step-Closed {w} (Step.token_refresh k) c = rw (refresh_reads k w) c
    Step-Closed {w} (Step.sign_out k) c =
        logout-Keeps keys (Closed jti) (create_refresh_token-Closed jti) ignores
          (revoke_token-Closed jti) (revoke_all-Closed jti) k w c
    Step-Closed {w} (Step.member_creation e r t s k) c =
        rw (create_member-sessions keys e r t s k w) c
    Step-Closed {w} (Step.role_change i r k) c = rw (update_member_role-sessions keys i r k w) c
    Step-Closed {w} (Step.status_change i a k) c = rw (toggle_member_status-sessions keys i a k w) c
    Step-Closed {w} (Step.forced_reset i t s k) c =
        rw (force_reset_password-sessions keys i t s k w) c
    Step-Closed {w} (Step.password_change o n s i) c =
        rw (change_password-sessions keys o n s i w) c
    Step-Closed (Step.time_passes t) c = c

    Reachable-Closed : {w v : World} → Reachable keys w v → Closed jti w → Closed jti v
    Reachable-Closed Reachable.here c = c
    Reachable-Closed (Reachable.next r s) c = Step-Closed s (Reachable-Closed r c)

  logout-closes :
      (raw : Text) (w : World)
      → any (has_jti (keys.sha256 raw)) w.sessions ≡ true
      → Closed (keys.sha256 raw) (logout keys (some raw) w).1
  unfolding logout
  logout-closes raw w known = revoke_token-closes (keys.sha256 raw) w known

  -- Once the holder of an issued refresh token has logged out, that token yields no access token
  -- in any state that logins, resets, refreshes, logouts, changes of the staff and the passing of
  -- time can lead to.
  pub logout_is_final :
      (raw : Text) (w v : World)
      → any (has_jti (keys.sha256 raw)) w.sessions ≡ true
      → Reachable keys (logout keys (some raw) w).1 v
      → refresh_access_token keys raw v ≡ none
  logout_is_final raw w v known later =
      refresh-Closed keys raw v (Reachable-Closed _ later (logout-closes raw w known))

-- The password is set, the code used up, and every open session of the member revoked.
abbrev pub signed_out : World → B2bMember → OtpCode → Text → World
signed_out w m o hash = record w {
  members = update_first (member_with m.id) (sets_password hash) w.members;
  otps = update_first (otp_with o.id) (used_at_time w.now) w.otps;
  sessions =
      update_all (λ t. points_to m.id t.member_id && is_open t) (revoked_by w.now) w.sessions;
}

-- How a reset may end: with the password of an active member set, the code used up, and every open
-- session of the member revoked; or with an error and nothing changed.
abbrev pub Resets : Keys → World → Text → Text → Text → ℕ → Result (Unit {0}) × World → Type 0
Resets keys w email otp new_password salt (ok _, v) =
    (m : B2bMember) × (o : OtpCode) × (if_active (find? (with_email email) w.members) ≡ some m)
    × (find_last? (is_valid_otp w.now m.id) w.otps ≡ some o)
    × (o.code_hash ≡ keys.sha256 otp)
    × (v ≡ signed_out w m o (keys.hash salt new_password))
Resets keys w email otp new_password salt (err _, v) = v ≡ w

module _ (keys : Keys) (email otp new_password : Text) (salt : ℕ) (w : World) where
  from_outcome :
      (x : Result (Unit {0}) × World)
      → reset_password keys email otp new_password salt w ≡ x
      → Resets keys w email otp new_password salt x
      → Resets keys w email otp new_password salt
          (reset_password keys email otp new_password salt w)
  from_outcome x e r = subst (Resets keys w email otp new_password salt) (sym e) r

  with_code :
      (m : B2bMember) (o : OtpCode)
      → if_active (find? (with_email email) w.members) ≡ some m
      → find_last? (is_valid_otp w.now m.id) w.otps ≡ some o
      → Resets keys w email otp new_password salt
          (reset_password keys email otp new_password salt w)
  unfolding reset_password
  with_code m o found latest = elim (Bool-cases (keys.sha256 otp == o.code_hash)) [
    | inl right ↦
        from_outcome (ok tt, signed_out w m o (keys.hash salt new_password)) (ground arith)
          (m, o, found, latest, sym ((==_iff _ _).0 right), refl)
    | inr wrong ↦ from_outcome (err (http 401 (text "Invalid OTP")), w) (ground arith) refl
  ]

  -- A reset of a password succeeds only for an active member with that address, with the latest
  -- code that is unused and not expired, and its right digits. It then sets the password, uses the
  -- code up, revokes every open session of the member, and changes nothing else; a failure changes
  -- nothing.
  pub reset_password-Resets :
      Resets keys w email otp new_password salt (reset_password keys email otp new_password salt w)
  unfolding reset_password
  reset_password-Resets = elim (Option-cases (if_active (find? (with_email email) w.members))) [
    | inl missing ↦ from_outcome (err (http 400 (text "Invalid request")), w) (ground arith) refl
    | inr (m, found) ↦ elim (Option-cases (find_last? (is_valid_otp w.now m.id) w.otps)) [
      | inl none_left ↦
          from_outcome (err (http 400 (text "Invalid or expired OTP")), w) (ground arith) refl
      | inr (o, latest) ↦ with_code m o found latest
    ]
  ]
