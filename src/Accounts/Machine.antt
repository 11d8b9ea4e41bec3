-- ===== src/Accounts/Machine.antt =====
-- Everything that the routes of auth and b2b-member do, as the steps of one machine, with the clock.
use vehicle_lifecycle_manage.Base.{ℕ, ◌+◌, Option, Bool}
use vehicle_lifecycle_manage.Base.Text.{Text}
use vehicle_lifecycle_manage.Domain.{MemberRole}
use vehicle_lifecycle_manage.Store.World.{World}
use vehicle_lifecycle_manage.Accounts.Tokens.{Keys}
use vehicle_lifecycle_manage.Accounts.Auth.{
  login_institution_route, login_citizen, login_citizen_aadhaar, request_password_reset,
  reset_password, refresh, logout,
}
use vehicle_lifecycle_manage.Accounts.Members.{
  Caller, create_member, update_member_role, toggle_member_status, force_reset_password,
  change_password,
}

module _ (keys : Keys) where
  -- One request, with whatever its client, the clock and the random generator supply.
  pub data Step (w : World) : World → Type 0 where
    institution_login :
        (email password raw : Text) (salt : ℕ)
        → Step w (login_institution_route keys email password raw salt w).1
    citizen_login :
        (wallet message signature nonce raw : Text)
        → Step w (login_citizen keys wallet message signature nonce raw w).1
    aadhaar_login :
        (own_tid : ℕ) (document raw : Text)
        → Step w (login_citizen_aadhaar keys own_tid document raw w).1
    forgot_password : (email otp : Text) → Step w (request_password_reset keys email otp w).1
    password_reset :
        (email otp new_password : Text) (salt : ℕ)
        → Step w (reset_password keys email otp new_password salt w).1
    token_refresh : (cookie : Option Text) → Step w (refresh keys cookie w).1
    sign_out : (cookie : Option Text) → Step w (logout keys cookie w).1
    member_creation :
        (email : Text) (role : MemberRole) (temp : Text) (salt : ℕ) (c : Caller)
        → Step w (create_member keys email role temp salt c w).1
    role_change :
        (id : ℕ) (role : MemberRole) (c : Caller) → Step w (update_member_role keys id role c w).1
    status_change :
        (id : ℕ) (active : Bool) (c : Caller) → Step w (toggle_member_status keys id active c w).1
    forced_reset :
        (id : ℕ) (temp : Text) (salt : ℕ) (c : Caller)
        → Step w (force_reset_password keys id temp salt c w).1
    password_change :
        (old new : Text) (salt sub : ℕ) → Step w (change_password keys old new salt sub w).1
    time_passes : (seconds : ℕ) → Step w (record w { now = w.now + seconds })

  pub data Reachable (w : World) : World → Type 0 where
    here : Reachable w w
    next : {u v : World} → Reachable w u → Step u v → Reachable w v
