-- ===== src/Accounts/FixedPassword.antt =====
-- The account that the route of the login gives a fixed password.
use vehicle_lifecycle_manage.Base.{ℕ, ◌≡◌, some, true, false, arith}
use vehicle_lifecycle_manage.Base.Lists.{any}
use vehicle_lifecycle_manage.Base.Text.{Text, text}
use vehicle_lifecycle_manage.Domain.Failure.{ok}
use vehicle_lifecycle_manage.Store.Rows.{B2bEntity, B2bMember}
use vehicle_lifecycle_manage.Store.Table.{find?, find?-holds, find?-update_self}
use vehicle_lifecycle_manage.Store.World.{World}
use vehicle_lifecycle_manage.Accounts.Tokens.{Keys, has_jti, entity_with, member_claims}
use vehicle_lifecycle_manage.Accounts.Auth.{login_institution_route, with_email, sets_password}

-- Whatever its password was: if the account admin1@test.com is active and so is its institution,
-- and bcrypt accepts what it has hashed, a login with the password of the source code obtains all
-- rights of that member.
pub fixed_password_opens :
    (keys : Keys) (raw : Text) (salt : ℕ) (w : World) (m : B2bMember) (e : B2bEntity)
    → find? (with_email (text "admin1@test.com")) w.members ≡ some m
    → m.is_active ≡ true
    → find? (entity_with m.entity_id) w.entities ≡ some e
    → e.is_active ≡ true
    → any (has_jti (keys.sha256 raw)) w.sessions ≡ false
    → keys.compare (text "password123") (keys.hash salt (text "password123")) ≡ true
    → (login_institution_route keys (text "admin1@test.com") (text "password123") raw salt w).0
      ≡ ok (record { access = member_claims keys m e (keys.sha256 raw) w.now; refresh = raw })
unfolding login_institution_route
fixed_password_opens keys raw salt w m e found active of acts fresh right =
    let updated =
      find?-update_self (with_email (text "admin1@test.com"))
        (sets_password (keys.hash salt (text "password123"))) w.members m found
        (find?-holds _ w.members m found) in
    ground (arith, updated)
