-- ===== src/Accounts/Members/Laws.antt =====
-- What the handlers of the staff of an institution leave alone.
use vehicle_lifecycle_manage.Base.{ℕ, ◌≡◌, Bool, arith}
use vehicle_lifecycle_manage.Base.Text.{Text}
use vehicle_lifecycle_manage.Domain.{MemberRole}
use vehicle_lifecycle_manage.Store.World.{World}
use vehicle_lifecycle_manage.Accounts.Tokens.{Keys}
use vehicle_lifecycle_manage.Accounts.Members.{
  Caller, create_member, update_member_role, toggle_member_status, force_reset_password,
  change_password,
}

-- A handler of the staff touches no session.
pub create_member-sessions :
    (keys : Keys) (email : Text) (role : MemberRole) (temp : Text) (salt : ℕ) (c : Caller)
    (w : World)
    → (create_member keys email role temp salt c w).1.sessions ≡ w.sessions
unfolding create_member
create_member-sessions keys email role temp salt c w = ground arith

pub update_member_role-sessions :
    (keys : Keys) (id : ℕ) (role : MemberRole) (c : Caller) (w : World)
    → (update_member_role keys id role c w).1.sessions ≡ w.sessions
unfolding update_member_role
update_member_role-sessions keys id role c w = ground arith

pub toggle_member_status-sessions :
    (keys : Keys) (id : ℕ) (active : Bool) (c : Caller) (w : World)
    → (toggle_member_status keys id active c w).1.sessions ≡ w.sessions
unfolding toggle_member_status
toggle_member_status-sessions keys id active c w = ground arith

pub force_reset_password-sessions :
    (keys : Keys) (id : ℕ) (temp : Text) (salt : ℕ) (c : Caller) (w : World)
    → (force_reset_password keys id temp salt c w).1.sessions ≡ w.sessions
unfolding force_reset_password
force_reset_password-sessions keys id temp salt c w = ground arith

pub change_password-sessions :
    (keys : Keys) (old new : Text) (salt sub : ℕ) (w : World)
    → (change_password keys old new salt sub w).1.sessions ≡ w.sessions
unfolding change_password
change_password-sessions keys old new salt sub w = ground arith
