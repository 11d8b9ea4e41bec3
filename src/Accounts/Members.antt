-- ===== src/Accounts/Members.antt =====
-- backend/src/modules/b2b-member/b2b-member.service.ts: the staff of an institution. Messages to the
-- member are left out, since their failures are only logged.
pub mod Laws
use vehicle_lifecycle_manage.Base.{
  ℕ, suc, Option, none, some, List, [], ◌∷◌, ◌++◌, Bool, true, false, ◌==◌, ◌&&◌, not, is_some,
  if◌then◌else◌,
}
use vehicle_lifecycle_manage.Base.Text.{Text, text}
use vehicle_lifecycle_manage.Domain.{MemberRole, owner, admin, operator, viewer}
use vehicle_lifecycle_manage.Domain.Failure.{http, Result, ok}
use vehicle_lifecycle_manage.Store.Rows.{B2bMember}
use vehicle_lifecycle_manage.Store.Table.{find?, update_first}
use vehicle_lifecycle_manage.Store.World.{
  World, Action, pure, throw, gets, or_throw, throw_if, modify, ◌>>=◌, ◌>>◌,
}
use vehicle_lifecycle_manage.Accounts.Tokens.{Keys, member_with}
use vehicle_lifecycle_manage.Accounts.Auth.{with_email, sets_password, update_member_password}

-- The fields of the identity of a caller that the service reads, after the checks of its router.
pub record Caller : Type 0 where
  pub sub : ℕ
  pub entity_id : ℕ
  pub role : MemberRole

-- The caller's role, then the role that is to be modified.
unfoldable pub assert_role_hierarchy : MemberRole → MemberRole → Action (Unit {0})
assert_role_hierarchy owner target = pure tt
assert_role_hierarchy admin owner =
    throw (http 403 (text "Hierarchy Error: An ADMIN cannot modify a member with the OWNER role."))
assert_role_hierarchy admin admin =
    throw (http 403 (text "Hierarchy Error: An ADMIN cannot modify a member with the ADMIN role."))
assert_role_hierarchy admin target = pure tt
assert_role_hierarchy _ target =
    throw (http 403 (text "Hierarchy Error: Insufficient privileges to modify roles."))

-- `findByIdAndEntity`
abbrev pub in_entity : ℕ → ℕ → B2bMember → Bool
in_entity id entity m = (m.id == id) && (m.entity_id == entity)

abbrev pub sets_role : MemberRole → B2bMember → B2bMember
sets_role role m = record m { role = role }

abbrev pub sets_active : Bool → B2bMember → B2bMember
sets_active active m = record m { is_active = active }

unfoldable pub update_member : ℕ → (B2bMember → B2bMember) → Action (Unit {0})
update_member id f = modify λ w. record w { members = update_first (member_with id) f w.members }

-- The target of a change: not the caller, in the caller's entity, and below the caller.
unfoldable pub manageable : ℕ → Text → Caller → Action B2bMember
unfolding assert_role_hierarchy
manageable id own_error caller = do
  throw_if (id == caller.sub) (http 400 own_error)
  found ← gets (λ w. find? (in_entity id caller.entity_id) w.members)
  target ← or_throw found (http 404 (text "Member not found"))
  assert_role_hierarchy caller.role target.role
  pure target

unfoldable pub insert_member : ℕ → Text → MemberRole → Text → Action B2bMember
insert_member entity email role hash w =
    let member : B2bMember = record {
      id = w.next_id;
      entity_id = entity;
      email = email;
      password_hash = hash;
      role = role;
      is_active = true;
      wallet_address = none;
    } in
    (ok member, record w { members = w.members ++ member ∷ []; next_id = suc w.next_id })

module _ (keys : Keys) where
  unfoldable pub create_member : Text → MemberRole → Text → ℕ → Caller → Action B2bMember
  unfolding assert_role_hierarchy insert_member
  create_member email role temp_password salt caller = do
    assert_role_hierarchy caller.role role
    existing ← gets (λ w. find? (with_email email) w.members)
    throw_if (is_some existing) (http 409 (text "A member with this email already exists."))
    insert_member caller.entity_id email role (keys.hash salt temp_password)

  unfoldable pub update_member_role : ℕ → MemberRole → Caller → Action (Unit {0})
  unfolding manageable update_member
  update_member_role id role caller = do
    _ ← manageable id (text "You cannot modify your own role.") caller
    assert_role_hierarchy caller.role role
    update_member id (sets_role role)

  unfoldable pub toggle_member_status : ℕ → Bool → Caller → Action (Unit {0})
  unfolding manageable update_member
  toggle_member_status id active caller = do
    _ ← manageable id (text "You cannot deactivate or activate yourself.") caller
    update_member id (sets_active active)

  unfoldable pub force_reset_password : ℕ → Text → ℕ → Caller → Action Text
  unfolding manageable update_member
  force_reset_password id temp_password salt caller = do
    _ ← manageable id (text "You cannot force reset your own password.") caller
    update_member id (sets_password (keys.hash salt temp_password))
    pure temp_password

  unfoldable pub change_password : Text → Text → ℕ → ℕ → Action (Unit {0})
  unfolding update_member
  change_password old_password new_password salt sub = do
    found ← gets (λ w. find? (member_with sub) w.members)
    member ← or_throw found (http 404 (text "Member not found"))
    throw_if (not (keys.compare old_password member.password_hash))
        (http 401 (text "Incorrect old password"))
    update_member member.id (sets_password (keys.hash salt new_password))
