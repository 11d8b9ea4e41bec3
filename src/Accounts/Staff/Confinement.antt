-- ===== src/Accounts/Staff/Confinement.antt =====
-- Every request on the staff is confined.
use vehicle_lifecycle_manage.Base.{
  ℕ, ◌≡◌, ◌≢◌, refl, sym, subst, Bool, true, false, arith, Option-cases, Bool-cases, inl, inr,
}
use vehicle_lifecycle_manage.Base.Text.{Text, text}
use vehicle_lifecycle_manage.Domain.{MemberRole, owner, admin, operator, viewer}
use vehicle_lifecycle_manage.Domain.Failure.{http, Result, err}
use vehicle_lifecycle_manage.Store.Rows.{B2bMember}
use vehicle_lifecycle_manage.Store.Table.{find?, keep-append, find?-append}
use vehicle_lifecycle_manage.Store.Keeps.{>>=-ok, >>=-err}
use vehicle_lifecycle_manage.Store.Keyed.{IsKeyed}
use vehicle_lifecycle_manage.Store.World.{World, ◌>>◌, pure}
use vehicle_lifecycle_manage.Accounts.Tokens.{Keys, member_with}
use vehicle_lifecycle_manage.Accounts.Auth.{with_email, sets_password}
use vehicle_lifecycle_manage.Accounts.Members.{
  Caller, create_member, update_member_role, toggle_member_status, force_reset_password, sets_role,
  sets_active, update_member, assert_role_hierarchy, insert_member,
}
use vehicle_lifecycle_manage.Accounts.Staff.{
  Request, serve, is_manager, may_modify, manages, outside, IsConfined, unchanged,
  changed-IsConfined, asserts, refuses, managed, Allows,
}

-- Only an owner may modify a manager.
below : (r t : MemberRole) → may_modify r t ≡ true → r ≢ owner → is_manager t ≡ false
below owner t h no_owner = absurd (no_owner refl)
below admin owner h no_owner = cc
below admin admin h no_owner = cc
below admin operator h no_owner = refl
below admin viewer h no_owner = refl
below operator t h no_owner = cc
below viewer t h no_owner = cc

module _ (keys : Keys) (c : Caller) (w : World) where
  inserted-IsConfined :
      (email : Text) (role : MemberRole) (hash : Text)
      → may_modify c.role role ≡ true
      → IsConfined c w (insert_member c.entity_id email role hash w).1
  unfolding insert_member
  inserted-IsConfined email role hash may = record {
    others = keep-append (outside c.entity_id) w.members _ (ground arith);
    self = λ m known. find?-append (member_with c.sub) w.members _ m known;
    superiors = λ no_owner. keep-append manages w.members _ (below c.role role may no_owner);
  }

  create-IsConfined :
      (email : Text) (role : MemberRole) (temp : Text) (salt : ℕ)
      → IsConfined c w (create_member keys email role temp salt c w).1
  unfolding create_member
  create-IsConfined email role temp salt = elim (Bool-cases (may_modify c.role role)) [
    | inr no_right ↦
        let (e, refused) = refuses c.role role w no_right in
        from_outcome (err e, w) (ground (arith, refused)) (unchanged c w)
    | inl may ↦ elim (Option-cases (find? (with_email email) w.members)) [
      | inr (m, taken) ↦
          from_outcome (err (http 409 (text "A member with this email already exists.")), w)
            (ground (arith, asserts c.role role w)) (unchanged c w)
      | inl free ↦
          from_outcome (insert_member c.entity_id email role (keys.hash salt temp) w)
            (ground (arith, asserts c.role role w))
            (inserted-IsConfined email role (keys.hash salt temp) may)
    ]
  ]
    where
      from_outcome :
          (x : Result B2bMember × World)
          → create_member keys email role temp salt c w ≡ x
          → IsConfined c w x.1
          → IsConfined c w (create_member keys email role temp salt c w).1
      from_outcome x e k = subst (λ x. IsConfined c w x.1) (sym e) k

  module _ (keyed : IsKeyed (λ (m : B2bMember). m.id) w.members) where
    status-IsConfined :
        (id : ℕ) (active : Bool) → IsConfined c w (toggle_member_status keys id active c w).1
    unfolding toggle_member_status
    status-IsConfined id active =
        managed keys c w id (IsConfined c w) (unchanged c w)
          (text "You cannot deactivate or activate yourself.")
          (λ _. update_member id (sets_active active))
          (λ m (found, other, may).
            changed-IsConfined keys c w id (sets_active active) m keyed other found (λ x. refl) refl
              (λ no_owner. (below c.role m.role may no_owner, below c.role m.role may no_owner)))

    reset-IsConfined :
        (id : ℕ) (temp : Text) (salt : ℕ)
        → IsConfined c w (force_reset_password keys id temp salt c w).1
    unfolding force_reset_password
    reset-IsConfined id temp salt =
        managed keys c w id (IsConfined c w) (unchanged c w)
          (text "You cannot force reset your own password.")
          (λ _. update_member id (sets_password (keys.hash salt temp)) >> pure temp)
          (λ m (found, other, may).
            changed-IsConfined keys c w id (sets_password (keys.hash salt temp)) m keyed other found
              (λ x. refl) refl
              (λ no_owner. (below c.role m.role may no_owner, below c.role m.role may no_owner)))

    role_set :
        (id : ℕ) (role : MemberRole) (m : B2bMember)
        → Allows keys c w id (IsConfined c w) (unchanged c w) m
        → IsConfined c w
            ((assert_role_hierarchy c.role role >> update_member id (sets_role role)) w).1
    unfolding update_member
    role_set id role m (found, other, may) = elim (Bool-cases (may_modify c.role role)) [
      | inr no_right ↦
          let (e, refused) = refuses c.role role w no_right in
          subst (λ x. IsConfined c w x.1)
            (sym (
              >>=-err (assert_role_hierarchy c.role role) (λ _. update_member id (sets_role role)) w
                w e refused))
            (unchanged c w)
      | inl assigns ↦
          subst (λ x. IsConfined c w x.1)
            (sym (
              >>=-ok (assert_role_hierarchy c.role role) (λ _. update_member id (sets_role role)) w
                w tt (asserts c.role role w assigns)))
            (changed-IsConfined keys c w id (sets_role role) m keyed other found (λ x. refl) refl
              (λ no_owner. (below c.role m.role may no_owner, below c.role role assigns no_owner)))
    ]

    role-IsConfined :
        (id : ℕ) (role : MemberRole) → IsConfined c w (update_member_role keys id role c w).1
    unfolding update_member_role
    role-IsConfined id role =
        managed keys c w id (IsConfined c w) (unchanged c w)
          (text "You cannot modify your own role.")
          (λ _. assert_role_hierarchy c.role role >> update_member id (sets_role role))
          (λ m allowed. role_set id role m allowed)

    -- Where the members have different keys: whatever a request on the staff does, and whether it
    -- succeeds, it leaves the members of other institutions and the caller's own row as they are,
    -- and also every owner and administrator unless the caller is an owner; nor does it make anyone
    -- an owner or administrator unless the caller is an owner.
    pub serve-IsConfined : (r : Request) → IsConfined c w (serve keys r c w)
    serve-IsConfined (Request.create email role temp salt) = create-IsConfined email role temp salt
    serve-IsConfined (Request.change_role id role) = role-IsConfined id role
    serve-IsConfined (Request.change_status id active) = status-IsConfined id active
    serve-IsConfined (Request.reset_password id temp salt) = reset-IsConfined id temp salt
