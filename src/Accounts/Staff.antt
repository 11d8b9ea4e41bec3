-- ===== src/Accounts/Staff.antt =====
-- How far the managers of an institution's staff reach.
pub mod Confinement
use vehicle_lifecycle_manage.Base.{
  ℕ, suc, ◌≡◌, ◌≢◌, refl, sym, subst, Option, none, some, List, [], ◌∷◌, ◌++◌, Bool, true, false,
  ◌==◌, ◌&&◌, not, arith, Option-cases, Bool-cases, inl, inr, ◌∙◌,
}
use vehicle_lifecycle_manage.Base.Lists.{keep}
use vehicle_lifecycle_manage.Base.Text.{Text, text}
use vehicle_lifecycle_manage.Domain.{MemberRole, owner, admin, operator, viewer}
use vehicle_lifecycle_manage.Domain.Failure.{Failure, http, ok, err}
use vehicle_lifecycle_manage.Store.Rows.{B2bMember}
use vehicle_lifecycle_manage.Store.Table.{
  find?, find?-holds, update_first, keep-update, keep-append, find?-append, find?-update_other,
}
use vehicle_lifecycle_manage.Store.Keeps.{>>=-ok, >>=-err}
use vehicle_lifecycle_manage.Store.Keyed.{IsKeyed, find?-key}
use vehicle_lifecycle_manage.Store.World.{World, Action, ◌>>=◌}
use vehicle_lifecycle_manage.Accounts.Tokens.{Keys, member_with}
use vehicle_lifecycle_manage.Accounts.Auth.{sets_password}
use vehicle_lifecycle_manage.Accounts.Members.{
  Caller, create_member, update_member_role, toggle_member_status, force_reset_password, in_entity,
  sets_role, sets_active, manageable, update_member, assert_role_hierarchy,
}

-- A request to one of the routes that manage the staff.
pub data Request : Type 0 where
  create : (email : Text) (role : MemberRole) (temp : Text) (salt : ℕ) → Request
  change_role : (id : ℕ) (role : MemberRole) → Request
  change_status : (id : ℕ) (active : Bool) → Request
  reset_password : (id : ℕ) (temp : Text) (salt : ℕ) → Request

-- The state that the handler of the request leaves.
abbrev pub serve : Keys → Request → Caller → World → World
serve keys (Request.create email role temp salt) c w =
    (create_member keys email role temp salt c w).1
serve keys (Request.change_role id role) c w = (update_member_role keys id role c w).1
serve keys (Request.change_status id active) c w = (toggle_member_status keys id active c w).1
serve keys (Request.reset_password id temp salt) c w =
    (force_reset_password keys id temp salt c w).1

-- OWNER and ADMIN
abbrev pub is_manager : MemberRole → Bool
is_manager owner = true
is_manager admin = true
is_manager operator = false
is_manager viewer = false

-- The specification of the hierarchy: an owner may modify every role, an administrator the roles
-- that are no managers, and nobody else any.
abbrev pub may_modify : MemberRole → MemberRole → Bool
may_modify owner _ = true
may_modify admin target = not (is_manager target)
may_modify operator _ = false
may_modify viewer _ = false

abbrev pub manages : B2bMember → Bool
manages m = is_manager m.role

abbrev pub outside : ℕ → B2bMember → Bool
outside entity m = not (m.entity_id == entity)

-- What a request cannot touch: the staff of other institutions, the caller's own row, and, unless
-- the caller is an owner, the managers.
pub record IsConfined (c : Caller) (w v : World) : Type 0 where
  pub others : keep (outside c.entity_id) v.members ≡ keep (outside c.entity_id) w.members
  pub self :
      (m : B2bMember)
      → find? (member_with c.sub) w.members ≡ some m
      → find? (member_with c.sub) v.members ≡ some m
  pub superiors : c.role ≢ owner → keep manages v.members ≡ keep manages w.members

unchanged : (c : Caller) (w : World) → IsConfined c w w
unchanged c w = record { others = refl; self = λ m h. h; superiors = λ h. refl }

module _ (keys : Keys) (c : Caller) (w : World) where
  abbrev changed : ℕ → (B2bMember → B2bMember) → World
  changed id f = record w { members = update_first (member_with id) f w.members }

  -- The change of a row that the checks of a handler have found.
  changed-IsConfined :
      (id : ℕ) (f : B2bMember → B2bMember) (m : B2bMember)
      → IsKeyed (λ (m : B2bMember). m.id) w.members
      → (id == c.sub) ≡ false
      → find? (in_entity id c.entity_id) w.members ≡ some m
      → ((x : B2bMember) → (f x).id ≡ x.id)
      → (f m).entity_id ≡ m.entity_id
      → (c.role ≢ owner → (is_manager m.role ≡ false) × (is_manager (f m).role ≡ false))
      → IsConfined c w (changed id f)
  changed-IsConfined id f m keyed apart found same_id same_entity below = record {
    others =
        keep-update (outside c.entity_id) (member_with id) f w.members m row (ground (arith, mine))
          (ground (arith, mine));
    self = λ s known.
        find?-update_other (member_with id) (member_with c.sub) f w.members (λ x h. ground arith)
          (λ x h. ground (arith, same_id x))
        ∙ known;
    superiors = λ no_owner.
        keep-update manages (member_with id) f w.members m row (below no_owner).0
          (below no_owner).1;
  }
    where
      mine : in_entity id c.entity_id m ≡ true
      mine = find?-holds (in_entity id c.entity_id) w.members m found

      row : find? (member_with id) w.members ≡ some m
      row =
          subst (λ k. find? (member_with k) w.members ≡ some m) (ground (arith, mine))
            (find?-key (λ (m : B2bMember). m.id) (in_entity id c.entity_id) w.members m keyed found)

-- The check of the hierarchy meets its specification.
asserts :
    (r t : MemberRole) (w : World)
    → may_modify r t ≡ true
    → assert_role_hierarchy r t w ≡ (ok tt, w)
unfolding assert_role_hierarchy
asserts owner t w h = refl
asserts admin owner w h = cc
asserts admin admin w h = cc
asserts admin operator w h = refl
asserts admin viewer w h = refl
asserts operator t w h = cc
asserts viewer t w h = cc

refuses :
    (r t : MemberRole) (w : World)
    → may_modify r t ≡ false
    → (e : Failure) × (assert_role_hierarchy r t w ≡ (err e, w))
unfolding assert_role_hierarchy
refuses owner t w h = cc
refuses admin owner w h = (_, refl)
refuses admin admin w h = (_, refl)
refuses admin operator w h = cc
refuses admin viewer w h = cc
refuses operator t w h = (_, refl)
refuses viewer t w h = (_, refl)

module _ (keys : Keys) (c : Caller) (w : World) (id : ℕ) (P : World → Type 0) (before : P w) where
  -- What the checks of a change of a row have established.
  abbrev Allows : B2bMember → Type 0
  Allows m =
      (find? (in_entity id c.entity_id) w.members ≡ some m)
      × ((id == c.sub) ≡ false)
      × (may_modify c.role m.role ≡ true)

  failed :
      {A : Type 0} (message : Text) (next : B2bMember → Action A) (e : Failure)
      → manageable id message c w ≡ (err e, w)
      → P ((manageable id message c >>= next) w).1
  failed message next e h =
      subst (λ x. P x.1) (sym (>>=-err (manageable id message c) next w w e h)) before

  managed :
      {A : Type 0} (message : Text) (next : B2bMember → Action A)
      → ((m : B2bMember) → Allows m → P (next m w).1)
      → P ((manageable id message c >>= next) w).1
  unfolding manageable
  managed message next after = elim (Bool-cases (id == c.sub)) [
    | inl own ↦ failed message next (http 400 message) (ground arith)
    | inr other ↦ elim (Option-cases (find? (in_entity id c.entity_id) w.members)) [
      | inl missing ↦ failed message next (http 404 (text "Member not found")) (ground arith)
      | inr (m, found) ↦ elim (Bool-cases (may_modify c.role m.role)) [
        | inl may ↦
            subst (λ x. P x.1)
              (sym (
                >>=-ok (manageable id message c) next w w m
                  (ground (arith, asserts c.role m.role w))))
              (after m (found, other, may))
        | inr below ↦
            let (e, refused) = refuses c.role m.role w below in
            failed message next e (ground (arith, refused))
      ]
    ]
  ]
