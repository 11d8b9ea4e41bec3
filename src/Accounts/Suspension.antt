-- ===== src/Accounts/Suspension.antt =====
-- What a deactivation of a member leaves open.
use vehicle_lifecycle_manage.Base.{
  ℕ, ◌≡◌, refl, Option, none, some, List, [], ◌∷◌, Bool, arith, Option-cases, Bool-cases, inl, inr,
  ◌⊎◌,
}
use vehicle_lifecycle_manage.Base.Text.{Text}
use vehicle_lifecycle_manage.Store.Rows.{B2bMember, RefreshToken}
use vehicle_lifecycle_manage.Store.Table.{find?, update_first}
use vehicle_lifecycle_manage.Store.World.{World}
use vehicle_lifecycle_manage.Accounts.Tokens.{
  Keys, member_with, refresh_access_token, find_valid_token, claims_of, entity_with,
}
use vehicle_lifecycle_manage.Accounts.Members.{Caller, toggle_member_status, sets_active}

-- The search for a row finds it as it was, or with the switch set.
module _ (id : ℕ) (active : Bool) (k : ℕ) where
  abbrev SameRow : List B2bMember → List B2bMember → Type 0
  SameRow ms ns =
      (find? (member_with k) ns ≡ find? (member_with k) ms)
      ⊎ ((m : B2bMember) × (find? (member_with k) ms ≡ some m)
          × (find? (member_with k) ns ≡ some (sets_active active m)))

  switched :
      (ms : List B2bMember) → SameRow ms (update_first (member_with id) (sets_active active) ms)
  switched [] = inl refl
  switched (m ∷ ms) = elim (Bool-cases (member_with id m)) [
    | inl hit ↦ elim (Bool-cases (member_with k m)) [
      | inl same ↦ inr (m, ground arith, ground arith)
      | inr other ↦ inl (ground arith)
    ]
    | inr miss ↦ elim (Bool-cases (member_with k m)) [
      | inl same ↦ inl (ground arith)
      | inr other ↦ elim (switched ms) [
        | inl h ↦ inl (ground arith)
        | inr (n, f, g) ↦ inr (n, ground arith, ground arith)
      ]
    ]
  ]

module _ (keys : Keys) (id : ℕ) (active : Bool) where
  abbrev toggled : World → World
  toggled w = record w { members = update_first (member_with id) (sets_active active) w.members }

  claims_of-toggled :
      (w : World) (t : RefreshToken) (o : Option ℕ)
      → t.member_id ≡ o
      → claims_of keys (toggled w) t ≡ claims_of keys w t
  unfolding claims_of
  claims_of-toggled w t none e = rw (claims_of, e) refl
  claims_of-toggled w t (some k) e = elim (switched id active k w.members) [
    | inl same ↦ rw (claims_of, e, same) refl
    | inr (m, before, after) ↦ elim (Option-cases (find? (entity_with m.entity_id) w.entities)) [
      | inl missing ↦ rw (claims_of, e, before, after, missing) refl
      | inr (x, of) ↦ rw (claims_of, e, before, after, of) refl
    ]
  ]

  refresh-toggled :
      (raw : Text) (w : World)
      → refresh_access_token keys raw (toggled w) ≡ refresh_access_token keys raw w
  unfolding refresh_access_token
  refresh-toggled raw w = elim (Option-cases (find_valid_token (keys.sha256 raw) w)) [
    | inl missing ↦ rw (refresh_access_token, missing) refl
    | inr (t, found) ↦ rw (refresh_access_token, found) (claims_of-toggled w t t.member_id refl)
  ]

  toggle-Keeps :
      (P : World → Type 0) (c : Caller) (w : World)
      → P w
      → P (toggled w)
      → P (toggle_member_status keys id active c w).1
  unfolding toggle_member_status
  toggle-Keeps P c w before after = ground arith

  -- A change of a member's status, whoever makes it, changes nothing in what any refresh token
  -- yields: a deactivated member goes on renewing access tokens with all rights.
  pub toggle_keeps_refresh :
      (c : Caller) (raw : Text) (w : World)
      → refresh_access_token keys raw (toggle_member_status keys id active c w).1
        ≡ refresh_access_token keys raw w
  toggle_keeps_refresh c raw w =
      toggle-Keeps (λ v. refresh_access_token keys raw v ≡ refresh_access_token keys raw w) c w refl
        (refresh-toggled raw w)
