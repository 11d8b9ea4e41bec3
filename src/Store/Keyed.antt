-- ===== src/Store/Keyed.antt =====
-- Tables whose rows have different primary keys.
use vehicle_lifecycle_manage.Base.{ℕ, ◌≡◌, some, List, [], ◌∷◌, Bool, false, ◌==◌, arith}
use vehicle_lifecycle_manage.Base.Lists.{any}
use vehicle_lifecycle_manage.Store.Table.{find?}

module _ {ℓ} {A : Type ℓ} (key : A → ℕ) where
  abbrev pub with_key : ℕ → A → Bool
  with_key k x = key x == k

  abbrev pub IsKeyed : List A → Type 0
  IsKeyed [] = Unit
  IsKeyed (x ∷ xs) = (any (with_key (key x)) xs ≡ false) × IsKeyed xs

  not_any :
      (q p : A → Bool) (xs : List A) (a : A) → any q xs ≡ false → find? p xs ≡ some a → q a ≡ false
  not_any q p [] a h f = cc
  not_any q p (x ∷ xs) a h f = ground (arith, not_any q p xs a)

  -- The row that any search finds is the one with its key.
  pub find?-key :
      (p : A → Bool) (xs : List A) (a : A)
      → IsKeyed xs
      → find? p xs ≡ some a
      → find? (with_key (key a)) xs ≡ some a
  find?-key p [] a u f = cc
  find?-key p (x ∷ xs) a u f =
      ground (arith, find?-key p xs a u.1, not_any (with_key (key x)) p xs a u.0)
