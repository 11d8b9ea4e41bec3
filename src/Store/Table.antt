-- ===== src/Store/Table.antt =====
-- A table as the list of its rows: the finds, the update of one row, deletion, and uniqueness.
use vehicle_lifecycle_manage.Base.{
  ℕ, ◌≡◌, refl, Option, none, some, List, [], ◌∷◌, ◌++◌, Bool, true, false, not, if◌then◌else◌,
  arith, is_some,
}
use vehicle_lifecycle_manage.Base.Lists.{length, All, any, keep}

module _ {ℓ} {A : Type ℓ} where
  -- `findFirst`, and `findUnique` where the column is unique
  abbrev pub find? : (A → Bool) → List A → Option A
  find? p [] = none
  find? p (x ∷ xs) = if p x then some x else find? p xs

  -- `update` of the row that `findUnique` finds
  abbrev pub update_first : (A → Bool) → (A → A) → List A → List A
  update_first p f [] = []
  update_first p f (x ∷ xs) = if p x then f x ∷ xs else x ∷ update_first p f xs

  -- `updateMany`
  abbrev pub update_all : (A → Bool) → (A → A) → List A → List A
  update_all p f [] = []
  update_all p f (x ∷ xs) = (if p x then f x else x) ∷ update_all p f xs

  -- `findFirst` with the latest row first, where rows are appended as they are created
  abbrev pub find_last? : (A → Bool) → List A → Option A
  find_last? p [] = none
  find_last? p (x ∷ xs) = elim (find_last? p xs) [
    | some y ↦ some y
    | none ↦ if p x then some x else none
  ]

  -- `deleteMany`, and `delete` by a unique column
  abbrev pub remove : (A → Bool) → List A → List A
  remove p = keep (λ x. not (p x))

  abbrev pub count : (A → Bool) → List A → ℕ
  count p xs = length (keep p xs)

  pub find?-holds : (p : A → Bool) (xs : List A) (a : A) → find? p xs ≡ some a → p a ≡ true
  find?-holds p [] a h = cc
  find?-holds p (x ∷ xs) a h = ground (arith, find?-holds p xs a)

  -- A row that is found by one column is also in the table for another column that it has.
  pub find?-exists :
      (p q : A → Bool) (xs : List A) (a : A)
      → find? p xs ≡ some a
      → q a ≡ true
      → is_some (find? q xs) ≡ true
  find?-exists p q [] a h k = cc
  find?-exists p q (x ∷ xs) a h k = ground (arith, find?-exists p q xs a)

  pub find?-update_self :
      (p : A → Bool) (f : A → A) (xs : List A) (a : A)
      → find? p xs ≡ some a
      → p (f a) ≡ true
      → find? p (update_first p f xs) ≡ some (f a)
  find?-update_self p f [] a h k = cc
  find?-update_self p f (x ∷ xs) a h k = ground (arith, find?-update_self p f xs a)

  -- The update of one row does not touch a row that it does not match, if the update does not make
  -- the updated row match the search.
  pub find?-update_other :
      (p q : A → Bool) (f : A → A) (xs : List A)
      → ((x : A) → p x ≡ true → q x ≡ false)
      → ((x : A) → p x ≡ true → q (f x) ≡ false)
      → find? q (update_first p f xs) ≡ find? q xs
  find?-update_other p q f [] apart after = refl
  find?-update_other p q f (x ∷ xs) apart after =
      ground (arith, apart x, after x, find?-update_other p q f xs)

  -- A row appended to rows that a search does not match is the one that it finds and updates.
  pub find?-append_new :
      (p : A → Bool) (xs : List A) (x : A)
      → any p xs ≡ false
      → p x ≡ true
      → find? p (xs ++ x ∷ []) ≡ some x
  find?-append_new p [] x none_before h = ground arith
  find?-append_new p (y ∷ ys) x none_before h = ground (arith, find?-append_new p ys x)

  pub update_first-append_new :
      (p : A → Bool) (f : A → A) (xs : List A) (x : A)
      → any p xs ≡ false
      → p x ≡ true
      → update_first p f (xs ++ x ∷ []) ≡ xs ++ f x ∷ []
  update_first-append_new p f [] x none_before h = ground arith
  update_first-append_new p f (y ∷ ys) x none_before h =
      ground (arith, update_first-append_new p f ys x)

  pub any-append_new :
      (p : A → Bool) (xs : List A) (x : A)
      → any p xs ≡ false
      → p x ≡ false
      → any p (xs ++ x ∷ []) ≡ false
  any-append_new p [] x none_before h = ground arith
  any-append_new p (y ∷ ys) x none_before h = ground (arith, any-append_new p ys x)

module _ {ℓ κ} {A : Type ℓ} (P : A → Type κ) where
  pub All-update_first :
      (p : A → Bool) (f : A → A) (xs : List A)
      → ((x : A) → p x ≡ true → P x → P (f x))
      → All P xs
      → All P (update_first p f xs)
  All-update_first p f [] k h = tt
  All-update_first p f (x ∷ xs) k h = ground (arith, k x, All-update_first p f xs k)

  pub All-remove : (p : A → Bool) (xs : List A) → All P xs → All P (remove p xs)
  All-remove p [] h = tt
  All-remove p (x ∷ xs) h = ground (arith, All-remove p xs)

module _ {ℓ} {A : Type ℓ} where
  -- A change of a row that a selection leaves out before and after does not show in the selection.
  pub keep-update :
      (q p : A → Bool) (f : A → A) (xs : List A) (a : A)
      → find? p xs ≡ some a
      → q a ≡ false
      → q (f a) ≡ false
      → keep q (update_first p f xs) ≡ keep q xs
  keep-update q p f [] a found before after = cc
  keep-update q p f (x ∷ xs) a found before after = ground (arith, keep-update q p f xs a)

  pub keep-append :
      (q : A → Bool) (xs : List A) (x : A) → q x ≡ false → keep q (xs ++ x ∷ []) ≡ keep q xs
  keep-append q [] x h = ground arith
  keep-append q (y ∷ ys) x h = ground (arith, keep-append q ys x)

  pub find?-append :
      (p : A → Bool) (xs ys : List A) (a : A) → find? p xs ≡ some a → find? p (xs ++ ys) ≡ some a
  find?-append p [] ys a h = cc
  find?-append p (x ∷ xs) ys a h = ground (arith, find?-append p xs ys a)
