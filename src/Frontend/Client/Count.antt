-- ===== src/Frontend/Client/Count.antt =====
-- How often a request stands in a list.
use vehicle_lifecycle_manage.Base.{
  ℕ, suc, ◌+◌, ◌≡◌, refl, List, [], ◌∷◌, ◌++◌, true, ◌==◌, if◌then◌else◌, arith, map, false,
}
use vehicle_lifecycle_manage.Base.Lists.{any}
use vehicle_lifecycle_manage.Frontend.Client.Problems.{Problem}
use vehicle_lifecycle_manage.Frontend.Client.{is_request, delete_one, requests, waiter_rejected}

abbrev pub count : ℕ → List ℕ → ℕ
count k [] = 0
count k (n ∷ ns) = let rest = count k ns in if n == k then suc rest else rest

pub count-append : (k : ℕ) (ms ns : List ℕ) → count k (ms ++ ns) ≡ count k ms + count k ns
count-append k [] ns = omega arith
count-append k (m ∷ ms) ns = ground (arith, count-append k ms ns)

pub count-delete :
    (k n : ℕ) (ns : List ℕ)
    → any (is_request n) ns ≡ true
    → count k (delete_one n ns) + count k (n ∷ []) ≡ count k ns
count-delete k n [] h = cc
count-delete k n (m ∷ ns) h = ground (arith, count-delete k n ns)

pub count-absent : (k : ℕ) (ns : List ℕ) → any (is_request k) ns ≡ false → count k ns ≡ 0
count-absent k [] h = refl
count-absent k (n ∷ ns) h = ground (arith, count-absent k ns)

pub requests-append :
    {A : Type 0} (xs ys : List (ℕ × A)) → requests (xs ++ ys) ≡ requests xs ++ requests ys
requests-append [] ys = refl
requests-append ((n, a) ∷ xs) ys = ground (arith, requests-append xs ys)

pub requests-rejected : (xs : List (ℕ × Problem)) → requests (map waiter_rejected xs) ≡ requests xs
requests-rejected [] = refl
requests-rejected ((n, p) ∷ xs) = ground (arith, requests-rejected xs)
