-- ===== src/Challan/Sound.antt =====
-- When the table of challans is well formed, and the changes that keep it so.
use vehicle_lifecycle_manage.Base.{
  ℕ, suc, ◌≤◌, ◌<◌, ◌≡◌, ◌≢◌, refl, none, some, List, [], ◌∷◌, ◌++◌, Bool, true, false, arith,
  if◌then◌else◌,
}
use vehicle_lifecycle_manage.Base.Lists.{All, All-append}
use vehicle_lifecycle_manage.Domain.{ChallanStatus}
use vehicle_lifecycle_manage.Store.Rows.{Challan}
use vehicle_lifecycle_manage.Store.Table.{find?, update_first, remove, All-update_first, All-remove}
use vehicle_lifecycle_manage.Store.World.{World}
use vehicle_lifecycle_manage.Challan.Rows.{with_id}

-- A challan that is paid or cancelled says when.
abbrev pub IsDated : ChallanStatus → Challan → Type 0
IsDated ChallanStatus.pending c = Unit
IsDated ChallanStatus.paid c = c.paid_at ≢ none
IsDated ChallanStatus.cancelled c = c.cancelled_at ≢ none

-- Its key was given out before, and its status has its date.
pub record IsRow (next_id : ℕ) (c : Challan) : Type 0 where
  pub old : c.id < next_id
  pub dated : IsDated c.status c

-- No two rows have the same key.
abbrev pub Distinct : List Challan → Type 0
Distinct [] = Unit
Distinct (c ∷ cs) = All (λ d. d.id ≢ c.id) cs × Distinct cs

pub record IsSound (w : World) : Type 0 where
  pub rows : All (IsRow w.next_id) w.challans
  pub distinct : Distinct w.challans

All-weaken : (n m : ℕ) (cs : List Challan) → n ≤ m → All (IsRow n) cs → All (IsRow m) cs
All-weaken n m [] h a = tt
All-weaken n m (c ∷ cs) h (r, a) =
    (record { old = ground (arith, r.old); dated = r.dated }, All-weaken n m cs h a)

All-other :
    (id : ℕ) (p : Challan → Bool) (f : Challan → Challan) (cs : List Challan)
    → ((c : Challan) → (f c).id ≡ c.id)
    → All (λ d. d.id ≢ id) cs
    → All (λ d. d.id ≢ id) (update_first p f cs)
All-other id p f cs same h =
    All-update_first (λ (d : Challan). d.id ≢ id) p f cs (λ c _ k. ground (arith, same c)) h

Distinct-update_first :
    (p : Challan → Bool) (f : Challan → Challan) (cs : List Challan)
    → ((c : Challan) → (f c).id ≡ c.id)
    → Distinct cs
    → Distinct (update_first p f cs)
Distinct-update_first p f [] same h = tt
Distinct-update_first p f (c ∷ cs) same (h, d) =
    elim (p c) as (λ b. Distinct (if b then f c ∷ cs else c ∷ update_first p f cs)) [
      | true ↦ (rw (same c) h, d)
      | false ↦ (All-other c.id p f cs same h, Distinct-update_first p f cs same d)
    ]

Distinct-remove : (p : Challan → Bool) (cs : List Challan) → Distinct cs → Distinct (remove p cs)
Distinct-remove p [] h = tt
Distinct-remove p (c ∷ cs) (h, d) =
    ground (arith, Distinct-remove p cs d, All-remove (λ (d : Challan). d.id ≢ c.id) p cs h)

Distinct-append :
    (cs : List Challan) (c : Challan)
    → All (λ (d : Challan). d.id < c.id) cs
    → Distinct cs
    → Distinct (cs ++ c ∷ [])
Distinct-append [] c h d = (tt, tt)
Distinct-append (x ∷ cs) c (lt, h) (other, d) = (
  All-append (λ (d : Challan). d.id ≢ x.id) cs (c ∷ []) other (ground arith, tt),
  Distinct-append cs c h d,
)

All-old : (n : ℕ) (cs : List Challan) → All (IsRow n) cs → All (λ (d : Challan). d.id < n) cs
All-old n [] a = tt
All-old n (c ∷ cs) (r, a) = (r.old, All-old n cs a)

-- More keys are given out and other tables change.
pub IsSound-grow :
    (w w' : World) → w'.challans ≡ w.challans → w.next_id ≤ w'.next_id → IsSound w → IsSound w'
IsSound-grow w w' same grows s = record {
  rows = rw same (All-weaken w.next_id w'.next_id w.challans grows s.rows);
  distinct = rw same s.distinct;
}

-- One challan is changed, by a change that keeps its key and its dates.
pub IsSound-update :
    (p : Challan → Bool) (f : Challan → Challan) (w : World)
    → ((c : Challan) → (f c).id ≡ c.id)
    → ((c : Challan) → IsDated c.status c → IsDated (f c).status (f c))
    → IsSound w
    → IsSound (record w { challans = update_first p f w.challans })
IsSound-update p f w same dates s = record {
  rows =
      All-update_first (IsRow w.next_id) p f w.challans
        (λ c _ r. record { old = rw (same c) r.old; dated = dates c r.dated }) s.rows;
  distinct = Distinct-update_first p f w.challans same s.distinct;
}

pub IsSound-remove :
    (p : Challan → Bool) (w w' : World)
    → w'.challans ≡ remove p w.challans
    → w'.next_id ≡ w.next_id
    → IsSound w
    → IsSound w'
IsSound-remove p w w' challans next s = record {
  rows = rw (challans, next) (All-remove (IsRow w.next_id) p w.challans s.rows);
  distinct = rw challans (Distinct-remove p w.challans s.distinct);
}

-- A challan is created under the next key.
pub IsSound-append :
    (c : Challan) (w : World)
    → c.id ≡ w.next_id
    → IsDated c.status c
    → IsSound w
    → IsSound (record w { challans = w.challans ++ c ∷ []; next_id = suc w.next_id })
IsSound-append c w fresh dates s = record {
  rows =
      All-append (IsRow (suc w.next_id)) w.challans (c ∷ [])
        (All-weaken w.next_id (suc w.next_id) w.challans (omega arith) s.rows)
        (record { old = omega (arith, fresh); dated = dates }, tt);
  distinct =
      Distinct-append w.challans c (rw fresh (All-old w.next_id w.challans s.rows)) s.distinct;
}

found_other :
    (p : Challan → Bool) (cs : List Challan) (c : Challan) (id : ℕ)
    → All (λ (d : Challan). d.id ≢ id) cs
    → find? p cs ≡ some c
    → c.id ≢ id
found_other p [] c id h f = cc
found_other p (y ∷ ys) c id h f = ground (arith, found_other p ys c id)

-- The row that a search finds is the one that its key finds.
pub find?-key :
    (p : Challan → Bool) (cs : List Challan) (c : Challan)
    → Distinct cs
    → find? p cs ≡ some c
    → find? (with_id c.id) cs ≡ some c
find?-key p [] c d found = cc
find?-key p (x ∷ cs) c (other, d) found =
    ground (arith, found_other p cs c x.id other, find?-key p cs c d)

-- An update by a column is the update by the key of the row that it finds.
pub update_first-key :
    (p : Challan → Bool) (f : Challan → Challan) (cs : List Challan) (c : Challan)
    → Distinct cs
    → find? p cs ≡ some c
    → update_first (with_id c.id) f cs ≡ update_first p f cs
update_first-key p f [] c d found = refl
update_first-key p f (x ∷ cs) c (other, d) found =
    ground (arith, found_other p cs c x.id other, update_first-key p f cs c d)
