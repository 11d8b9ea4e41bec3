-- ===== src/Reconcile/Steps.antt =====
-- Steps of the reconciliation that succeed or throw.
use vehicle_lifecycle_manage.Base.{ℕ, ◌≡◌, refl, ap, ◌∙◌, some, List, [], ◌∷◌, Bool, false, arith}
use vehicle_lifecycle_manage.Base.Lists.{any}
use vehicle_lifecycle_manage.Domain.{SyncStatus}
use vehicle_lifecycle_manage.Domain.Failure.{Failure, Result, ok, err}
use vehicle_lifecycle_manage.Store.Rows.{BlockchainTransaction}
use vehicle_lifecycle_manage.Store.Table.{find?, update_first, remove}
use vehicle_lifecycle_manage.Store.World.{World, Action, modify, caught, transaction, ◌>>◌}
use vehicle_lifecycle_manage.Reconcile.{has_id, settled_at, mark_transaction}

pub mark_transaction-found :
    (id : ℕ) (status : SyncStatus) (block : ℕ) (w : World) (t : BlockchainTransaction)
    → find? (has_id id) w.transactions ≡ some t
    → mark_transaction id status block w ≡ (
      ok tt,
      record w { transactions = update_first (has_id id) (settled_at status block) w.transactions },
    )
unfolding mark_transaction
mark_transaction-found id status block w t found = rw (found, mark_transaction) refl

-- A step that succeeds is followed by the next one.
pub caught_then :
    (m : Action (Unit {0})) (f : World → World) (w v : World)
    → m w ≡ (ok tt, v)
    → caught (m >> modify f) w ≡ f v
caught_then m f w v e =
    ap
      (λ (x : Result (Unit {0}) × World).
        (elim x.0 as (λ _. Result (Unit {0}) × World) [
          | ok a ↦ (ok tt, f x.1)
          | err g ↦ (err g, x.1)
        ]).1)
      e

-- A database transaction whose body throws changes nothing.
pub transaction_fails :
    (m : Action (Unit {0})) (w : World) (e : Failure)
    → (m w).0 ≡ err e
    → caught (transaction m) w ≡ w
transaction_fails m w e h =
    ap
      (λ (r : Result (Unit {0})).
        (elim r as (λ _. Result (Unit {0}) × World) [
          | ok a ↦ (ok a, (m w).1)
          | err g ↦ (err g, w)
        ]).1)
      h

-- A step that succeeds is followed by one that throws.
pub then_throws :
    (first second : Action (Unit {0})) (w v : World) (e : Failure)
    → first w ≡ (ok tt, v)
    → (second v).0 ≡ err e
    → ((first >> second) w).0 ≡ err e
then_throws first second w v e done throws =
    ap
      (λ (x : Result (Unit {0}) × World).
        (elim x.0 as (λ _. Result (Unit {0}) × World) [
          | ok a ↦ second x.1
          | err g ↦ (err g, x.1)
        ]).0)
      done
    ∙ throws

pub any-remove : {A : Type 0} (p : A → Bool) (xs : List A) → any p (remove p xs) ≡ false
any-remove p [] = refl
any-remove p (x ∷ xs) = ground (arith, any-remove p xs)
