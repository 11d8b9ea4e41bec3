-- ===== src/Indexer/Reconnect/Outcome.antt =====
-- What `start` and the reconnection lead to.
use native.Mathlib.Nat.{pow-suc}
use vehicle_lifecycle_manage.Base.{
  ℕ, zero, suc, ◌^◌, ◌≤◌, ◌≡◌, ◌⊎◌, refl, sym, subst, inl, inr, some, List, true, false, arith,
}
use vehicle_lifecycle_manage.Base.Lists.{any}
use vehicle_lifecycle_manage.Domain.Failure.{Failure, Result, ok, err}
use vehicle_lifecycle_manage.Indexer.Cursor.{
  ContractName, ContractName-discrete, Progress, block_or_zero,
}
use vehicle_lifecycle_manage.Indexer.CatchUp.{Log}
use vehicle_lifecycle_manage.Indexer.Reconnect.{
  Service, max_delay, backoff, start, timer_fires, handle_reconnect, all_contracts, catch_up_all,
  listen_or_retry, begin_catch_up,
}
use vehicle_lifecycle_manage.Indexer.Reconnect.Reached.{is_one, catch_up_all-reaches}

pow_pos : (n : ℕ) → 1 ≤ 2 ^ n
pow_pos zero = omega arith
pow_pos (suc n) = grind (arith, pow_pos n, pow-suc)

-- A reconnection is never scheduled earlier than after a second or later than after thirty.
pub backoff_bounds : (n : ℕ) → (1000 ≤ backoff n) × (backoff n ≤ max_delay)
unfolding backoff
backoff_bounds n = ground (arith, pow_pos n)

module _ {ℓ} {S : Type ℓ} (query : ContractName → ℕ → ℕ → Result (List Log)) (handle : Log → S → S)
    (latest : Result ℕ) where
  -- The catch-up up to block `n` has ended so, with this progress.
  abbrev pub CaughtUp : Service S → ℕ → Result (Unit {0}) → Progress S → Type ℓ
  CaughtUp s n r p =
      (latest ≡ ok n) × (catch_up_all query handle latest all_contracts n s.progress ≡ (r, p))

  -- It runs, listens on its provider, and every cursor has reached the latest block.
  abbrev pub Listens : Service S → Service S → Type ℓ
  Listens s t =
      (n : ℕ) × (p : Progress S) × CaughtUp s n (ok tt) p
      × (t ≡ record s { is_running = true; progress = p; bound_to = some s.provider })
      × ((name : ContractName) → n ≤ block_or_zero (p.tracker name))

  -- It does not run, has bound no listener, and has set the timer for another attempt.
  abbrev pub Retries : Service S → Service S → Type ℓ
  Retries s t =
      (e : Failure) × (p : Progress S) × (((latest ≡ err e) × (p ≡ s.progress))
        ⊎ ((n : ℕ) × CaughtUp s n (err e) p))
      × (t ≡ record s { progress = p; is_running = false; timer = some (backoff s.attempts) })

  -- Every contract whose logs are followed is caught up.
  all_listed : (name : ContractName) → any (is_one name) all_contracts ≡ true
  unfolding ContractName-discrete
  all_listed ContractName.digital_vehicle_passport = refl
  all_listed ContractName.ownership_token = refl
  all_listed ContractName.challan_contract = refl
  all_listed ContractName.insurance_token = refl
  all_listed ContractName.puc_token = refl
  all_listed ContractName.loan_contract = refl
  all_listed ContractName.gnosis_safe = refl

  abbrev begun : Service S → Service S
  begun s = record s { is_running = true }

  after_catch_up :
      (s : Service S) (n : ℕ) (x : Result (Unit {0}) × Progress S)
      → latest ≡ ok n
      → catch_up_all query handle latest all_contracts n s.progress ≡ x
      → let t = listen_or_retry query handle latest (begun s) x in Listens s t ⊎ Retries s t
  unfolding listen_or_retry handle_reconnect
  after_catch_up s n (ok u, p) known done = inl (
    n,
    p,
    (known, done),
    refl,
    λ name.
        catch_up_all-reaches query handle n latest all_contracts name s.progress p
          (inl (all_listed name)) done,
  )
  after_catch_up s n (err e, p) known done = inr (e, p, inr (n, (known, done)), refl)

  begun-outcome :
      (s : Service S) (r : Result ℕ)
      → latest ≡ r
      → let t = begin_catch_up query handle latest (begun s) r in Listens s t ⊎ Retries s t
  unfolding begin_catch_up listen_or_retry handle_reconnect
  begun-outcome s (ok n) known = after_catch_up s n _ known refl
  begun-outcome s (err e) failed = inr (e, s.progress, inl (failed, refl), refl)

  -- A service that is not running and is started runs and listens on its current provider if and
  -- only if the node reports a latest block and the catch-up of all contracts up to it ends without
  -- an error; every cursor has then reached that block. Otherwise it stays as it was, not running
  -- and without a new listener, but for the progress that the catch-up made and for a timer that
  -- is set for another attempt.
  pub start-Listens_or_Retries :
      (s : Service S)
      → s.is_running ≡ false
      → let t = start query handle latest s in Listens s t ⊎ Retries s t
  unfolding start
  start-Listens_or_Retries s h =
      subst (λ t. Listens s t ⊎ Retries s t) (sym begins) (begun-outcome s latest refl)
    where
      begins : start query handle latest s ≡ begin_catch_up query handle latest (begun s) latest
      begins = simp h

  -- As long as the node does not report its latest block, every attempt of a service that does not
  -- run leaves the count of attempts at 0, so that each further attempt is scheduled after two
  -- seconds.
  pub failing_start_keeps_delay :
      (e : Failure) (s : Service S)
      → latest ≡ err e
      → s.is_running ≡ false
      → s.attempts ≡ 0
      → let t = timer_fires query handle latest true s in
        (t.is_running ≡ false) × (t.attempts ≡ 0) × (t.timer ≡ some 2000)
  unfolding timer_fires start begin_catch_up listen_or_retry backoff
  failing_start_keeps_delay e s h1 h2 h3 = rw (h2, timer_fires) (rw (h1, h3) (refl, refl, refl))
