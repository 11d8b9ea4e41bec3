-- ===== src/Tests/Indexer.antt =====
-- The theorems on the indexer at a concrete chain.
use vehicle_lifecycle_manage.Base.{
  ℕ, zero, suc, ◌+◌, ◌-◌, ◌≤◌, ◌≡◌, ◌⊎◌, refl, ap, ◌∙◌, none, some, List, [], ◌∷◌, ◌++◌, true,
  false, arith,
}
use vehicle_lifecycle_manage.Domain.Failure.{Result, ok}
use vehicle_lifecycle_manage.Indexer.Cursor.{
  ContractName, challan_contract, Progress, put, advance_cursor,
}
use vehicle_lifecycle_manage.Indexer.CatchUp.{Log, process_logs, chunk_loop, catch_up}
use vehicle_lifecycle_manage.Indexer.CatchUp.Coverage.{IsHistory, Covers, catch_up-Covers}
use vehicle_lifecycle_manage.Indexer.CatchUp.Resume.{catch_up_resumes}
use vehicle_lifecycle_manage.Store.Rows.{B2bEntity}
use vehicle_lifecycle_manage.Store.World.{World}
use vehicle_lifecycle_manage.Tests.Data.{station, world}
use vehicle_lifecycle_manage.Indexer.Reconnect.{Service, max_delay, backoff, start}
use vehicle_lifecycle_manage.Indexer.Reconnect.Outcome.{
  backoff_bounds, Listens, Retries, start-Listens_or_Retries,
}

abbrev log_at : ℕ → Log
log_at n = record { block_number = n; decoded = true; log_index = 0 }

-- A chain with one log in each block: the `count` blocks from `a`.
logs_from : ℕ → ℕ → List Log
logs_from zero a = []
logs_from (suc count) a = log_at a ∷ logs_from count (suc a)

logs_from-add : (m n a : ℕ) → logs_from (m + n) a ≡ logs_from m a ++ logs_from n (a + m)
unfolding logs_from
logs_from-add zero n a =
    ap (λ k. logs_from k a) (left_zero n) ∙ ap (λ k. logs_from n k) (right_zero a)
  where
    left_zero : (n : ℕ) → 0 + n ≡ n
    left_zero n = omega arith

    right_zero : (a : ℕ) → a ≡ a + 0
    right_zero a = omega arith
logs_from-add (suc m) n a =
    ap (λ k. logs_from k a) (left_suc m n)
    ∙ ap (λ l. log_at a ∷ l)
        (logs_from-add m n (suc a) ∙ ap (λ k. logs_from m (suc a) ++ logs_from n k) (moves a m))
  where
    left_suc : (m n : ℕ) → suc m + n ≡ suc (m + n)
    left_suc m n = omega arith

    moves : (a m : ℕ) → suc a + m ≡ a + suc m
    moves a m = omega arith

abbrev events : ContractName → ℕ → ℕ → List Log
events name a b = logs_from (suc b - a) a

abbrev query : ContractName → ℕ → ℕ → Result (List Log)
query name a b = ok (events name a b)

history : IsHistory query events
unfolding logs_from
history = record {
  answers = λ n a b l h. ground arith;
  empty = λ n a. ground arith;
  splits = λ n a b c h k. splits a b c h k;
}
  where
    splits :
        (a b c : ℕ)
        → a ≤ suc b
        → b ≤ c
        → logs_from (suc c - a) a ≡ logs_from (suc b - a) a ++ logs_from (suc c - suc b) (suc b)
    splits a b c h k =
        ap (λ n. logs_from n a) (the_length a b c h k)
        ∙ (logs_from-add (suc b - a) (suc c - suc b) a
            ∙ ap (λ s. logs_from (suc b - a) a ++ logs_from (suc c - suc b) s) (ends a b h))
      where
        the_length : (a b c : ℕ) → a ≤ suc b → b ≤ c → suc c - a ≡ (suc b - a) + (suc c - suc b)
        the_length a b c h k = omega arith

        ends : (a b : ℕ) → a ≤ suc b → a + (suc b - a) ≡ suc b
        ends a b h = omega arith

-- The handlers count the logs.
abbrev handle : Log → ℕ → ℕ
handle l n = suc n

abbrev progress : Progress ℕ
progress = record { tracker = λ name. none; last_block = λ name. some 10; store = 0 }

catch_up_example :
    Covers handle events challan_contract
      (some 10)
      10
      12
      0
      (catch_up query handle challan_contract 12 progress).0
      (catch_up query handle challan_contract 12 progress).1
catch_up_example =
    catch_up-Covers query handle events history challan_contract 12 progress (omega arith)

abbrev restarted : Progress ℕ
restarted = record (catch_up query handle challan_contract 12 progress).1 { tracker = λ name. none }

second_run : (catch_up query handle challan_contract 15 restarted).0 ≡ ok tt
unfolding catch_up chunk_loop advance_cursor put
second_run = refl

catch_up_resumes_example :
    (catch_up query handle challan_contract 15 restarted).1.store
    ≡ process_logs handle (events challan_contract 11 15) 0
catch_up_resumes_example =
    catch_up_resumes query handle events history challan_contract 10 12 15 progress (λ name. none)
      refl (omega arith) (omega arith) second_run

abbrev stopped : Service ℕ
stopped = record {
  progress = progress;
  is_running = false;
  provider = 1;
  bound_to = none;
  timer = none;
  attempts = 0;
}

abbrev running : Service ℕ
running = record stopped { is_running = true; bound_to = some 1 }

backoff_example : (1000 ≤ backoff 7) × (backoff 7 ≤ max_delay)
backoff_example = backoff_bounds 7

start_example :
    let t = start query handle (ok 12) stopped in
    Listens query handle (ok 12) stopped t ⊎ Retries query handle (ok 12) stopped t
start_example = start-Listens_or_Retries query handle (ok 12) stopped refl

abbrev unregistered : B2bEntity
unregistered = record station { on_chain_id = none }

abbrev before_registration : World
before_registration = record world { entities = unregistered ∷ [] }
