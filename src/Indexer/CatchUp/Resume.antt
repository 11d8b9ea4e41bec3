-- ===== src/Indexer/CatchUp/Resume.antt =====
-- A catch-up that failed is continued by the next one, also after a restart of the process.
use vehicle_lifecycle_manage.Base.{ℕ, suc, ◌<◌, ◌≡◌, sym, ap, ◌∙◌, Option, some, List, arith}
use vehicle_lifecycle_manage.Domain.Failure.{Result, ok}
use vehicle_lifecycle_manage.Indexer.Cursor.{ContractName, Progress}
use vehicle_lifecycle_manage.Indexer.CatchUp.{Log, process_logs, start_block, catch_up}
use vehicle_lifecycle_manage.Indexer.CatchUp.Coverage.{
  IsHistory, Covers, catch_up-Covers, process_logs-append,
}

module _ {ℓ} {S : Type ℓ} (query : ContractName → ℕ → ℕ → Result (List Log)) (handle : Log → S → S)
    (events : ContractName → ℕ → ℕ → List Log) (history : IsHistory query events)
    (name : ContractName) where
  -- From the row of the contract a catch-up starts at the block in the row.
  start_block_of_row :
      (latest b : ℕ) (p : Progress S)
      → p.last_block name ≡ some b
      → start_block query handle name latest p ≡ b
  start_block_of_row latest b p e = ground arith

  from_row :
      (latest b : ℕ) (p : Progress S)
      → p.last_block name ≡ some b
      → b < latest
      → Covers handle events name
          (p.last_block name)
          b
          latest
          p.store
          (catch_up query handle name latest p).0
          (catch_up query handle name latest p).1
  from_row latest b p e h = rw (start_block_of_row latest b p e) at (
      catch_up-Covers query handle events history name latest p
        (ground (arith, start_block_of_row latest b p e)))

  -- A catch-up from the contract's row, whether or not it fails, followed by a restart that keeps
  -- only the database and by a catch-up to a later block that ends without an error, has the same
  -- effect on the database as handling the logs of the whole range once and in order.
  pub catch_up_resumes :
      (last first second : ℕ) (p : Progress S) (t : ContractName → Option ℕ)
      → p.last_block name ≡ some last
      → last < first
      → first < second
      → let q = record (catch_up query handle name first p).1 { tracker = t } in
        (catch_up query handle name second q).0 ≡ ok tt
        → (catch_up query handle name second q).1.store
          ≡ process_logs handle (events name (suc last) second) p.store
  catch_up_resumes last first second p t row h1 h2 done =
      again.handled
      ∙ rw (again.finished done) (
          rw once.handled (
            sym (process_logs-append handle _ _ _)
            ∙ ap (λ l. process_logs handle l p.store)
                (sym
                  (history.splits name (suc last) once.upto second (ground arith) (ground arith)))))
    where
      once :
          Covers handle events name
            (p.last_block name)
            last
            first
            p.store
            (catch_up query handle name first p).0
            (catch_up query handle name first p).1
      once = from_row first last p row h1

      kept : (catch_up query handle name first p).1.last_block name ≡ some once.upto
      kept = ground arith

      again :
          Covers handle events name
            ((catch_up query handle name first p).1.last_block name)
            once.upto
            second
            (catch_up query handle name first p).1.store
            (catch_up query handle name second
              (record (catch_up query handle name first p).1 { tracker = t })).0
            (catch_up query handle name second
              (record (catch_up query handle name first p).1 { tracker = t })).1
      again =
          from_row second once.upto (record (catch_up query handle name first p).1 { tracker = t })
            kept (ground arith)
