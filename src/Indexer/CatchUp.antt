-- ===== src/Indexer/CatchUp.antt =====
-- `catchUpContract`: historical logs are fetched in chunks of 2000 blocks and handed to
-- `processLog`. `contract.queryFilter` is the parameter `query`, which may fail; `handle` is what
-- the handler of a decoded log does to the database (a handler catches its own errors).
pub mod Coverage
pub mod Resume
use vehicle_lifecycle_manage.Base.{
  ℕ, zero, suc, ◌+◌, ◌-◌, Option, none, some, List, [], ◌∷◌, Bool, true, false, leb, if◌then◌else◌,
}
use vehicle_lifecycle_manage.Domain.Failure.{Result, ok, err}
use vehicle_lifecycle_manage.Indexer.Cursor.{ContractName, Progress, advance_cursor, put}

pub record Log : Type 0 where
  pub block_number : ℕ
  -- `'eventName' in log`: the interface of the contract could decode it
  pub decoded : Bool
  pub log_index : ℕ

abbrev pub chunk_size : ℕ
chunk_size = 2000

abbrev pub first_run_depth : ℕ
first_run_depth = 5000

-- `Math.min(fromBlock + CHUNK_SIZE - 1, latestBlock)`
abbrev pub chunk_end : ℕ → ℕ → ℕ
chunk_end from latest = if leb (from + chunk_size - 1) latest then from + chunk_size - 1 else latest

module _ {ℓ} {S : Type ℓ} (handle : Log → S → S) where
  unfoldable pub process_logs : List Log → S → S
  process_logs [] s = s
  process_logs (l ∷ ls) s = process_logs ls (if l.decoded then handle l s else s)

module _ {ℓ} {S : Type ℓ} (query : ContractName → ℕ → ℕ → Result (List Log))
    (handle : Log → S → S) where
  -- The first argument is fuel: one unit for each chunk.
  unfoldable pub chunk_loop : ℕ → ContractName → ℕ → ℕ → Progress S → Result (Unit {0}) × Progress S
  chunk_loop zero name from latest p = (ok tt, p)
  chunk_loop (suc fuel) name from latest p = elim (leb from latest) [
    | false ↦ (ok tt, p)
    | true ↦ elim (query name from (chunk_end from latest)) [
      | err e ↦ (err e, p)
      | ok logs ↦ chunk_loop fuel name (from + chunk_size) latest (
          advance_cursor name (chunk_end from latest)
            (record p { store = process_logs handle logs p.store }))
    ]
  ]

  -- the block that was handled last, by the contract's row or the default of a first run
  abbrev pub start_block : ContractName → ℕ → Progress S → ℕ
  start_block name latest p = elim (p.last_block name) [
    | none ↦ latest - first_run_depth
    | some block ↦ block
  ]

  unfoldable pub catch_up : ContractName → ℕ → Progress S → Result (Unit {0}) × Progress S
  catch_up name latest p =
      let last = start_block name latest p in
      let q = record p { tracker = put name (some last) p.tracker } in
      if leb latest last then (ok tt, q) else chunk_loop latest name (suc last) latest q
