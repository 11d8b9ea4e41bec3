-- ===== src/Indexer/CatchUp/Coverage.antt =====
-- The catch-up hands every log of its range to its handler once and in order, however the range
-- is cut into chunks and wherever a query fails.
use vehicle_lifecycle_manage.Base.{
  ℕ, zero, suc, ◌+◌, ◌≤◌, ◌<◌, ◌≡◌, ◌⊎◌, refl, ◌∙◌, inl, inr, Option, some, List, [], ◌∷◌, ◌++◌,
  false, leb, arith, Bool-cases,
}
use vehicle_lifecycle_manage.Domain.Failure.{Result, ok, err, Result-cases}
use vehicle_lifecycle_manage.Indexer.Cursor.{ContractName, Progress, advance_cursor, put_self}
use vehicle_lifecycle_manage.Indexer.CatchUp.{
  Log, chunk_size, chunk_end, process_logs, chunk_loop, start_block, catch_up,
}

pub process_logs-append {ℓ} :
    {S : Type ℓ} (handle : Log → S → S) (xs ys : List Log) (s : S)
    → process_logs handle (xs ++ ys) s ≡ process_logs handle ys (process_logs handle xs s)
unfolding process_logs
process_logs-append handle [] ys s = refl
process_logs-append handle (x ∷ xs) ys s = process_logs-append handle xs ys _

-- The node answers a query, where it answers, with the logs of the blocks in the range, and the
-- logs of two adjacent ranges are those of their union.
pub record IsHistory (query : ContractName → ℕ → ℕ → Result (List Log))
    (events : ContractName → ℕ → ℕ → List Log) : Type 0 where
  pub answers : (n : ContractName) (a b : ℕ) (l : List Log) → query n a b ≡ ok l → l ≡ events n a b
  pub empty : (n : ContractName) (a : ℕ) → events n (suc a) a ≡ []
  pub splits :
      (n : ContractName) (a b c : ℕ)
      → a ≤ suc b
      → b ≤ c
      → events n a c ≡ events n a b ++ events n (suc b) c

-- The logs of the blocks after `last` and up to `upto` have been handled, and no others; the cursor
-- stands at `upto`, in memory and in the row unless nothing was written, which is the latest block if the run ended without an error.
pub record Covers {ℓ} {S : Type ℓ} (handle : Log → S → S) (events : ContractName → ℕ → ℕ → List Log)
    (name : ContractName) (row : Option ℕ) (last latest : ℕ) (s : S) (r : Result (Unit {0}))
    (q : Progress S) : Type ℓ where
  pub upto : ℕ
  pub tracked : q.tracker name ≡ some upto
  pub recorded : (q.last_block name ≡ some upto) ⊎ ((upto ≡ last) × (q.last_block name ≡ row))
  pub from_last : last ≤ upto
  pub within : upto ≤ latest
  pub handled : q.store ≡ process_logs handle (events name (suc last) upto) s
  pub finished : r ≡ ok tt → upto ≡ latest

module _ {ℓ} {S : Type ℓ} (query : ContractName → ℕ → ℕ → Result (List Log)) (handle : Log → S → S)
    (events : ContractName → ℕ → ℕ → List Log) (history : IsHistory query events)
    (name : ContractName) (row : Option ℕ) (last latest : ℕ) (s : S) where
  advanced :
      (to c : ℕ) (p : Progress S)
      → p.tracker name ≡ some c
      → c < to
      → ((advance_cursor name to p).tracker name ≡ some to)
        × ((advance_cursor name to p).last_block name ≡ some to)
        × ((advance_cursor name to p).store ≡ p.store)
  unfolding advance_cursor
  advanced to c p e h =
      ground (arith, put_self name (some to) p.tracker, put_self name (some to) p.last_block)

  -- What holds before each round, with the cursor at `c` and the next chunk at `from`.
  record Before (c from : ℕ) (p : Progress S) : Type ℓ where
    tracked : p.tracker name ≡ some c
    recorded : (p.last_block name ≡ some c) ⊎ ((c ≡ last) × (p.last_block name ≡ row))
    from_last : last ≤ c
    within : c ≤ latest
    handled : p.store ≡ process_logs handle (events name (suc last) c) s
    next : (from ≡ suc c) ⊎ ((c ≡ latest) × (latest < from))

  round-Before :
      (c from : ℕ) (logs : List Log) (p : Progress S)
      → Before c from p
      → from ≤ latest
      → query name from (chunk_end from latest) ≡ ok logs
      → Before (chunk_end from latest) (from + chunk_size) (
          advance_cursor name
            (chunk_end from latest)
            (record p { store = process_logs handle logs p.store }))
  round-Before c from logs p b more answered = record {
    tracked = moved.0;
    recorded = inl moved.1;
    from_last = ground arith;
    within = ground arith;
    handled =
        moved.2
        ∙ (rw (history.answers name from (chunk_end from latest) logs answered, b.handled)
            (rw
              (
                history.splits name (suc last) c (chunk_end from latest) (ground arith)
                    (ground arith),
                process_logs-append,
              )
              (rw (← same_start) refl)));
    next = ground arith;
  }
    where
      same_start : from ≡ suc c
      same_start = ground arith

      moved :
          ((advance_cursor name
                (chunk_end from latest)
                (record p { store = process_logs handle logs p.store })).tracker
              name
            ≡ some (chunk_end from latest))
          × ((advance_cursor name
                  (chunk_end from latest)
                  (record p { store = process_logs handle logs p.store })).last_block
                name
              ≡ some (chunk_end from latest))
          × ((advance_cursor name
                (chunk_end from latest)
                (record p { store = process_logs handle logs p.store })).store
              ≡ process_logs handle logs p.store)
      moved =
          advanced (chunk_end from latest) c (record p { store = process_logs handle logs p.store })
            b.tracked (ground arith)

  Before-Covers :
      (c from : ℕ) (p : Progress S) (r : Result (Unit {0}))
      → Before c from p
      → (r ≡ ok tt → c ≡ latest)
      → Covers handle events name row last latest s r p
  Before-Covers c from p r b done = record {
    upto = c;
    tracked = b.tracked;
    recorded = b.recorded;
    from_last = b.from_last;
    within = b.within;
    handled = b.handled;
    finished = done;
  }

  chunk_loop-Covers :
      (fuel c from : ℕ) (p : Progress S)
      → Before c from p
      → latest < from + fuel
      → Covers handle events name row last latest s
          (chunk_loop query handle fuel name from latest p).0
          (chunk_loop query handle fuel name from latest p).1
  unfolding chunk_loop
  chunk_loop-Covers zero c from p b enough = Before-Covers c from p (ok tt) b (λ _. ground arith)
  chunk_loop-Covers (suc fuel) c from p b enough = elim (Bool-cases (leb from latest)) [
    | inr past ↦ rw (past, chunk_loop) (Before-Covers c from p (ok tt) b (λ _. ground arith))
    | inl more ↦ elim (Result-cases (query name from (chunk_end from latest))) [
      | inl (e, failed) ↦ rw (more, failed, chunk_loop) (Before-Covers c from p (err e) b (λ h. cc))
      | inr (logs, answered) ↦
          rw (more, answered, chunk_loop)
            (chunk_loop-Covers fuel (chunk_end from latest) (from + chunk_size) _
              (round-Before c from logs p b (ground arith) answered) (ground arith))
    ]
  ]

module _ {ℓ} {S : Type ℓ} (query : ContractName → ℕ → ℕ → Result (List Log)) (handle : Log → S → S)
    (events : ContractName → ℕ → ℕ → List Log) (history : IsHistory query events)
    (name : ContractName) where
  -- A catch-up that starts below the latest block handles exactly the logs of a range that begins
  -- after its start block, once and in order, and leaves the cursor at the end of that range. The
  -- range ends at the latest block unless a query failed. The fuel suffices.
  pub catch_up-Covers :
      (latest : ℕ) (p : Progress S)
      → start_block query handle name latest p < latest
      → Covers handle events name
          (p.last_block name)
          (start_block query handle name latest p)
          latest
          p.store
          (catch_up query handle name latest p).0
          (catch_up query handle name latest p).1
  unfolding catch_up process_logs
  catch_up-Covers latest p below =
      let last : ℕ = start_block query handle name latest p in
      rw (not_done last below, catch_up)
        (chunk_loop-Covers query handle events history name (p.last_block name) last latest p.store
          latest last (suc last) _
          (record {
            tracked = put_self name (some last) p.tracker;
            recorded = inr (refl, refl);
            from_last = omega arith;
            within = omega arith;
            handled = rw (history.empty name last) refl;
            next = inl refl;
          })
          (omega arith))
    where
      not_done : (n : ℕ) → n < latest → leb latest n ≡ false
      not_done n h = ground arith
