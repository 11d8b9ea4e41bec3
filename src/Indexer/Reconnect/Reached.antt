-- ===== src/Indexer/Reconnect/Reached.antt =====
-- How far `catchUpContract` and the loop of `start` over the contracts move the cursors.
use vehicle_lifecycle_manage.Base.{
  ℕ, zero, suc, ◌+◌, ◌≤◌, ◌<◌, ◌≡◌, ◌≢◌, ◌⊎◌, refl, sym, ◌∙◌, ap, subst, inl, inr, some, List, [],
  ◌∷◌, Bool, true, leb, arith, Bool-cases, same, same→eq,
}
use vehicle_lifecycle_manage.Base.Lists.{any}
use vehicle_lifecycle_manage.Domain.Failure.{Result, ok, err, Result-cases}
use vehicle_lifecycle_manage.Indexer.Cursor.{
  ContractName, ContractName-discrete, Progress, block_or_zero, advance_cursor, put, put_self,
  put_ne, advance_cursor_moves,
}
use vehicle_lifecycle_manage.Indexer.CatchUp.{
  Log, chunk_size, chunk_end, process_logs, chunk_loop, start_block, catch_up,
}
use vehicle_lifecycle_manage.Indexer.Reconnect.{catch_up_all}

abbrev pub is_one : ContractName → ContractName → Bool
is_one k name = same ContractName-discrete k name

module _ {ℓ} {S : Type ℓ} (query : ContractName → ℕ → ℕ → Result (List Log)) (handle : Log → S → S)
    (latest : ℕ) where
  -- The cursor of the contract stands at the latest block, or above.
  abbrev pub HasReached : Progress S → ContractName → Type 0
  HasReached p k = latest ≤ block_or_zero (p.tracker k)

  -- What a run leaves: the cursors of other contracts stay, and its own has reached the latest
  -- block if the run ended without an error.
  abbrev Moves : ContractName → Progress S → Result (Unit {0}) × Progress S → Type 0
  Moves name p x =
      ((k : ContractName) → k ≢ name → x.1.tracker k ≡ p.tracker k)
      × (x.0 ≡ ok tt → HasReached x.1 name)

  chunk_loop-Moves :
      (fuel : ℕ) (name : ContractName) (from : ℕ) (p : Progress S)
      → (from ≤ suc (block_or_zero (p.tracker name))) ⊎ HasReached p name
      → latest < from + fuel
      → Moves name p (chunk_loop query handle fuel name from latest p)
  unfolding chunk_loop
  chunk_loop-Moves zero name from p next enough = (λ k apart. refl, λ done. ground arith)
  chunk_loop-Moves (suc fuel) name from p next enough = elim (Bool-cases (leb from latest)) [
    | inr past ↦ rw (past, chunk_loop) (λ k apart. refl, λ done. ground arith)
    | inl more ↦ elim (Result-cases (query name from (chunk_end from latest))) [
      | inl (e, failed) ↦ rw (more, failed, chunk_loop) (λ k apart. refl, λ done. cc)
      | inr (logs, answered) ↦
          rw (more, answered, chunk_loop)
            (chained (chunk_loop query handle fuel name (from + chunk_size) latest (advanced logs))
              (advanced logs)
              (λ k apart.
                (advance_cursor_moves name k (chunk_end from latest) (handled logs)).2
                  (λ e. apart e))
              (chunk_loop-Moves fuel name (from + chunk_size) (advanced logs)
                (next_chunk logs (ground arith)) (ground arith)))
    ]
  ]
    where
      handled : List Log → Progress S
      handled logs = record p { store = process_logs handle logs p.store }

      advanced : List Log → Progress S
      advanced logs = advance_cursor name (chunk_end from latest) (handled logs)

      next_chunk :
          (logs : List Log)
          → from ≤ latest
          → (from + chunk_size ≤ suc (block_or_zero ((advanced logs).tracker name)))
            ⊎ HasReached (advanced logs) name
      next_chunk logs more =
          ground (arith, (advance_cursor_moves name name (chunk_end from latest) (handled logs)).1)

      chained :
          (x : Result (Unit {0}) × Progress S) (q : Progress S)
          → ((k : ContractName)
              → k ≢ name
              → (q.tracker k ≡ p.tracker k) × (q.last_block k ≡ p.last_block k))
          → Moves name q x
          → Moves name p x
      chained x q first (others, own) = (λ k apart. others k apart ∙ (first k apart).0, own)

  catch_up-Moves :
      (name : ContractName) (p : Progress S) → Moves name p (catch_up query handle name latest p)
  unfolding catch_up
  catch_up-Moves name p = elim (Bool-cases (leb latest last)) [
    | inl done ↦ rw (done, catch_up) (others, λ _. ground (arith, own))
    | inr below ↦
        let loop : Moves name started
            (chunk_loop query handle latest name (suc last) latest started) =
          chunk_loop-Moves latest name (suc last) started (inl (ground (arith, own)))
            (omega arith) in
        rw (below, catch_up) (λ k apart. loop.0 k apart ∙ others k apart, loop.1)
  ]
    where
      last : ℕ
      last = start_block query handle name latest p

      started : Progress S
      started = record p { tracker = put name (some last) p.tracker }

      own : started.tracker name ≡ some last
      own = put_self name (some last) p.tracker

      others : (k : ContractName) → k ≢ name → started.tracker k ≡ p.tracker k
      others k apart = put_ne name k (some last) p.tracker (λ e. apart (sym e))

  after_one :
      (name k : ContractName) (p : Progress S) (x : Result (Unit {0}) × Progress S)
      → Moves name p x
      → x.0 ≡ ok tt
      → (k ≡ name) ⊎ HasReached p k
      → HasReached x.1 k
  after_one name k p x (others, own) done h = elim (ContractName-discrete k name) [
    | yes e ↦ subst (HasReached x.1) (sym e) (own done)
    | no apart ↦ elim h [ inl e ↦ absurd (apart e) | inr reached ↦ rw (others k apart) reached ]
  ]

  -- A run over contracts that ends without an error reaches the latest block for each of them.
  pub catch_up_all-reaches :
      (reported : Result ℕ) (names : List ContractName) (k : ContractName) (p q : Progress S)
      → (any (is_one k) names ≡ true) ⊎ HasReached p k
      → catch_up_all query handle reported names latest p ≡ (ok tt, q)
      → HasReached q k
  unfolding catch_up_all
  catch_up_all-reaches reported [] k p q (inl e) done = cc
  catch_up_all-reaches reported [] k p q (inr h) done =
      subst (λ (r : Progress S). HasReached r k) (ap (λ x. x.1) done) h
  catch_up_all-reaches reported (name ∷ names) k p q h done =
      by_outcome (λ r h. catch_up_all-reaches reported names k r q h) _ (catch_up-Moves name p) done
    where
      split : (any (is_one k) names ≡ true) ⊎ ((k ≡ name) ⊎ HasReached p k)
      split = elim h [
        | inr reached ↦ inr (inr reached)
        | inl listed ↦ elim (Bool-cases (is_one k name)) [
          | inl here ↦ inr (inl (same→eq ContractName-discrete k name here))
          | inr other ↦ inl (ground (arith, listed))
        ]
      ]

      by_outcome :
          ((r : Progress S)
            → (any (is_one k) names ≡ true) ⊎ HasReached r k
            → catch_up_all query handle reported names latest r ≡ (ok tt, q)
            → HasReached q k)
          → (x : Result (Unit {0}) × Progress S) → Moves name p x
          → (elim x.0 as (λ _. Result (Unit {0}) × Progress S) [
            | err e ↦ (err e, x.1)
            | ok _ ↦ catch_up_all query handle reported names latest x.1
          ])
            ≡ (ok tt, q)
          → HasReached q k
      by_outcome later (err e, r) m is_done = cc
      by_outcome later (ok u, r) m is_done =
          later r
            (elim split [
              | inl listed ↦ inl listed
              | inr now ↦ inr (after_one name k p (ok u, r) m refl now)
            ])
            is_done
