-- ===== src/Indexer/Reconnect.antt =====
-- `start`, `handleReconnect` and the timer that calls `start` again. The parameters are the node:
-- whether a socket can be opened, the latest block and the logs, each of which may fail.
pub mod Reached
pub mod Outcome
use vehicle_lifecycle_manage.Base.{
  ℕ, suc, ◌+◌, ◌*◌, ◌^◌, Option, none, some, List, [], ◌∷◌, Bool, true, false, leb, if◌then◌else◌,
}
use vehicle_lifecycle_manage.Domain.Failure.{Result, ok, err}
use vehicle_lifecycle_manage.Indexer.Cursor.{
  ContractName, digital_vehicle_passport, ownership_token, challan_contract, insurance_token,
  puc_token, loan_contract, gnosis_safe, Progress,
}
use vehicle_lifecycle_manage.Indexer.CatchUp.{Log, catch_up}

pub record Service {ℓ} (S : Type ℓ) : Type ℓ where
  pub progress : Progress S
  pub is_running : Bool
  -- the current `WebSocketProvider`, by the order of creation
  pub provider : ℕ
  -- the provider to which the live listeners are bound
  pub bound_to : Option ℕ
  -- the delay of the pending timer
  pub timer : Option ℕ
  pub attempts : ℕ

abbrev pub max_delay : ℕ
max_delay = 30000

-- `Math.min(1000 * (2 ** this.reconnectAttempts), 30000)`
unfoldable pub backoff : ℕ → ℕ
backoff attempts = if leb (1000 * 2 ^ attempts) max_delay then 1000 * 2 ^ attempts else max_delay

module _ {ℓ} {S : Type ℓ} where
  unfoldable pub handle_reconnect : Service S → Service S
  handle_reconnect s = record s { timer = some (backoff s.attempts) }

-- the order in which `start` catches up
abbrev pub all_contracts : List ContractName
all_contracts =
    digital_vehicle_passport ∷ ownership_token ∷ challan_contract ∷ insurance_token ∷ puc_token
    ∷ loan_contract ∷ gnosis_safe ∷ []

module _ {ℓ} {S : Type ℓ} (query : ContractName → ℕ → ℕ → Result (List Log)) (handle : Log → S → S)
    (latest : Result ℕ) where
  unfoldable pub catch_up_all : List ContractName → ℕ → Progress S → Result (Unit {0}) × Progress S
  catch_up_all [] n p = (ok tt, p)
  catch_up_all (name ∷ names) n p =
      let (r, q) = catch_up query handle name n p in
      elim r [ err e ↦ (err e, q) | ok _ ↦ catch_up_all names n q ]

  -- the end of `start`, after the catch-up
  listen_or_retry : Service S → Result (Unit {0}) × Progress S → Service S
  unfolding handle_reconnect
  listen_or_retry s (ok _, p) = record s { progress = p; bound_to = some s.provider }
  listen_or_retry s (err _, p) = handle_reconnect (record s { progress = p; is_running = false })

  begin_catch_up : Service S → Result ℕ → Service S
  unfolding listen_or_retry
  begin_catch_up s (err e) = listen_or_retry s (err e, s.progress)
  begin_catch_up s (ok n) = listen_or_retry s (catch_up_all all_contracts n s.progress)

  unfoldable pub start : Service S → Service S
  unfolding begin_catch_up
  start s = if s.is_running then s else begin_catch_up (record s { is_running = true }) latest

  -- The callback of the timer; `opens` says whether `createProvider` returns.
  unfoldable pub timer_fires : Bool → Service S → Service S
  unfolding handle_reconnect
  timer_fires opens s =
      let counted = record s { timer = none; attempts = suc s.attempts } in
      if opens
      then record (start (record counted { provider = suc s.provider })) { attempts = 0 }
      else handle_reconnect counted
