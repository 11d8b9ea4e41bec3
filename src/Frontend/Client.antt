-- ===== src/Frontend/Client.antt =====
-- `apiClient` of frontend/src/lib/api.ts: the interceptor of its responses, with the refresh of the
-- access token that several requests share. A request is a number, and stands for its config
-- object, which axios hands on to the request that is sent again.
pub mod Problems
pub mod Machine
pub mod Count
pub mod Accounting
pub mod Invariant
use vehicle_lifecycle_manage.Base.{
  ℕ, Option, none, some, List, [], ◌∷◌, ◌++◌, Bool, true, false, ◌==◌, ◌&&◌, not, if◌then◌else◌,
  map,
}
use vehicle_lifecycle_manage.Base.Lists.{any}
use vehicle_lifecycle_manage.Base.Text.{text}
use vehicle_lifecycle_manage.Frontend.Client.Problems.{
  Problem, ApiError, standardized, is_unauthorized, or_default,
}

-- What a promise of a request is rejected with.
pub data Reason : Type 0 where
  raw : (problem : Problem) → Reason
  api : (error : ApiError) → Reason

pub data Outcome : Type 0 where
  resolved : Outcome
  rejected : (reason : Reason) → Outcome

pub record Client : Type 0 where
  -- `isRefreshing` and `refreshSubscribers`: the requests that wait, each with its error
  pub refreshing : Bool
  pub subscribers : List (ℕ × Problem)
  -- the requests whose config has `_isRetry`
  pub marked : List ℕ
  -- the requests that the server has not answered
  pub in_flight : List ℕ
  -- the requests whose handler awaits the answer to a post to /auth/refresh
  pub awaiting : List ℕ
  -- the promises that were settled, and what went over the wire, in order
  pub settled : List (ℕ × Outcome)
  pub wire : List ℕ

abbrev pub fresh_client : Client
fresh_client = record {
  refreshing = false;
  subscribers = [];
  marked = [];
  in_flight = [];
  awaiting = [];
  settled = [];
  wire = [];
}

abbrev pub is_request : ℕ → ℕ → Bool
is_request k n = n == k

abbrev pub delete_one : ℕ → List ℕ → List ℕ
delete_one k [] = []
delete_one k (n ∷ ns) = let rest = delete_one k ns in if n == k then ns else n ∷ rest

abbrev pub requests : {A : Type 0} → List (ℕ × A) → List ℕ
requests [] = []
requests ((n, _) ∷ xs) = n ∷ requests xs

-- `apiClient(request)`
unfoldable pub send_all : List ℕ → Client → Client
send_all ns c = record c { in_flight = c.in_flight ++ ns; wire = c.wire ++ ns }

unfoldable pub settle : ℕ → Outcome → Client → Client
settle n o c = record c { settled = c.settled ++ (n, o) ∷ [] }

-- A request that got 401 for the first time waits for the refresh, and begins it where there is
-- none.
unfoldable pub join_refresh : ℕ → Problem → Client → Client
join_refresh n p c =
    if c.refreshing
    then record c { marked = n ∷ c.marked; subscribers = c.subscribers ++ (n, p) ∷ [] }
    else record c { marked = n ∷ c.marked; refreshing = true; awaiting = c.awaiting ++ n ∷ [] }

-- The interceptor on an error. `is_refresh` tells whether the url is that of the refresh.
unfoldable pub on_problem : (ℕ → Bool) → ℕ → Problem → Client → Client
unfolding join_refresh settle
on_problem is_refresh n p c =
    if is_unauthorized p && not (any (is_request n) c.marked)
    then if is_refresh n then settle n (rejected (raw p)) c else join_refresh n p c
    else settle n (rejected (api (standardized p))) c

-- A request is answered: with success (no problem), or with a problem.
unfoldable pub on_answer : (ℕ → Bool) → ℕ → Option Problem → Client → Client
unfolding on_problem settle
on_answer is_refresh n none c =
    settle n resolved (record c { in_flight = delete_one n c.in_flight })
on_answer is_refresh n (some p) c =
    on_problem is_refresh n p (record c { in_flight = delete_one n c.in_flight })

-- What the interceptor makes of a refresh that failed, which is never sent again.
abbrev pub refresh_reason : Problem → Reason
refresh_reason p = if is_unauthorized p then raw p else api (standardized p)

-- `axios.isAxiosError(refreshError) ? (refreshError.response?.status || 401) : 401`
abbrev pub expired_status : Reason → ℕ
expired_status (raw p) = or_default p.status 401
expired_status (api e) = 401

abbrev pub session_expired : Problem → ApiError
session_expired p = record {
  status = expired_status (refresh_reason p);
  message = text "Session expired. Please log in again.";
  code = none;
}

abbrev pub waiter_rejected : ℕ × Problem → ℕ × Outcome
waiter_rejected (n, p) = (n, rejected (raw p))

-- The refresh that a request awaits is answered; `onRefreshComplete` comes before the request
-- itself.
unfoldable pub on_refreshed : ℕ → Option Problem → Client → Client
unfolding send_all settle
on_refreshed n none c =
    send_all (requests c.subscribers ++ n ∷ [])
      (record c { awaiting = delete_one n c.awaiting; refreshing = false; subscribers = [] })
on_refreshed n (some p) c = settle n (rejected (api (session_expired p))) (record c {
  awaiting = delete_one n c.awaiting;
  refreshing = false;
  settled = c.settled ++ map waiter_rejected c.subscribers;
  subscribers = [];
})
