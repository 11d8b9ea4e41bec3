-- ===== src/Frontend/Client/Machine.antt =====
-- What can happen to a client, as steps: the application sends requests, and answers come in any
-- order.
use vehicle_lifecycle_manage.Base.{ℕ, ◌≡◌, Option, List, [], ◌∷◌, Bool, true}
use vehicle_lifecycle_manage.Base.Lists.{any}
use vehicle_lifecycle_manage.Frontend.Client.Problems.{Problem}
use vehicle_lifecycle_manage.Frontend.Client.{
  Client, fresh_client, is_request, send_all, on_answer, on_refreshed,
}

-- The states that a client can reach, with the requests that the application has sent.
pub data Reachable (is_refresh : ℕ → Bool) : List ℕ → Client → Type 0 where
  begin : Reachable is_refresh [] fresh_client
  sends :
      (ns : List ℕ) (c : Client) (n : ℕ)
      → Reachable is_refresh ns c
      → Reachable is_refresh (n ∷ ns) (send_all (n ∷ []) c)
  answer_comes :
      (ns : List ℕ) (c : Client) (n : ℕ) (reply : Option Problem)
      → Reachable is_refresh ns c
      → any (is_request n) c.in_flight ≡ true
      → Reachable is_refresh ns (on_answer is_refresh n reply c)
  refresh_ends :
      (ns : List ℕ) (c : Client) (n : ℕ) (reply : Option Problem)
      → Reachable is_refresh ns c
      → any (is_request n) c.awaiting ≡ true
      → Reachable is_refresh ns (on_refreshed n reply c)
