-- ===== src/Tests/Frontend.antt =====
-- The theorem on the client at two requests that share a refresh.
use vehicle_lifecycle_manage.Base.{ℕ, suc, ◌≡◌, ◌≤◌, refl, none, some, [], ◌∷◌, Bool, true, false}
use vehicle_lifecycle_manage.Base.Lists.{any}
use vehicle_lifecycle_manage.Base.Text.{text}
use vehicle_lifecycle_manage.Frontend.Client.Problems.{Problem}
use vehicle_lifecycle_manage.Frontend.Client.{
  Client, fresh_client, is_request, send_all, join_refresh, on_problem, on_answer, on_refreshed,
}
use vehicle_lifecycle_manage.Frontend.Client.Machine.{
  Reachable, begin, sends, answer_comes, refresh_ends,
}
use vehicle_lifecycle_manage.Frontend.Client.Count.{count}
use vehicle_lifecycle_manage.Frontend.Client.Accounting.{IsAccounted}
use vehicle_lifecycle_manage.Frontend.Client.Invariant.{Reachable-IsAccounted}

abbrev denied : Problem
denied = record { status = some 401; body = none; message = text "Request failed" }

abbrev no_refresh : ℕ → Bool
no_refresh n = false

abbrev both_sent : Client
both_sent = send_all (2 ∷ []) (send_all (1 ∷ []) fresh_client)

abbrev first_denied : Client
first_denied = on_answer no_refresh 1 (some denied) both_sent

abbrev both_denied : Client
both_denied = on_answer no_refresh 2 (some denied) first_denied

first_flies : any (is_request 1) both_sent.in_flight ≡ true
unfolding send_all
first_flies = refl

second_flies : any (is_request 2) first_denied.in_flight ≡ true
unfolding send_all on_answer on_problem join_refresh
second_flies = refl

first_awaits : any (is_request 1) both_denied.awaiting ≡ true
unfolding send_all on_answer on_problem join_refresh
first_awaits = refl

both_wait : Reachable no_refresh (2 ∷ 1 ∷ []) both_denied
both_wait =
    answer_comes (2 ∷ 1 ∷ []) first_denied 2 (some denied)
      (answer_comes (2 ∷ 1 ∷ []) both_sent 1 (some denied)
        (sends (1 ∷ []) (send_all (1 ∷ []) fresh_client) 2 (sends [] fresh_client 1 begin))
        first_flies)
      second_flies

Reachable-IsAccounted_example :
    IsAccounted (2 ∷ 1 ∷ []) (on_refreshed 1 none both_denied)
    × ((k : ℕ) → count k (on_refreshed 1 none both_denied).wire ≤ suc (count k (2 ∷ 1 ∷ [])))
Reachable-IsAccounted_example =
    Reachable-IsAccounted (refresh_ends (2 ∷ 1 ∷ []) both_denied 1 none both_wait first_awaits)
