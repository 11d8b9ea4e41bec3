-- ===== src/Frontend/Client/Invariant.antt =====
-- No request is lost, none is sent more than twice, and there is one refresh at a time.
use vehicle_lifecycle_manage.Base.{
  ℕ, suc, ◌≤◌, ◌≡◌, inl, inr, refl, Option, none, some, List, [], ◌∷◌, ◌++◌, Bool, true, arith, map,
}
use vehicle_lifecycle_manage.Base.Lists.{any}
use vehicle_lifecycle_manage.Frontend.Client.Problems.{Problem}
use vehicle_lifecycle_manage.Frontend.Client.{
  Client, rejected, api, is_request, delete_one, requests, send_all, settle, on_refreshed,
  waiter_rejected, session_expired,
}
use vehicle_lifecycle_manage.Frontend.Client.Machine.{
  Reachable, begin, sends, answer_comes, refresh_ends,
}
use vehicle_lifecycle_manage.Frontend.Client.Count.{
  count, count-append, count-delete, requests-append, requests-rejected,
}
use vehicle_lifecycle_manage.Frontend.Client.Accounting.{
  OneRefresh, IsAccounted, sends-IsAccounted, answer-IsAccounted,
}

-- The one that awaits is the one that is answered, and then none is left.
alone :
    (n leader : ℕ) (xs : List ℕ)
    → xs ≡ leader ∷ []
    → any (is_request n) xs ≡ true
    → (delete_one n xs ≡ []) × (leader ≡ n)
alone n leader xs e h = rw e (ground arith, ground arith)

refreshed-single :
    (n : ℕ) (c : Client)
    → any (is_request n) c.awaiting ≡ true
    → OneRefresh c
    → delete_one n c.awaiting ≡ []
refreshed-single n c listed (inl (idle, nobody, none_waits)) = ground arith
refreshed-single n c listed (inr (leader, busy, awaits)) =
    (alone n leader c.awaiting awaits listed).0

module _ (n : ℕ) (ns : List ℕ) (c : Client) (listed : any (is_request n) c.awaiting ≡ true)
    (a : IsAccounted ns c) where
  resent-IsAccounted : IsAccounted ns (on_refreshed n none c)
  unfolding on_refreshed send_all
  resent-IsAccounted = record {
    single = inl (refl, refreshed-single n c listed a.single, refl);
    placed = λ k. ground (
      arith,
      a.placed k,
      count-delete k n c.awaiting listed,
      count-append k c.in_flight (requests c.subscribers ++ n ∷ []),
      count-append k (requests c.subscribers) (n ∷ []),
    );
    went = λ k. ground (arith, a.went k, count-append k c.wire (requests c.subscribers ++ n ∷ []));
    wired = λ k. ground (
      arith,
      a.wired k,
      count-delete k n c.awaiting listed,
      count-append k c.wire (requests c.subscribers ++ n ∷ []),
      count-append k (requests c.subscribers) (n ∷ []),
    );
    once = a.once;
  }

  given_up-IsAccounted : (p : Problem) → IsAccounted ns (on_refreshed n (some p) c)
  unfolding on_refreshed settle
  given_up-IsAccounted p = record {
    single = inl (refl, refreshed-single n c listed a.single, refl);
    placed = λ k. ground (
      arith,
      a.placed k,
      count-delete k n c.awaiting listed,
      requests-append (c.settled ++ map waiter_rejected c.subscribers)
          ((n, rejected (api (session_expired p))) ∷ []),
      requests-append c.settled (map waiter_rejected c.subscribers),
      requests-rejected c.subscribers,
      count-append k (requests c.settled ++ requests c.subscribers) (n ∷ []),
      count-append k (requests c.settled) (requests c.subscribers),
    );
    went = a.went;
    wired = λ k. ground (arith, a.wired k, count-delete k n c.awaiting listed);
    once = a.once;
  }

refreshed-IsAccounted :
    (n : ℕ) (ns : List ℕ) (reply : Option Problem) (c : Client)
    → any (is_request n) c.awaiting ≡ true
    → IsAccounted ns c
    → IsAccounted ns (on_refreshed n reply c)
refreshed-IsAccounted n ns none c listed a = resent-IsAccounted n ns c listed a
refreshed-IsAccounted n ns (some p) c listed a = given_up-IsAccounted n ns c listed a p

-- In whatever order the application sends requests and answers come: at most one request awaits a
-- refresh, and others wait only while it does; every request that was sent is in exactly one place
-- (in flight, waiting, awaiting or settled), so none is lost and none is settled twice; it went
-- over the wire, and if the application sent it once, at most twice.
pub Reachable-IsAccounted :
    {is_refresh : ℕ → Bool} {ns : List ℕ} {c : Client}
    → Reachable is_refresh ns c
    → IsAccounted ns c × ((k : ℕ) → count k c.wire ≤ suc (count k ns))
Reachable-IsAccounted r =
    (accounted r, λ k. ground (arith, (accounted r).wired k, (accounted r).once k))
  where
    accounted :
        {is_refresh : ℕ → Bool} {ns : List ℕ} {c : Client}
        → Reachable is_refresh ns c
        → IsAccounted ns c
    accounted begin = record {
      single = inl (refl, refl, refl);
      placed = λ k. omega arith;
      went = λ k. omega arith;
      wired = λ k. omega arith;
      once = λ k. omega arith;
    }
    accounted {is_refresh} (sends ns c n r) = sends-IsAccounted is_refresh ns c n (accounted r)
    accounted {is_refresh} (answer_comes ns c n reply r flies) =
        answer-IsAccounted is_refresh n ns reply c flies (accounted r)
    accounted (refresh_ends ns c n reply r listed) =
        refreshed-IsAccounted n ns reply c listed (accounted r)
