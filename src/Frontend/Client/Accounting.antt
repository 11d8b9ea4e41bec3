-- ===== src/Frontend/Client/Accounting.antt =====
-- Where the requests of a client are, when it sends one and when an answer comes.
use vehicle_lifecycle_manage.Base.{
  ℕ, ◌+◌, ◌≤◌, ◌≡◌, ◌⊎◌, inl, inr, refl, Option, none, some, List, [], ◌∷◌, Bool, true, false,
  arith, Bool-cases,
}
use vehicle_lifecycle_manage.Base.Lists.{any}
use vehicle_lifecycle_manage.Frontend.Client.Problems.{Problem, is_unauthorized}
use vehicle_lifecycle_manage.Frontend.Client.{
  Client, Outcome, resolved, is_request, delete_one, requests, send_all, settle, join_refresh,
  on_problem, on_answer,
}
use vehicle_lifecycle_manage.Frontend.Client.Count.{
  count, count-append, count-delete, count-absent, requests-append,
}

-- Nobody refreshes and nobody waits, or one request awaits the refresh.
abbrev pub OneRefresh : Client → Type 0
OneRefresh c =
    ((c.refreshing ≡ false) × (c.awaiting ≡ []) × (c.subscribers ≡ []))
    ⊎ ((leader : ℕ) × (c.refreshing ≡ true) × (c.awaiting ≡ leader ∷ []))

-- Where the requests are that the application has sent.
pub record IsAccounted (ns : List ℕ) (c : Client) : Type 0 where
  pub single : OneRefresh c
  -- each is in one place: in flight, waiting, awaiting the refresh, or settled
  pub placed :
      (k : ℕ)
      → count k c.in_flight
          + count k (requests c.subscribers)
          + count k c.awaiting
          + count k (requests c.settled)
        ≡ count k ns
  -- each went over the wire, and at most once more after it was marked and no longer waits
  pub went : (k : ℕ) → count k ns ≤ count k c.wire
  pub wired :
      (k : ℕ)
      → count k c.wire + count k (requests c.subscribers) + count k c.awaiting
        ≤ count k ns + count k c.marked
  pub once : (k : ℕ) → count k c.marked ≤ 1

module _ (is_refresh : ℕ → Bool) where
  pub sends-IsAccounted :
      (ns : List ℕ) (c : Client) (n : ℕ)
      → IsAccounted ns c
      → IsAccounted (n ∷ ns) (send_all (n ∷ []) c)
  unfolding send_all
  sends-IsAccounted ns c n a = record {
    single = a.single;
    placed = λ k. ground (arith, a.placed k, count-append k c.in_flight (n ∷ []));
    went = λ k. ground (arith, a.went k, count-append k c.wire (n ∷ []));
    wired = λ k. ground (arith, a.wired k, count-append k c.wire (n ∷ []));
    once = a.once;
  }

-- The same while a request is in the hands of the interceptor, and in none of the places.
record IsHandling (n : ℕ) (ns : List ℕ) (c : Client) : Type 0 where
  single : OneRefresh c
  placed :
      (k : ℕ)
      → count k c.in_flight
          + count k (requests c.subscribers)
          + count k c.awaiting
          + count k (requests c.settled)
          + count k (n ∷ [])
        ≡ count k ns
  went : (k : ℕ) → count k ns ≤ count k c.wire
  wired :
      (k : ℕ)
      → count k c.wire + count k (requests c.subscribers) + count k c.awaiting
        ≤ count k ns + count k c.marked
  once : (k : ℕ) → count k c.marked ≤ 1

module _ (n : ℕ) (ns : List ℕ) (c : Client) where
  settle-IsAccounted : (o : Outcome) → IsHandling n ns c → IsAccounted ns (settle n o c)
  unfolding settle
  settle-IsAccounted o h = record {
    single = h.single;
    placed = λ k. ground (
      arith,
      h.placed k,
      requests-append c.settled ((n, o) ∷ []),
      count-append k (requests c.settled) (n ∷ []),
    );
    went = h.went;
    wired = h.wired;
    once = h.once;
  }

  join-IsAccounted :
      (p : Problem)
      → any (is_request n) c.marked ≡ false
      → IsHandling n ns c
      → IsAccounted ns (join_refresh n p c)
  unfolding join_refresh
  join-IsAccounted p new h = elim h.single [
    | inl (idle, nobody, none_waits) ↦
        rw (join_refresh, idle)
          (record {
            single = inr (n, refl, ground arith);
            placed = λ k. ground (arith, h.placed k, count-append k c.awaiting (n ∷ []));
            went = h.went;
            wired = λ k. ground (arith, h.wired k, count-append k c.awaiting (n ∷ []));
            once = λ k. ground (arith, h.once k, count-absent n c.marked new);
          })
    | inr (leader, busy, awaits) ↦
        rw (join_refresh, busy)
          (record {
            single = inr (leader, refl, awaits);
            placed = λ k. ground (
              arith,
              h.placed k,
              requests-append c.subscribers ((n, p) ∷ []),
              count-append k (requests c.subscribers) (n ∷ []),
            );
            went = h.went;
            wired = λ k. ground (
              arith,
              h.wired k,
              requests-append c.subscribers ((n, p) ∷ []),
              count-append k (requests c.subscribers) (n ∷ []),
            );
            once = λ k. ground (arith, h.once k, count-absent n c.marked new);
          })
  ]

  problem-IsAccounted :
      (is_refresh : ℕ → Bool) (p : Problem)
      → IsHandling n ns c
      → IsAccounted ns (on_problem is_refresh n p c)
  unfolding on_problem
  problem-IsAccounted is_refresh p h = elim (Bool-cases (is_unauthorized p)) [
    | inr other ↦ rw (on_problem, other) (settle-IsAccounted _ h)
    | inl denied ↦ elim (Bool-cases (any (is_request n) c.marked)) [
      | inl again ↦ rw (on_problem, denied, again) (settle-IsAccounted _ h)
      | inr new ↦ elim (Bool-cases (is_refresh n)) [
        | inl its_refresh ↦ rw (on_problem, denied, new, its_refresh) (settle-IsAccounted _ h)
        | inr ordinary ↦ rw (on_problem, denied, new, ordinary) (join-IsAccounted p new h)
      ]
    ]
  ]

  taken-IsHandling :
      any (is_request n) c.in_flight ≡ true
      → IsAccounted ns c
      → IsHandling n ns (record c { in_flight = delete_one n c.in_flight })
  taken-IsHandling flies a = record {
    single = a.single;
    placed = λ k. ground (arith, a.placed k, count-delete k n c.in_flight flies);
    went = a.went;
    wired = a.wired;
    once = a.once;
  }

pub answer-IsAccounted :
    (is_refresh : ℕ → Bool) (n : ℕ) (ns : List ℕ) (reply : Option Problem) (c : Client)
    → any (is_request n) c.in_flight ≡ true
    → IsAccounted ns c
    → IsAccounted ns (on_answer is_refresh n reply c)
unfolding on_answer
answer-IsAccounted is_refresh n ns none c flies a =
    settle-IsAccounted n ns _ resolved (taken-IsHandling n ns c flies a)
answer-IsAccounted is_refresh n ns (some p) c flies a =
    problem-IsAccounted n ns _ is_refresh p (taken-IsHandling n ns c flies a)
