-- ===== src/Notify/Streams/Closes.antt =====
-- A connection that closes keeps `SSEManager` and the board in agreement.
use vehicle_lifecycle_manage.Base.{
  ℕ, ◌≡◌, ◌<◌, refl, subst, none, some, List, [], ◌∷◌, true, false, ◌==◌, arith, if◌then◌else◌,
  Bool-cases, inl, inr,
}
use vehicle_lifecycle_manage.Base.Lists.{any}
use vehicle_lifecycle_manage.Store.Table.{remove}
use vehicle_lifecycle_manage.Notify.Streams.{
  SseManager, set_at, delete_from, is_empty, close_client,
}
use vehicle_lifecycle_manage.Notify.Streams.Board.{
  Connection, Board, Event, members, is_response, promised, members-remove, connection, any-members,
  connection-remove, delete-absent,
}
use vehicle_lifecycle_manage.Notify.Streams.Agreement.{Agrees}

pub open_connection :
    (res : ℕ) (cs : List Connection)
    → any (is_response res) cs ≡ true
    → (r : ℕ) × (any (connection res r) cs ≡ true)
open_connection res [] h = cc
open_connection res (c ∷ cs) h = elim (Bool-cases (is_response res c)) [
  | inl this ↦ (c.routing, ground arith)
  | inr other ↦ let (r, found) = open_connection res cs (ground arith) in (r, ground arith)
]

is_empty-nil : (xs : List ℕ) → is_empty xs ≡ true → xs ≡ []
is_empty-nil [] h = refl
is_empty-nil (x ∷ xs) h = cc

module _ (m : SseManager) (b : Board) (a : Agrees m b) (res r s : ℕ)
    (listed : any (connection res r) b.open_now ≡ true) (held : m.handlers res ≡ some (r, s))
    (mapped : m.clients r ≡ some s) where
  abbrev left : List Connection
  left = remove (is_response res) b.open_now

  abbrev rest : List ℕ
  rest = delete_from res (m.sets s)

  abbrev closed : SseManager
  closed = record m {
    sets = set_at m.sets s rest;
    clients = if is_empty rest then set_at m.clients r none else m.clients;
  }

  rest-members : rest ≡ members r left
  rest-members = ground (arith, a.busy r s, members-remove r res b.open_now)

  still_mapped : (q t : ℕ) → closed.clients q ≡ some t → m.clients q ≡ some t
  still_mapped q t h = ground arith

  -- Only the routing id of the response that closed loses it.
  elsewhere : (q : ℕ) → (q == r) ≡ false → members q left ≡ members q b.open_now
  elsewhere q other = elim (Bool-cases (any (connection res q) b.open_now)) [
    | inl both ↦ let (t, held', _) = a.captured res q both in absurd (ground arith)
    | inr absent ↦ ground (
      arith,
      members-remove q res b.open_now,
      any-members q res b.open_now,
      delete-absent res (members q b.open_now),
    )
  ]

  close_idle : (q : ℕ) → closed.clients q ≡ none → members q left ≡ []
  close_idle q h = elim (Bool-cases (q == r)) [
    | inl same ↦ ground (arith, rest-members, is_empty-nil rest)
    | inr other ↦ ground (arith, elsewhere q other, a.idle q)
  ]

  close_busy :
      (q t : ℕ) → closed.clients q ≡ some t → (closed.sets t ≡ members q left) × (t < m.next_set)
  close_busy q t h = elim (Bool-cases (q == r)) [
    | inl same ↦ ground (arith, rest-members, still_mapped q t h, a.busy q t)
    | inr other ↦ ground (arith, elsewhere q other, still_mapped q t h, a.busy q t, a.apart q r t)
  ]

  close_used : (q t : ℕ) → closed.clients q ≡ some t → is_empty (members q left) ≡ false
  close_used q t h = elim (Bool-cases (q == r)) [
    | inl same ↦ ground (arith, rest-members)
    | inr other ↦ ground (arith, elsewhere q other, still_mapped q t h, a.used q t)
  ]

  close_captured :
      (x q : ℕ)
      → any (connection x q) left ≡ true
      → (t : ℕ) × (closed.handlers x ≡ some (q, t)) × (closed.clients q ≡ some t)
  close_captured x q h =
      let (t, held', mapped') =
        a.captured x q (ground (arith, connection-remove x q res b.open_now)) in
      (
        t,
        held',
        elim (Bool-cases (is_empty rest)) [
          | inr more ↦ rw more mapped'
          | inl gone ↦ ground (arith, rest-members, is_empty-nil rest gone, any-members q x left)
        ],
      )

  pub closes-Agrees : Agrees (close_client res m) (promised (Event.closes res) b)
  unfolding close_client
  closes-Agrees =
      subst (λ n. Agrees n (promised (Event.closes res) b)) (ground arith)
        (record {
          same_log = a.same_log;
          idle = close_idle;
          busy = close_busy;
          used = close_used;
          apart = λ q p t h k. a.apart q p t (still_mapped q t h) (still_mapped p t k);
          captured = close_captured;
        })
