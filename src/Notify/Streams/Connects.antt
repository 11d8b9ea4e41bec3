-- ===== src/Notify/Streams/Connects.antt =====
-- A new connection keeps `SSEManager` and the board in agreement.
use vehicle_lifecycle_manage.Base.{
  ℕ, suc, ◌≡◌, refl, subst, none, some, List, [], ◌∷◌, ◌++◌, true, false, arith, Option-cases,
  Bool-cases, inl, inr,
}
use vehicle_lifecycle_manage.Base.Lists.{any}
use vehicle_lifecycle_manage.Notify.Streams.{connected, SseManager, set_at, is_empty, add_client}
use vehicle_lifecycle_manage.Notify.Streams.Board.{
  Connection, Board, Event, members, is_response, promised, members-append, members-fresh,
  connection, connection-open, connection-append,
}
use vehicle_lifecycle_manage.Notify.Streams.Agreement.{Agrees}

grown : (xs : List ℕ) (x : ℕ) → is_empty (xs ++ x ∷ []) ≡ false
grown [] x = refl
grown (y ∷ xs) x = refl

module _ (m : SseManager) (b : Board) (a : Agrees m b) (routing res : ℕ)
    (fresh : any (is_response res) b.open_now ≡ false) where
  abbrev arrival : Connection
  arrival = record { response = res; routing = routing }

  not_listed : (r : ℕ) → any (connection res r) b.open_now ≡ false
  not_listed r = elim (Bool-cases (any (connection res r) b.open_now)) [
    | inr no_such ↦ no_such
    | inl listed ↦ ground (arith, connection-open res r b.open_now listed)
  ]

  abbrev after : Board
  after = promised (Event.connects routing res) b

  -- the manager after a first tab, and after a further one
  abbrev first_tab : SseManager
  first_tab = record m {
    clients = set_at m.clients routing (some m.next_set);
    sets = set_at (set_at m.sets m.next_set []) m.next_set (res ∷ []);
    handlers = set_at m.handlers res (some (routing, m.next_set));
    next_set = suc m.next_set;
    written = m.written ++ (res, connected) ∷ [];
  }

  abbrev further_tab : ℕ → SseManager
  further_tab s = record m {
    sets = set_at m.sets s (m.sets s ++ res ∷ []);
    handlers = set_at m.handlers res (some (routing, s));
    written = m.written ++ (res, connected) ∷ [];
  }

  first_captured :
      m.clients routing ≡ none
      → (x r : ℕ) → any (connection x r) after.open_now ≡ true
      → (s : ℕ) × (first_tab.handlers x ≡ some (r, s)) × (first_tab.clients r ≡ some s)
  first_captured new x r h = elim (Bool-cases (any (connection x r) b.open_now)) [
    | inl old ↦
        let (s, held, mapped) = a.captured x r old in
        (s, ground (arith, connection-open x r b.open_now old), ground arith)
    | inr arrived ↦ (
      m.next_set,
      ground (arith, connection-append x r b.open_now arrival),
      ground (arith, connection-append x r b.open_now arrival),
    )
  ]

  first_tab-Agrees : m.clients routing ≡ none → Agrees first_tab after
  first_tab-Agrees new = record {
    same_log = ground (arith, a.same_log);
    idle = λ r h. ground (arith, a.idle r, members-append r b.open_now arrival);
    busy = λ r s h. ground (arith, a.busy r s, a.idle r, members-append r b.open_now arrival);
    used = λ r s h. ground (arith, a.used r s, a.idle r, members-append r b.open_now arrival);
    apart = λ r q s h k. ground (arith, a.apart r q s, a.busy r s, a.busy q s);
    captured = first_captured new;
  }

  further_captured :
      (t : ℕ)
      → m.clients routing ≡ some t
      → (x r : ℕ) → any (connection x r) after.open_now ≡ true
      → (s : ℕ) × ((further_tab t).handlers x ≡ some (r, s)) × ((further_tab t).clients r ≡ some s)
  further_captured t held x r h = elim (Bool-cases (any (connection x r) b.open_now)) [
    | inl old ↦
        let (s, captured, mapped) = a.captured x r old in
        (s, ground (arith, connection-open x r b.open_now old), mapped)
    | inr arrived ↦ (
      t,
      ground (arith, connection-append x r b.open_now arrival),
      ground (arith, connection-append x r b.open_now arrival),
    )
  ]

  further_tab-Agrees : (t : ℕ) → m.clients routing ≡ some t → Agrees (further_tab t) after
  further_tab-Agrees t held = record {
    same_log = ground (arith, a.same_log);
    idle = λ r h. ground (arith, a.idle r, members-append r b.open_now arrival);
    busy = λ r s h.
        ground (arith, a.busy r s, a.apart r routing s, members-append r b.open_now arrival);
    used = λ r s h.
        ground (
          arith,
          a.used r s,
          members-append r b.open_now arrival,
          grown (members r b.open_now) res,
        );
    apart = λ r q s h k. a.apart r q s h k;
    captured = further_captured t held;
  }

  pub connects-Agrees : Agrees (add_client routing res m) after
  unfolding add_client
  connects-Agrees = elim (Option-cases (m.clients routing)) [
    | inl new ↦ subst (λ n. Agrees n after) (ground arith) (first_tab-Agrees new)
    | inr (t, held) ↦
        subst (λ n. Agrees n after)
          (ground (arith, a.busy routing t held, members-fresh routing res b.open_now fresh))
          (further_tab-Agrees t held)
  ]
