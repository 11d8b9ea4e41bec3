-- ===== src/Notify/Streams/Refinement.antt =====
-- `SSEManager` keeps the promise of the board.
use vehicle_lifecycle_manage.Base.{
  ℕ, ◌≡◌, refl, sym, subst, none, List, [], ◌∷◌, ◌++◌, arith, map, is_none, Option-cases, inl, inr,
}
use mathlib.Core.List.{append-nil}
use vehicle_lifecycle_manage.Notify.Streams.{update, SseManager, is_empty, broadcast_to}
use vehicle_lifecycle_manage.Notify.Streams.Board.{
  Board, Event, members, promised, handled, Fits, AllFit, promised_all, handled_all,
}
use vehicle_lifecycle_manage.Notify.Streams.Agreement.{Agrees}
use vehicle_lifecycle_manage.Notify.Streams.Connects.{connects-Agrees}
use vehicle_lifecycle_manage.Notify.Streams.Closes.{open_connection, closes-Agrees}

module _ (m : SseManager) (b : Board) (a : Agrees m b) where
  abbrev notified : ℕ → ℕ → SseManager
  notified r payload = record m {
    written = m.written ++ map (λ res. (res, update payload)) (members r b.open_now);
  }

  notified_lem : (r payload : ℕ) → broadcast_to r payload m ≡ notified r payload
  unfolding broadcast_to
  notified_lem r payload = elim (Option-cases (m.clients r)) [
    | inl nobody ↦ ground (arith, a.idle r nobody, append-nil m.written)
    | inr (s, held) ↦ ground (arith, a.busy r s held, a.used r s held)
  ]

  notifies-Agrees :
      (r payload : ℕ) → Agrees (broadcast_to r payload m) (promised (Event.notifies r payload) b)
  notifies-Agrees r payload =
      subst (λ n. Agrees n (promised (Event.notifies r payload) b)) (sym (notified_lem r payload))
        (record {
          same_log = ground (arith, a.same_log);
          idle = a.idle;
          busy = a.busy;
          used = a.used;
          apart = a.apart;
          captured = a.captured;
        })

  handled-Agrees : (e : Event) → Fits e b → Agrees (handled e m) (promised e b)
  handled-Agrees (Event.connects r res) fits = connects-Agrees m b a r res fits
  handled-Agrees (Event.closes res) fits =
      let (r, listed) = open_connection res b.open_now fits in
      let (s, held, mapped) = a.captured res r listed in
      closes-Agrees m b a res r s listed held mapped
  handled-Agrees (Event.notifies r payload) fits = notifies-Agrees r payload

abbrev pub new_manager : SseManager
new_manager = record {
  clients = λ _. none;
  sets = λ _. [];
  handlers = λ _. none;
  next_set = 0;
  written = [];
}

abbrev pub new_board : Board
new_board = record { open_now = []; written = [] }

all-Agrees :
    (es : List Event) (m : SseManager) (b : Board)
    → AllFit es b
    → Agrees m b
    → Agrees (handled_all es m) (promised_all es b)
all-Agrees [] m b fit a = a
all-Agrees (e ∷ es) m b fit a =
    all-Agrees es (handled e m) (promised e b) fit.1 (handled-Agrees m b a e fit.0)

-- From the start on, and for every sequence in which a response connects only while it is not open
-- and closes only while it is: the manager writes exactly what the board promises (each message to
-- the connections that are open for its routing id then, in the order in which they opened, and to
-- no other), and keeps an entry for just those routing ids that have an open connection.
pub manager_refines :
    (es : List Event)
    → AllFit es new_board
    → ((handled_all es new_manager).written ≡ (promised_all es new_board).written)
      × ((r : ℕ)
          → is_none ((handled_all es new_manager).clients r)
            ≡ is_empty (members r (promised_all es new_board).open_now))
manager_refines es fit =
    let a : Agrees (handled_all es new_manager) (promised_all es new_board) =
      all-Agrees es new_manager new_board fit (record {
        same_log = refl;
        idle = λ r h. refl;
        busy = λ r s h. cc;
        used = λ r s h. cc;
        apart = λ r q s h k. cc;
        captured = λ res r h. cc;
      }) in
    (
      a.same_log,
      λ r. elim (Option-cases ((handled_all es new_manager).clients r)) [
        | inl nobody ↦ rw (nobody, a.idle r nobody) refl
        | inr (s, held) ↦ rw (held, a.used r s held) refl
      ],
    )
