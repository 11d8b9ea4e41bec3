-- ===== src/Notify/Streams/Agreement.antt =====
-- When a state of `SSEManager` agrees with the board.
use vehicle_lifecycle_manage.Base.{ℕ, ◌≡◌, ◌<◌, none, some, [], true, false}
use vehicle_lifecycle_manage.Base.Lists.{any}
use vehicle_lifecycle_manage.Notify.Streams.{SseManager, is_empty}
use vehicle_lifecycle_manage.Notify.Streams.Board.{Board, members, connection}

-- The set of a routing id holds its open responses, each routing id has its own set, and an open
-- response has captured the set that the map still refers to.
pub record Agrees (m : SseManager) (b : Board) : Type 0 where
  pub same_log : m.written ≡ b.written
  pub idle : (r : ℕ) → m.clients r ≡ none → members r b.open_now ≡ []
  pub busy : (r s : ℕ) → m.clients r ≡ some s → (m.sets s ≡ members r b.open_now) × (s < m.next_set)
  pub used : (r s : ℕ) → m.clients r ≡ some s → is_empty (members r b.open_now) ≡ false
  pub apart : (r q s : ℕ) → m.clients r ≡ some s → m.clients q ≡ some s → r ≡ q
  pub captured :
      (res r : ℕ)
      → any (connection res r) b.open_now ≡ true
      → (s : ℕ) × (m.handlers res ≡ some (r, s)) × (m.clients r ≡ some s)
