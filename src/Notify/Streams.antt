-- ===== src/Notify/Streams.antt =====
-- `SSEManager` of backend/src/modules/notification/sseManager.ts, without its heartbeat and
-- shutdown. Routing ids, responses and payloads are only compared and passed on, and stand as
-- numbers. A `Set` is an object: the map and the handlers of `close` hold references to it.
pub mod Board
pub mod Agreement
pub mod Connects
pub mod Closes
pub mod Refinement
use vehicle_lifecycle_manage.Base.{
  ℕ, suc, Option, none, some, List, [], ◌∷◌, ◌++◌, Bool, true, false, ◌==◌, not, if◌then◌else◌, map,
}
use vehicle_lifecycle_manage.Base.Lists.{any, keep}

pub data Message : Type 0 where
  connected : Message
  update : (payload : ℕ) → Message

pub record SseManager : Type 0 where
  -- `Map<string, Set<Response>>`: the reference of the set of a routing id
  pub clients : ℕ → Option ℕ
  -- the responses of the set with a reference, in the order in which they were added
  pub sets : ℕ → List ℕ
  -- the routing id and the set that the `close` handler of a response has captured
  pub handlers : ℕ → Option (ℕ × ℕ)
  -- the reference of the next `new Set()`
  pub next_set : ℕ
  -- what was written to which response, in order
  pub written : List (ℕ × Message)

abbrev pub set_at : {A : Type 0} → (ℕ → A) → ℕ → A → ℕ → A
set_at f k v i = if i == k then v else f i

-- `Set.prototype.add` and `delete`
abbrev pub add_to : ℕ → List ℕ → List ℕ
add_to x xs = if any (λ y. y == x) xs then xs else xs ++ x ∷ []

abbrev pub delete_from : ℕ → List ℕ → List ℕ
delete_from x xs = keep (λ y. not (y == x)) xs

abbrev pub is_empty : List ℕ → Bool
is_empty [] = true
is_empty (_ ∷ _) = false

-- the set of the routing id, which is created where there is none
unfoldable pub ensure_set : ℕ → SseManager → ℕ × SseManager
ensure_set routing m = elim (m.clients routing) [
  | some s ↦ (s, m)
  | none ↦ (
    m.next_set,
    record m {
      clients = set_at m.clients routing (some m.next_set);
      sets = set_at m.sets m.next_set [];
      next_set = suc m.next_set;
    },
  )
]

unfoldable pub add_client : ℕ → ℕ → SseManager → SseManager
unfolding ensure_set
add_client routing res manager =
    let (s, m) = ensure_set routing manager in
    record m {
      sets = set_at m.sets s (add_to res (m.sets s));
      handlers = set_at m.handlers res (some (routing, s));
      written = m.written ++ (res, connected) ∷ [];
    }

-- The event `close` of a response.
unfoldable pub close_client : ℕ → SseManager → SseManager
close_client res m = elim (m.handlers res) [
  | none ↦ m
  | some (routing, s) ↦
      let rest = delete_from res (m.sets s) in
      record m {
        sets = set_at m.sets s rest;
        clients = if is_empty rest then set_at m.clients routing none else m.clients;
      }
]

unfoldable pub broadcast_to : ℕ → ℕ → SseManager → SseManager
broadcast_to routing payload m = elim (m.clients routing) [
  | none ↦ m
  | some s ↦
      if is_empty (m.sets s)
      then m
      else record m { written = m.written ++ map (λ res. (res, update payload)) (m.sets s) }
]
