-- ===== src/Notify/Streams/Board.antt =====
-- What `SSEManager` promises: a board of the open connections, in the order in which they opened.
use vehicle_lifecycle_manage.Base.{
  ℕ, ◌≡◌, refl, List, [], ◌∷◌, ◌++◌, Bool, true, false, ◌==◌, ◌&&◌, ◌||◌, not, map, arith,
  if◌then◌else◌,
}
use vehicle_lifecycle_manage.Base.Lists.{any, keep}
use vehicle_lifecycle_manage.Store.Table.{remove}
use vehicle_lifecycle_manage.Notify.Streams.{
  Message, connected, update, SseManager, add_client, close_client, broadcast_to,
}

pub record Connection : Type 0 where
  pub response : ℕ
  pub routing : ℕ

pub record Board : Type 0 where
  pub open_now : List Connection
  pub written : List (ℕ × Message)

-- What the outside does to the manager.
pub data Event : Type 0 where
  connects : (routing res : ℕ) → Event
  closes : (res : ℕ) → Event
  notifies : (routing payload : ℕ) → Event

-- the responses that are open for a routing id
abbrev pub members : ℕ → List Connection → List ℕ
members r [] = []
members r (c ∷ cs) = if c.routing == r then c.response ∷ members r cs else members r cs

abbrev pub is_response : ℕ → Connection → Bool
is_response res c = c.response == res

-- The specification: every open connection of the routing id gets the message, and no other.
abbrev pub promised : Event → Board → Board
promised (Event.connects routing res) b = record b {
  open_now = b.open_now ++ record { response = res; routing = routing } ∷ [];
  written = b.written ++ (res, connected) ∷ [];
}
promised (Event.closes res) b = record b { open_now = remove (is_response res) b.open_now }
promised (Event.notifies routing payload) b = record b {
  written = b.written ++ map (λ res. (res, update payload)) (members routing b.open_now);
}

abbrev pub handled : Event → SseManager → SseManager
handled (Event.connects routing res) m = add_client routing res m
handled (Event.closes res) m = close_client res m
handled (Event.notifies routing payload) m = broadcast_to routing payload m

-- A response connects while it is not open, and closes while it is.
abbrev pub Fits : Event → Board → Type 0
Fits (Event.connects routing res) b = any (is_response res) b.open_now ≡ false
Fits (Event.closes res) b = any (is_response res) b.open_now ≡ true
Fits (Event.notifies routing payload) b = Unit

abbrev pub AllFit : List Event → Board → Type 0
AllFit [] b = Unit
AllFit (e ∷ es) b = Fits e b × AllFit es (promised e b)

abbrev pub promised_all : List Event → Board → Board
promised_all [] b = b
promised_all (e ∷ es) b = promised_all es (promised e b)

abbrev pub handled_all : List Event → SseManager → SseManager
handled_all [] m = m
handled_all (e ∷ es) m = handled_all es (handled e m)

pub members-append :
    (r : ℕ) (cs : List Connection) (c : Connection)
    → members r (cs ++ c ∷ [])
      ≡ (if c.routing == r then members r cs ++ c.response ∷ [] else members r cs)
members-append r [] c = ground arith
members-append r (d ∷ cs) c = ground (arith, members-append r cs c)

pub members-fresh :
    (r res : ℕ) (cs : List Connection)
    → any (is_response res) cs ≡ false
    → any (λ y. y == res) (members r cs) ≡ false
members-fresh r res [] h = refl
members-fresh r res (c ∷ cs) h = ground (arith, members-fresh r res cs)

pub members-remove :
    (r res : ℕ) (cs : List Connection)
    → members r (remove (is_response res) cs) ≡ keep (λ y. not (y == res)) (members r cs)
members-remove r res [] = refl
members-remove r res (c ∷ cs) = ground (arith, members-remove r res cs)

abbrev pub connection : ℕ → ℕ → Connection → Bool
connection res r c = (c.response == res) && (c.routing == r)

pub any-members :
    (r res : ℕ) (cs : List Connection)
    → any (λ y. y == res) (members r cs) ≡ any (connection res r) cs
any-members r res [] = refl
any-members r res (c ∷ cs) = ground (arith, any-members r res cs)

pub connection-open :
    (res r : ℕ) (cs : List Connection)
    → any (connection res r) cs ≡ true
    → any (is_response res) cs ≡ true
connection-open res r [] h = cc
connection-open res r (c ∷ cs) h = ground (arith, connection-open res r cs)

pub connection-append :
    (res r : ℕ) (cs : List Connection) (c : Connection)
    → any (connection res r) (cs ++ c ∷ []) ≡ any (connection res r) cs || connection res r c
connection-append res r [] c = ground arith
connection-append res r (d ∷ cs) c = ground (arith, connection-append res r cs c)

pub connection-remove :
    (res r gone : ℕ) (cs : List Connection)
    → any (connection res r) (remove (is_response gone) cs)
      ≡ (if res == gone then false else any (connection res r) cs)
connection-remove res r gone [] = ground arith
connection-remove res r gone (c ∷ cs) = ground (arith, connection-remove res r gone cs)

pub delete-absent :
    (x : ℕ) (xs : List ℕ) → any (λ y. y == x) xs ≡ false → keep (λ y. not (y == x)) xs ≡ xs
delete-absent x [] h = refl
delete-absent x (y ∷ xs) h = ground (arith, delete-absent x xs)
