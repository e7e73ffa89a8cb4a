-- ===== src/Sockets.antt =====
-- backend/app/websockets/manager.py: the sockets of each process, and an event on its way to them.
-- A socket and a user are numbers. Whether a socket still takes a text is a parameter.
pub mod Laws
pub mod Deliver
mod Tests
use pandahub.Prelude.{
  ℕ, Option, none, some, Bool, true, false, not, ◌&&◌, ◌||◌, String, List, [], ◌∷◌, ◌++◌, map, any,
  ◌==◌, if◌then◌else◌,
}

-- An item of the map from users to sets of sockets.
pub record Entry : Type 0 where
  pub user_id : ℕ
  pub sockets : List ℕ

abbrev pub Connections : Type 0
Connections = List Entry

pub record Event : Type 0 where
  pub user_id : ℕ
  pub event_type : String
  pub payload : String

-- A text that a socket has taken.
pub record Sent : Type 0 where
  pub socket : ℕ
  pub event_type : String
  pub payload : String

unfoldable pub has_socket : ℕ → List ℕ → Bool
has_socket ws sockets = any (λ s. s == ws) sockets

-- set.add
unfoldable pub add : ℕ → List ℕ → List ℕ
add ws sockets = if has_socket ws sockets then sockets else ws ∷ sockets

-- set.discard
unfoldable pub discard : ℕ → List ℕ → List ℕ
discard ws [] = []
discard ws (s ∷ sockets) = let rest = discard ws sockets in if s == ws then rest else s ∷ rest

-- self._connections.setdefault(user_id, set()).add(websocket)
unfoldable pub connect : (user_id websocket : ℕ) → Connections → Connections
connect user_id websocket [] = record { user_id = user_id; sockets = add websocket [] } ∷ []
connect user_id websocket (e ∷ connections) =
    let rest = connect user_id websocket connections in
    if e.user_id == user_id
    then record e { sockets = add websocket e.sockets } ∷ connections
    else e ∷ rest

-- `if not conns: self._connections.pop(user_id, None)`
unfoldable pub keep : Entry → Connections → Connections
keep e connections = elim e.sockets [ [] ↦ connections | s ∷ sockets ↦ e ∷ connections ]

unfoldable pub disconnect : (user_id websocket : ℕ) → Connections → Connections
disconnect user_id websocket [] = []
disconnect user_id websocket (e ∷ connections) =
    let rest = disconnect user_id websocket connections in
    if e.user_id == user_id
    then keep (record e { sockets = discard websocket e.sockets }) connections
    else e ∷ rest

module _ (takes : ℕ → Bool) where
  -- The loop that sends: who got the text, and who is dead.
  unfoldable pub send_all : Event → List ℕ → List Sent × List ℕ
  send_all event [] = ([], [])
  send_all event (ws ∷ sockets) =
      let (sent, dead) = send_all event sockets in
      if takes ws
      then (
        record { socket = ws; event_type = event.event_type; payload = event.payload } ∷ sent,
        dead,
      )
      else (sent, ws ∷ dead)

  -- The loop that discards the dead sockets. The entry stays, even without a socket.
  unfoldable pub discard_all : List ℕ → List ℕ → List ℕ
  discard_all [] sockets = sockets
  discard_all (ws ∷ dead) sockets = discard_all dead (discard ws sockets)

  unfoldable pub deliver_local : Event → Connections → List Sent × Connections
  deliver_local event [] = ([], [])
  deliver_local event (e ∷ connections) =
      let (later, rest) = deliver_local event connections in
      let (sent, dead) = send_all event e.sockets in
      if e.user_id == event.user_id
      then (sent, record e { sockets = discard_all dead e.sockets } ∷ connections)
      else (later, e ∷ rest)

  -- Redis hands a published event to the listener of every process.
  unfoldable pub publish : Event → List Connections → List Sent × List Connections
  publish event [] = ([], [])
  publish event (connections ∷ processes) =
      let (sent, after) = deliver_local event connections in
      let (more, rest) = publish event processes in (sent ++ more, after ∷ rest)
