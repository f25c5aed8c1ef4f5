-- ===== src/Network.antt =====
-- src/core/Network/NetworkManager.h and NetworkManager.cpp: the map of sessions.
--
-- A `TcpSession::Ptr` is a number, and `store` has the session of each. The callbacks of the
-- application and the connections that are asked for are the events that an operation returns. Each
-- operation holds `sessions_mutex_` where it reads or changes the map, and is one step here.
pub mod Sessions
pub mod Shutdown
pub mod Lifecycle
pub mod Steps
pub mod Crossing
mod Examples
use local_messenger.Common.{
  ℕ, Bool, true, false, ◌==◌, if◌then◌else◌, List, [], ◌∷◌, ◌++◌, Option, none, some, Bytes,
}
use local_messenger.Common.Map.{Map, find, assign, erase}
use local_messenger.Protocol.Types.{PacketType, ping}
use local_messenger.Protocol.{Packet, make_pong}
use local_messenger.Session.{
  Session, Endpoint, remote_address, Outcome, done, ◌>>=◌, Completion, start, close, is_open, send,
  on_header_read,
}
use local_messenger.Session

pub record NetworkManager : Type 0 where
  pub sessions : Map ℕ
  pub store : ℕ → Session

pub data Event : Type 0 where
  message : Bytes → Packet → Event
  peer_lost peer_connected : Bytes → Event
  connecting : Bytes → ℕ → Event

abbrev pub set_session : ℕ → Session → (ℕ → Session) → ℕ → Session
set_session i s store j = if i == j then s else store j

unfoldable pub close_session : ℕ → NetworkManager → NetworkManager
unfolding close
close_session i m = record m { store = set_session i (close (m.store i)) m.store }

unfoldable pub close_found : Option ℕ → NetworkManager → NetworkManager
unfolding close_session
close_found none m = m
close_found (some i) m = close_session i m

-- An old session is closed, the new one takes its place and starts to read.
unfoldable pub register_session : Bytes → ℕ → NetworkManager → NetworkManager × List Event
unfolding close_found start
register_session ip i m =
    let m' : NetworkManager = close_found (find ip m.sessions) m in
    (
      record {
        sessions = assign ip i m'.sessions;
        store = set_session i (start (m'.store i)) m'.store;
      },
      peer_connected ip ∷ [],
    )

-- `remote` is the endpoint of the session's socket.
unfoldable pub on_incoming_session :
    Option Endpoint → ℕ → NetworkManager → NetworkManager × List Event
unfolding register_session remote_address
on_incoming_session remote i m = register_session (remote_address remote) i m

unfoldable pub on_session_closed : Bytes → NetworkManager → NetworkManager × List Event
on_session_closed ip m = (record m { sessions = erase ip m.sessions }, peer_lost ip ∷ [])

-- What start gives to the discovery for a lost peer.
unfoldable pub on_peer_lost : Bytes → NetworkManager → NetworkManager × List Event
unfolding close_found
on_peer_lost ip m =
    let m' : NetworkManager = close_found (find ip m.sessions) m in
    (record m' { sessions = erase ip m'.sessions }, peer_lost ip ∷ [])

abbrev pub is_found {ℓ} : {A : Type ℓ} → Option A → Bool
is_found none = false
is_found (some a) = true

unfoldable pub connect_to : Bytes → ℕ → NetworkManager → List Event
connect_to ip port m = if is_found (find ip m.sessions) then [] else connecting ip port ∷ []

unfoldable pub open_found : Option ℕ → NetworkManager → Bool
unfolding is_open
open_found none m = false
open_found (some i) m = is_open (m.store i)

unfoldable pub is_connected : Bytes → NetworkManager → Bool
unfolding open_found
is_connected ip m = open_found (find ip m.sessions) m

unfoldable pub send_session : Packet → ℕ → NetworkManager → Outcome NetworkManager
unfolding send is_open
send_session packet i m =
    if is_open (m.store i)
    then (do s ← send packet (m.store i); done (record m { store = set_session i s m.store }))
    else done m

unfoldable pub send_found : Packet → Option ℕ → NetworkManager → Outcome NetworkManager
unfolding send_session
send_found packet none m = done m
send_found packet (some i) m = send_session packet i m

unfoldable pub send_to : Bytes → Packet → NetworkManager → Outcome NetworkManager
unfolding send_found
send_to ip packet m = send_found packet (find ip m.sessions) m

unfoldable pub broadcast_over : Packet → Map ℕ → NetworkManager → Outcome NetworkManager
unfolding send_session
broadcast_over packet [] m = done m
broadcast_over packet ((ip, i) ∷ rest) m = do
  m' ← send_session packet i m
  broadcast_over packet rest m'

unfoldable pub broadcast : Packet → NetworkManager → Outcome NetworkManager
unfolding broadcast_over
broadcast packet m = broadcast_over packet m.sessions m

abbrev pub is_ping : PacketType → Bool
is_ping ping = true
is_ping _ = false

unfoldable pub on_session_packet :
    Bytes → Packet → NetworkManager → Outcome (NetworkManager × List Event)
unfolding send_to
on_session_packet ip pkt m =
    if is_ping pkt.header.type
    then (do m' ← send_to ip make_pong m; done (m', []))
    else done (m, message ip pkt ∷ [])

-- What register_session gives to a session.
unfoldable pub on_session_event :
    Bytes → Session.Event → NetworkManager → Outcome (NetworkManager × List Event)
unfolding on_session_packet on_session_closed
on_session_event ip (Session.packet p) m = on_session_packet ip p m
on_session_event ip (Session.closing context ec) m = done (on_session_closed ip m)

unfoldable pub on_session_events :
    Bytes → List Session.Event → NetworkManager → Outcome (NetworkManager × List Event)
unfolding on_session_event
on_session_events ip [] m = done (m, [])
on_session_events ip (e ∷ es) m = do
  (m', out) ← on_session_event ip e m
  (m'', out') ← on_session_events ip es m'
  done (m'', out ++ out')

-- The header read of the session that was registered for the address completes.
unfoldable pub header_read_done :
    Bytes → ℕ → Completion → NetworkManager → Outcome (NetworkManager × List Event)
unfolding on_session_events on_header_read
header_read_done ip i c m =
    let (s, es) = on_header_read c (m.store i) in
    on_session_events ip es (record m { store = set_session i s m.store })

-- The loop of stop.
unfoldable pub close_all : Map ℕ → NetworkManager → NetworkManager
unfolding close_session
close_all [] m = m
close_all ((ip, i) ∷ rest) m = close_all rest (close_session i m)

unfoldable pub stop : NetworkManager → NetworkManager
unfolding close_all
stop m = record (close_all m.sessions m) { sessions = [] }
