-- ===== src/Network/Steps.antt =====
-- Everything that can happen to the sessions of a manager, in any order: the operations, and the steps
-- of each session.
pub mod Reached
pub mod Managed
use local_messenger.Common.{ℕ, ◌≡◌, ◌≢◌, List, [], some, Bytes}
use local_messenger.Common.Map.{find}
use local_messenger.Protocol.{Packet}
use local_messenger.Session.{done, new_session}
use local_messenger.Session
use local_messenger.Session.Run
use local_messenger.Network.{
  NetworkManager, Event, set_session, register_session, on_session_closed, on_peer_lost, send_to,
  broadcast, on_session_packet, stop,
}

-- No address has the session: it is a new one, since each is registered just once.
abbrev pub IsUnlisted : ℕ → NetworkManager → Type 0
IsUnlisted i m = (ip : Bytes) → find ip m.sessions ≢ some i

-- An operation that returns, or a step of one session.
pub data Step (m n : NetworkManager) : Type 0 where
  registers : (ip : Bytes) (i : ℕ) → IsUnlisted i m → n ≡ (register_session ip i m).0 → Step m n
  handles :
      (i : ℕ) (t : Session.Session) (es : List Session.Event)
      → Run.Step (m.store i) t es
      → n ≡ record m { store = set_session i t m.store }
      → Step m n
  closed : (ip : Bytes) → n ≡ (on_session_closed ip m).0 → Step m n
  loses : (ip : Bytes) → n ≡ (on_peer_lost ip m).0 → Step m n
  sends : (ip : Bytes) (p : Packet) → send_to ip p m ≡ done n → Step m n
  broadcasts : (p : Packet) → broadcast p m ≡ done n → Step m n
  answers :
      (ip : Bytes) (p : Packet) (es : List Event)
      → on_session_packet ip p m ≡ done (n, es)
      → Step m n
  stops : n ≡ stop m → Step m n

abbrev pub new_manager : NetworkManager
new_manager = record { sessions = []; store = λ i. new_session }

pub data Trace (m : NetworkManager) : NetworkManager → Type 0 where
  here : Trace m m
  next : {n o : NetworkManager} → Trace m n → Step n o → Trace m o
