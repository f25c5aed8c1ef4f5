-- ===== src/Network/Crossing/Left.antt =====
-- What the failed reads of one side leave its address with.
use local_messenger.Common.{
  ℕ, ◌≡◌, ◌≢◌, refl, Bool, true, false, not, ◌&&◌, if◌then◌else◌, [], ◌∷◌, none, some, Bytes, arith,
}
use local_messenger.Common.Map.{find, erase, find-erase}
use local_messenger.Session.{
  Session, no_read, done, ErrorCode, failed, handle_error, on_header_read,
}
use local_messenger.Network.{
  NetworkManager, on_session_closed, set_session, on_session_event, on_session_events,
  header_read_done, peer_lost,
}
use local_messenger.Network.Crossing.{cut}

-- What an address is left with: the second session, if it is alive, or nothing.
pub record IsLeft (ip : Bytes) (first second : ℕ) (alive : Bool) (m : NetworkManager) : Type 0 where
  pub first_closed : (m.store first).closed ≡ true
  pub second_closed : (m.store second).closed ≡ not alive
  pub second_socket : (m.store second).socket_open ≡ alive
  pub known : find ip m.sessions ≡ (if alive then some second else none)

-- A session that its own side has closed takes no notice.
header_read_done-closed :
    (ec : ErrorCode) (ip : Bytes) (i : ℕ) (m : NetworkManager)
    → (m.store i).closed ≡ true
    → header_read_done ip i (failed ec) m
      ≡ done (
        record m { store = set_session i (record (m.store i) { reading = no_read }) m.store },
        [],
      )
unfolding header_read_done on_header_read handle_error on_session_events
header_read_done-closed ec ip i m e = ground (arith, e)

abbrev failed_session : Session → Session
failed_session s = record s { reading = no_read; closed = true; socket_open = false }

header_read_done-open :
    (ec : ErrorCode) (ip : Bytes) (i : ℕ) (m : NetworkManager)
    → (m.store i).closed ≡ false
    → header_read_done ip i (failed ec) m
      ≡ done (
        record {
          sessions = erase ip m.sessions;
          store = set_session i (failed_session (m.store i)) m.store;
        },
        peer_lost ip ∷ [],
      )
unfolding header_read_done on_header_read handle_error on_session_events on_session_event
    on_session_closed
header_read_done-open ec ip i m e = ground (arith, e)

module _ (ec : ErrorCode) (ip : Bytes) (first second : ℕ) (differ : first ≢ second) where
  pub cut-first :
      (open_there alive : Bool) (m : NetworkManager)
      → IsLeft ip first second alive m
      → (m' : NetworkManager) × (cut ec open_there ip first m ≡ done m')
        × IsLeft ip first second alive m'
  cut-first true alive m v = (m, refl, v)
  cut-first false alive m v = (
    record m { store = set_session first (record (m.store first) { reading = no_read }) m.store },
    rw (header_read_done-closed ec ip first m v.first_closed),
    ground (arith, v, differ),
  )

  pub cut-second :
      (open_there alive : Bool) (m : NetworkManager)
      → IsLeft ip first second alive m
      → (m' : NetworkManager) × (cut ec open_there ip second m ≡ done m')
        × IsLeft ip first second (alive && open_there) m'
  cut-second true true m v = (m, refl, v)
  cut-second true false m v = (m, refl, v)
  cut-second false false m v = (
    record m { store = set_session second (record (m.store second) { reading = no_read }) m.store },
    rw (header_read_done-closed ec ip second m v.second_closed),
    ground (arith, v, differ),
  )
  cut-second false true m v = (
    record {
      sessions = erase ip m.sessions;
      store = set_session second (failed_session (m.store second)) m.store;
    },
    rw (header_read_done-open ec ip second m v.second_closed),
    ground (arith, v, differ, find-erase ip ip m.sessions),
  )
