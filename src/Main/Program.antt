-- ===== src/Main/Program.antt =====
-- src/main.cpp as one running program: the console's thread, and the threads that run the handlers of
-- the network, over one database and one map of sessions.
--
-- A handler runs until it returns, throws, or waits for a mutex that is never given up. The only such
-- wait is that of `send_to`, which holds `sessions_mutex_` while a session locks its write mutex twice:
-- from then on `held` is true, and whatever takes that mutex waits forever, as far as it has come. An
-- exception ends a handler's thread, but the whole program where it leaves main.
pub mod Deadlock
pub mod Statements
pub mod Handlers
pub mod Valid
pub mod Kept
pub mod Deaf
mod Examples
use local_messenger.Common.{
  ℕ, ◌-◌, Bool, true, false, ltb, if◌then◌else◌, List, [], ◌∷◌, ◌++◌, Bytes,
}
use local_messenger.Json.{JsonLibrary}
use local_messenger.Crypto.{Sodium}
use local_messenger.Protocol.Types.{PacketType, msg_text}
use local_messenger.Protocol.{Packet}
use local_messenger.Session.{
  Session, Completion, Reading, no_read, header_read, payload_read, on_header_read, on_payload_read,
}
use local_messenger.Session
use local_messenger.Discovery.{PeerInfo}
use local_messenger.Network.{set_session, is_ping, register_session, on_peer_lost, stop}
use local_messenger.Storage.{Stamp}
use local_messenger.Storage.Sql.{OrderBy}
use local_messenger.Storage.Contacts.{updated}
use local_messenger.Storage.Messages.{incoming, created}
use local_messenger.Main.{App, End, returned, blocked, thrown, then_step, ◌>>◌, skip, store_text}
use local_messenger.Main.Callbacks.{on_peer_found, on_peer_connected}
use local_messenger.Main.Callbacks.Arrival.{session_event}
use local_messenger.Main.Commands.{Command, peers, send, Output, parse_line, execute}
use local_messenger.Main.Console.{is_quit}

-- The thread of main: in the loop, behind it, waiting for a mutex, or ended by an exception.
pub data Console : Type 0 where
  waiting ended stuck crashed : Console

pub record Program : Type 0 where
  pub app : App
  pub held : Bool
  pub threads : ℕ
  pub running : Bool
  pub console : Console
  pub printed : List Output

-- A connection is registered for an address, a peer is found or lost, the outstanding read of a
-- session completes; and on the console a line, a signal, or the end of the input. The list of peers
-- is what the discovery has.
pub data Happening : Type 0 where
  connects : Bytes → ℕ → Happening
  finds : Stamp → PeerInfo → Happening
  loses : Bytes → Happening
  reads : Stamp → Bytes → ℕ → Completion → Happening
  types : Stamp → List PeerInfo → Bytes → Happening
  signals closes : Happening

abbrev pub wait : App → App × End
wait app = (app, blocked)

-- The handler of the read that is outstanding, if one is.
unfoldable pub read_by : Reading → Completion → Session → Session × List Session.Event
unfolding on_header_read on_payload_read
read_by no_read done s = (s, [])
read_by header_read done s = on_header_read done s
read_by payload_read done s = on_payload_read done s

-- A handler that does not come to its end asks for no further read.
unfoldable pub halt_reading : ℕ → App × End → App × End
halt_reading i (app, returned) = (app, returned)
halt_reading i (app, end) = (
  record app {
    network = record app.network {
      store = set_session i (record (app.network.store i) { reading = no_read }) app.network.store;
    };
  },
  end,
)

-- `/send` takes the mutex, and so does `/peers` for each peer.
abbrev pub takes_mutex : Command → List PeerInfo → Bool
takes_mutex (send ip text) discovered = true
takes_mutex peers [] = false
takes_mutex peers (p ∷ ps) = true
takes_mutex _ discovered = false

-- What a handler leaves behind: its thread goes on if it returned.
unfoldable pub after_handler : Program → App × End → Program
after_handler p (app, returned) = record p { app = app }
after_handler p (app, blocked) = record p { app = app; held = true; threads = p.threads - 1 }
after_handler p (app, thrown) = record p { app = app; threads = p.threads - 1 }

-- `net_mgr.stop()` takes the mutex, and joins the threads.
unfoldable pub leave : Program → Program
unfolding stop
leave p = if p.held then record p { console = stuck } else record p {
  app = record p.app { network = stop p.app.network };
  threads = 0;
  console = ended;
}

-- The loop reads `g_running` again; an exception of a command leaves main.
unfoldable pub after_command : Program → App × End × List Output → Program
unfolding leave
after_command p (app, returned, out) =
    let p' : Program = record p { app = app; printed = p.printed ++ out } in
    if p.running then p' else leave p'
after_command p (app, blocked, out) = record p {
  app = app;
  held = true;
  console = stuck;
  printed = p.printed ++ out;
}
after_command p (app, thrown, out) = record p {
  app = app;
  threads = 0;
  console = crashed;
  printed = p.printed ++ out;
}

-- A line is read only by a console that waits.
abbrev pub if_waiting : Console → (Program → Program) → Program → Program
if_waiting waiting f p = f p
if_waiting _ f p = p

module _ (by_update : OrderBy updated) where
  -- A text is stored before its receipt waits.
  unfoldable pub packet_held : Stamp → Bytes → PacketType → Bytes → App → App × End
  unfolding store_text
  packet_held t ip msg_text payload = do store_text by_update t incoming ip payload; wait
  packet_held t ip type payload = if is_ping type then wait else skip

  -- What a session's event leads to, while the mutex is held or not.
  unfoldable pub event_done : Bool → Stamp → Bytes → Session.Event → App → App × End
  unfolding session_event packet_held
  event_done false t ip e = session_event by_update t ip e
  event_done true t ip (Session.packet p) = packet_held t ip p.header.type p.payload
  event_done true t ip (Session.closing context ec) = wait

  unfoldable pub events_done : Bool → Stamp → Bytes → List Session.Event → App → App × End
  unfolding event_done
  events_done held t ip [] app = (app, returned)
  events_done held t ip (e ∷ es) app =
      then_step (events_done held t ip es) (event_done held t ip e app)

  unfoldable pub read_handled : Bool → Stamp → Bytes → ℕ → Completion → App → App × End
  unfolding read_by events_done halt_reading
  read_handled held t ip i done app =
      let (s, es) = read_by (app.network.store i).reading done (app.network.store i) in
      halt_reading i (
        events_done held t ip es (record app {
          network = record app.network { store = set_session i s app.network.store };
        }))

-- What a run of main does not change: the libraries, the user's name, and the own public key.
pub record Context : Type 1 where
  pub sodium : Sodium
  pub lib : JsonLibrary
  pub by_update : OrderBy updated
  pub newest : OrderBy created
  pub like : Bytes → Bytes → Bool
  pub username : Bytes
  pub pub_key_hex : Bytes

module _ (c : Context) where
  open c use {sodium, lib, by_update, newest, like, username, pub_key_hex}

  -- One handler; the console's lines are not handlers.
  unfoldable pub handler : Bool → Happening → App → App × End
  unfolding read_handled register_session on_peer_connected on_peer_found on_peer_lost
  handler true (connects ip i) app = wait app
  handler false (connects ip i) app =
      on_peer_connected lib username pub_key_hex ip
        (record app { network = (register_session ip i app.network).0 })
  handler held (finds t info) app =
      ((on_peer_found sodium t info app).0, if held then blocked else returned)
  handler true (loses ip) app = wait app
  handler false (loses ip) app = skip (record app { network = (on_peer_lost ip app.network).0 })
  handler held (reads t ip i done) app = read_handled by_update held t ip i done app
  handler held _ app = skip app

  unfoldable pub execute_held :
      Bool → Stamp → List PeerInfo → Command → App → App × End × List Output
  unfolding execute
  execute_held held t discovered command app =
      if held
      then (if takes_mutex command discovered
          then (app, blocked, [])
          else execute by_update newest like t discovered command app)
      else execute by_update newest like t discovered command app

  unfoldable pub typed : Stamp → List PeerInfo → Command → Program → Program
  unfolding leave execute_held after_command
  typed t discovered command p =
      if is_quit command
      then leave p
      else after_command p (execute_held p.held t discovered command p.app)

  unfoldable pub step : Happening → Program → Program
  unfolding handler after_handler leave typed
  step signals p = record p { running = false }
  step closes p = if_waiting p.console leave p
  step (types t discovered l) p = if_waiting p.console (typed t discovered (parse_line l)) p
  step h p = if ltb 0 p.threads then after_handler p (handler p.held h p.app) else p

  unfoldable pub run : List Happening → Program → Program
  unfolding step
  run [] p = p
  run (h ∷ hs) p = run hs (step h p)
