-- ===== src/Network/Lifecycle.antt =====
-- src/core/Network/NetworkManager.h and NetworkManager.cpp: start and stop, with the server, the
-- discovery and the threads that run the handlers.
--
-- `Service` has the members of the class; its map of sessions is the record NetworkManager. A handler
-- runs only while a thread is in `io_.run()`; `threads` counts those threads. An exception that
-- leaves a handler ends its thread, and no thread is started in its place.
pub mod Idle
pub mod Lost
mod Examples
use local_messenger.Common.{
  ℕ, ◌+◌, ◌-◌, Bool, true, false, ltb, if◌then◌else◌, List, [], ◌∷◌, ◌++◌, map, Option, none, some,
  Bytes,
}
use local_messenger.Common.Chain.{◌>>=◌}
use local_messenger.Json.{JsonLibrary}
use local_messenger.Session.{Endpoint}
use local_messenger.Server.{TcpServer, Accept, new_server, on_accepted}
use local_messenger.Server
use local_messenger.Discovery.{
  PeerInfo, UdpDiscovery, Received, new_discovery, on_received, on_broadcast_timer,
  on_timeout_timer, peers,
}
use local_messenger.Discovery
use local_messenger.Network.{NetworkManager, Event, on_incoming_session, on_peer_lost}
use local_messenger.Network

pub record Service : Type 0 where
  pub network : NetworkManager
  pub tcp_server : Option TcpServer
  pub discovery : Option UdpDiscovery
  pub work_guard : Bool
  pub stopped : Bool
  pub threads : ℕ

-- What leaves the service: the callbacks of the application, `on_peer_found_` among them, and
-- datagrams.
pub data Notice : Type 0 where
  network_event : Event → Notice
  peer_found : PeerInfo → Notice
  datagram : ℕ → Bytes → Notice

unfoldable pub new_service : NetworkManager → Service
new_service m = record {
  network = m;
  tcp_server = none;
  discovery = none;
  work_guard = true;
  stopped = false;
  threads = 0;
}

-- What a lost peer does to the sessions, and what the application learns.
unfoldable pub deliver : List Discovery.Event → NetworkManager → NetworkManager × List Notice
unfolding on_peer_lost
deliver [] m = (m, [])
deliver (Discovery.peer_found info ∷ es) m =
    let (m', out) = deliver es m in (m', peer_found info ∷ out)
deliver (Discovery.datagram port text ∷ es) m =
    let (m', out) = deliver es m in (m', datagram port text ∷ out)
deliver (Discovery.peer_lost ip ∷ es) m =
    let (m', lost) = on_peer_lost ip m in
    let (m'', out) = deliver es m' in (m'', map network_event lost ++ out)

-- `std::max(2u, std::thread::hardware_concurrency())`
unfoldable pub thread_count : ℕ → ℕ
thread_count hardware_concurrency = if ltb 2 hardware_concurrency then hardware_concurrency else 2

-- Where the first broadcast throws, so does start. A thread of a stopped io_context returns at once.
unfoldable pub start :
    (lib : JsonLibrary) → Bytes → ℕ → ℕ → Bytes → ℕ → Service → Option (Service × List Notice)
unfolding deliver thread_count
start lib username tcp_port udp_port public_key hardware_concurrency s = do
  (d, es) ← Discovery.start lib username tcp_port public_key (new_discovery udp_port)
  let (m, out) = deliver es s.network
  some (
    record s {
      network = m;
      tcp_server = some (Server.start (new_server tcp_port));
      discovery = some d;
      threads = if s.stopped then s.threads else s.threads + thread_count hardware_concurrency;
    },
    out,
  )

abbrev pub map_some {ℓ} : {A : Type ℓ} → (A → A) → Option A → Option A
map_some f none = none
map_some f (some a) = some (f a)

unfoldable pub stop : Service → Service
stop s = record s {
  network = Network.stop s.network;
  tcp_server = map_some Server.stop s.tcp_server;
  discovery = map_some Discovery.stop s.discovery;
  work_guard = false;
  stopped = true;
  threads = 0;
}

-- The destructor.
unfoldable pub destroy : Service → Service
unfolding stop
destroy s = stop s

unfoldable pub discovered_peers : Service → List PeerInfo
unfolding peers
discovered_peers s = elim s.discovery [ none ↦ [] | some d ↦ peers d ]

-- A session that is accepted gets a number; `remote` is the endpoint of its socket.
unfoldable pub take_session :
    Option Endpoint → ℕ → List Server.Event → Service → Service × List Notice
unfolding on_incoming_session
take_session remote i [] s = (s, [])
take_session remote i (Server.accepted address ∷ es) s =
    let (m, out) = on_incoming_session remote i s.network in
    (record s { network = m }, map network_event out)
take_session remote i (Server.thrown ∷ es) s = (record s { threads = s.threads - 1 }, [])

-- What completes, and the time where a handler asks for it.
pub data Completion : Type 0 where
  accept : Accept → Option Endpoint → ℕ → Completion
  receive : Received → ℕ → Completion
  broadcast_timer : Bool → Completion
  timeout_timer : ℕ → ℕ → Bool → Completion

abbrev pub with_discovery : UdpDiscovery × List Discovery.Event → Service → Service × List Notice
with_discovery (d, es) s =
    let (m, out) = deliver es s.network in (record s { network = m; discovery = some d }, out)

-- A broadcast whose dump throws ends a thread.
unfoldable pub broadcast_done :
    Option (UdpDiscovery × List Discovery.Event) → UdpDiscovery → Service → Service × List Notice
unfolding deliver
broadcast_done none d s = (
  record s { discovery = some (record d { broadcast_timer = false }); threads = s.threads - 1 },
  [],
)
broadcast_done (some r) d s = with_discovery r s

module _ (lib : JsonLibrary) where
  -- The handlers of the server and of the discovery, where one is outstanding.
  unfoldable pub on_server :
      Accept → Option Endpoint → ℕ → Option TcpServer → Service → Service × List Notice
  unfolding take_session on_accepted
  on_server a remote i none s = (s, [])
  on_server a remote i (some t) s =
      if t.accepting
      then (let (t', es) = on_accepted a t in
          take_session remote i es (record s { tcp_server = some t' }))
      else (s, [])

  unfoldable pub on_discovery : Completion → Option UdpDiscovery → Service → Service × List Notice
  unfolding deliver broadcast_done on_received on_broadcast_timer on_timeout_timer
  on_discovery c none s = (s, [])
  on_discovery (accept a remote i) (some d) s = (s, [])
  on_discovery (receive r now) (some d) s =
      if d.receiving then with_discovery (on_received lib r now d) s else (s, [])
  on_discovery (broadcast_timer ec) (some d) s =
      if d.broadcast_timer then broadcast_done (on_broadcast_timer lib ec d) d s else (s, [])
  on_discovery (timeout_timer ticks now ec) (some d) s =
      if d.timeout_timer then with_discovery (on_timeout_timer ticks now ec d) s else (s, [])

  unfoldable pub handle : Completion → Service → Service × List Notice
  unfolding on_server on_discovery
  handle (accept a remote i) s = on_server a remote i s.tcp_server s
  handle c s = on_discovery c s.discovery s

  -- Completions, one after the other, as long as a thread is there to run their handlers.
  unfoldable pub run : List Completion → Service → Service × List Notice
  unfolding handle
  run [] s = (s, [])
  run (c ∷ cs) s =
      if ltb 0 s.threads
      then (let (s', out) = handle c s in let (s'', out') = run cs s' in (s'', out ++ out'))
      else (s, [])
