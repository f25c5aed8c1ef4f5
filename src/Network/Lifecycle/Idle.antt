-- ===== src/Network/Lifecycle/Idle.antt =====
-- A service that is started, and one that is stopped and started again.
use local_messenger.Common.{
  ℕ, ◌+◌, ltb, ◌≡◌, ◌≢◌, refl, ap, ◌∙◌, true, false, if◌then◌else◌, List, [], ◌∷◌, some, Bytes,
  arith,
}
use local_messenger.Common.Map.{find}
use local_messenger.Json.{JsonLibrary}
use local_messenger.Session.{Endpoint, is_open}
use local_messenger.Server.{TcpServer, connected, new_server}
use local_messenger.Server
use local_messenger.Discovery.{UdpDiscovery, new_discovery, beacon}
use local_messenger.Discovery
use local_messenger.Network.{NetworkManager, is_connected, register_session}
use local_messenger.Network.Sessions.{find-register_session}
use local_messenger.Network.Shutdown.{is_connected-stop}
use local_messenger.Network.Lifecycle.{
  Service, datagram, Completion, accept, new_service, thread_count, start, stop, run,
}

run_idle :
    (lib : JsonLibrary) (cs : List Completion) (s : Service)
    → s.threads ≡ 0
    → run lib cs s ≡ (s, [])
unfolding run
run_idle lib [] s e = refl
run_idle lib (c ∷ cs) s e = ground (arith, e)

-- A server that waits for a connection, and a discovery that was told its name and its key.
abbrev pub serving : ℕ → TcpServer
serving tcp_port = record { port = tcp_port; listening = true; running = true; accepting = true }

abbrev pub announcing : Bytes → ℕ → ℕ → Bytes → UdpDiscovery
announcing username tcp_port udp_port public_key = record (new_discovery udp_port) {
  my_username = username;
  my_tcp_port = tcp_port;
  my_public_key = public_key;
  running = true;
}

abbrev pub searching : UdpDiscovery → UdpDiscovery
searching d = record d { receiving = true; broadcast_timer = true; timeout_timer = true }

-- The session of the connection that comes in.
abbrev pub comes_from : Endpoint → ℕ → Completion
comes_from remote i = accept (connected (some remote.address)) (some remote) i

thread_count-pos : (hardware n : ℕ) → ltb 0 (n + thread_count hardware) ≡ true
unfolding thread_count
thread_count-pos hardware n = ground arith

accepted-network :
    (lib : JsonLibrary) (remote : Endpoint) (i tcp_port : ℕ) (s : Service)
    → s.tcp_server ≡ some (serving tcp_port)
    → ltb 0 s.threads ≡ true
    → (run lib (comes_from remote i ∷ []) s).0.network
      ≡ (register_session remote.address i s.network).0
unfolding run
accepted-network lib remote i tcp_port s serves busy = ground (arith, serves, busy)

module _ (lib : JsonLibrary) (username : Bytes) (tcp_port udp_port : ℕ) (public_key : Bytes)
    (hardware : ℕ) (text : Bytes)
    (dumped : lib.dump (beacon lib (announcing username tcp_port udp_port public_key))
      ≡ some text) where
  start_done :
      (s : Service)
      → start lib username tcp_port udp_port public_key hardware s
        ≡ some (
          record s {
            tcp_server = some (serving tcp_port);
            discovery = some (searching (announcing username tcp_port udp_port public_key));
            threads = if s.stopped then s.threads else s.threads + thread_count hardware;
          },
          datagram udp_port text ∷ [],
        )
  unfolding start Discovery.start Server.start new_server new_discovery
  start_done s = rw dumped refl

  -- After stop no handler runs and no address is connected. Where the beacon can be dumped, a start
  -- after it comes to its end as a first start does: it announces itself in a datagram, its server
  -- listens and waits for a connection, and its discovery receives and has its timers set. But no
  -- handler runs ever again, since the io_context was stopped and is not restarted, so that no address
  -- is connected whatever comes in; after a first start, an open session of a peer that connects is.
  pub run-start-stop :
      (m : NetworkManager) (s : Service) (remote : Endpoint) (i : ℕ) (ip : Bytes)
      (cs : List Completion)
      → find remote.address m.sessions ≢ some i
      → is_open (m.store i) ≡ true
      → (first again : Service) × (start lib username tcp_port udp_port public_key hardware
            (new_service m)
          ≡ some (first, datagram udp_port text ∷ []))
        × (start lib username tcp_port udp_port public_key hardware (stop s)
            ≡ some (again, datagram udp_port text ∷ []))
        × (is_connected remote.address (run lib (comes_from remote i ∷ []) first).0.network ≡ true)
        × (again.tcp_server ≡ some (serving tcp_port))
        × (again.discovery ≡ some (searching (announcing username tcp_port udp_port public_key)))
        × (run lib cs (stop s) ≡ (stop s, []))
        × (is_connected ip (stop s).network ≡ false)
        × (run lib cs again ≡ (again, []))
        × (is_connected ip again.network ≡ false)
  unfolding stop new_service
  run-start-stop m s remote i ip cs fresh up = (
    _,
    _,
    start_done (new_service m),
    start_done (stop s),
    ap (is_connected remote.address)
          (accepted-network lib remote i tcp_port _ refl (thread_count-pos hardware 0))
        ∙ (find-register_session remote.address remote.address i m fresh).1
        ∙ up,
    refl,
    refl,
    run_idle lib cs (stop s) refl,
    (is_connected-stop ip s.network).0,
    run_idle lib cs _ refl,
    (is_connected-stop ip s.network).0,
  )
