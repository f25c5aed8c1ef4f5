-- ===== src/Network/Lifecycle/Examples.antt =====
-- A service that is stopped and started again, and one whose peer falls silent.
use local_messenger.Common.{
  ◌≡◌, refl, true, false, List, [], ◌∷◌, some, Bytes, Bytes-discrete, codes, arith,
}
use local_messenger.Common.Map.{find, IsUnique}
use local_messenger.Json.Sample.{sample, entries}
use local_messenger.Session.{Endpoint, new_session, is_open}
use local_messenger.Discovery.{PeerInfo, UdpDiscovery, new_discovery, beacon}
use local_messenger.Network.{NetworkManager, is_connected}
use local_messenger.Network.Lifecycle.{
  Service, datagram, Completion, timeout_timer, new_service, start, stop, handle, run,
}
use local_messenger.Network.Lifecycle.Idle.{
  serving, announcing, searching, comes_from, run-start-stop,
}
use local_messenger.Network.Lifecycle.Lost.{IsGone, handle-IsGone}

abbrev address : Bytes
address = codes "26.0.0.1"

abbrev two_sessions : NetworkManager
two_sessions = record {
  sessions = (address, 0) ∷ ((codes "26.0.0.2", 1) ∷ []);
  store = λ i. new_session;
}

abbrev service : Service
service = new_service two_sessions

abbrev discovery : UdpDiscovery
discovery = record (new_discovery 7778) {
  my_username = codes "A";
  my_tcp_port = 7777;
  my_public_key = codes "aa";
  running = true;
  receiving = true;
  broadcast_timer = true;
  timeout_timer = true;
}

abbrev remote : Endpoint
remote = record { address = codes "26.0.0.3"; port = 50000 }

abbrev completions : List Completion
completions = comes_from remote 2 ∷ (timeout_timer 10 200 false ∷ [])

run-start-stop_example :
    let text : Bytes =
      4 ∷ entries (beacon sample (announcing (codes "A") 7777 7778 (codes "aa"))) in
    (first again : Service) × (start sample
        (codes "A")
        7777
        7778
        (codes "aa")
        8
        (new_service two_sessions)
      ≡ some (first, datagram 7778 text ∷ []))
    × (start sample (codes "A") 7777 7778 (codes "aa") 8 (stop service)
        ≡ some (again, datagram 7778 text ∷ []))
    × (is_connected remote.address (run sample (comes_from remote 2 ∷ []) first).0.network ≡ true)
    × (again.tcp_server ≡ some (serving 7777))
    × (again.discovery ≡ some (searching (announcing (codes "A") 7777 7778 (codes "aa"))))
    × (run sample completions (stop service) ≡ (stop service, []))
    × (is_connected address (stop service).network ≡ false)
    × (run sample completions again ≡ (again, []))
    × (is_connected address again.network ≡ false)
unfolding find new_discovery beacon is_open new_session
run-start-stop_example =
    run-start-stop sample (codes "A") 7777 7778 (codes "aa") 8
      (4 ∷ entries (beacon sample (announcing (codes "A") 7777 7778 (codes "aa")))) refl
      two_sessions service remote 2 address completions (λ e. cc) refl

abbrev silent : PeerInfo
silent = record {
  username = codes "S";
  ip = address;
  port = 7777;
  version = [];
  public_key = codes "cc";
  last_seen = 5;
}

abbrev watching : UdpDiscovery
watching = record discovery { peers = (address, silent) ∷ [] }

handle-IsGone_example :
    IsGone address two_sessions
      (handle sample
        (timeout_timer 10 156 false)
        (record service { discovery = some watching })).0.network
unfolding new_service find IsUnique Bytes-discrete
handle-IsGone_example =
    handle-IsGone sample 10 156 address silent watching
      (record service { discovery = some watching }) refl refl refl (refl, tt) refl (omega arith)
