-- ===== src/Main/Launch/Known.antt =====
-- What other peers learn of a program that starts.
use local_messenger.Common.{ℕ, true, List, [], ◌∷◌, Bytes}
use local_messenger.Crypto.{Sodium}
use local_messenger.Discovery.{UdpDiscovery, new_discovery}
use local_messenger.Discovery
use local_messenger.Network.Lifecycle.{datagram}
use local_messenger.Storage.{Stamp}
use local_messenger.Main.{App}
use local_messenger.Main.Callbacks.{on_peer_found}

-- The callbacks on what the discovery reports, one after the other; a lost peer is only logged.
abbrev pub hear : Sodium → Stamp → List Discovery.Event → App → App
hear sodium t [] app = app
hear sodium t (Discovery.peer_found info ∷ es) app =
    hear sodium t es (on_peer_found sodium t info app).0
hear sodium t (Discovery.peer_lost ip ∷ es) app = hear sodium t es app
hear sodium t (Discovery.datagram port text ∷ es) app = hear sodium t es app

-- The discovery of a program that starts with these settings.
abbrev pub own_discovery : Bytes → ℕ → ℕ → Bytes → UdpDiscovery
own_discovery username tcp_port udp_port key = record (new_discovery udp_port) {
  my_username = username;
  my_tcp_port = tcp_port;
  my_public_key = key;
  running = true;
}
