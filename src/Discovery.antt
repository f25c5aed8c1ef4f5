-- ===== src/Discovery.antt =====
-- src/core/Network/UdpDiscovery.h and UdpDiscovery.cpp: finding peers by UDP broadcast.
--
-- The state holds the members, and three that stand for what the socket and the timers do: whether a
-- receive is outstanding and whether each timer is set. `peers_` is an association list by IP
-- address. The datagrams that are sent and the callbacks are what an operation returns. A time is a
-- number of ticks of the steady clock, `ticks` to a second.
pub mod Beacon
pub mod Peers
pub mod Timeouts
pub mod Run
mod Examples
use local_messenger.Common.{
  ℕ, ◌+◌, ◌*◌, ◌-◌, Bool, true, false, ◌&&◌, not, if◌then◌else◌, List, [], ◌∷◌, ◌++◌, Option, none,
  some, Bytes, Bytes-discrete, codes, ite, take, ltb, map,
}
use local_messenger.Common.Chain.{◌>>=◌}
use local_messenger.Common.Map.{Map, assign}
use local_messenger.Json.{string, number, JsonLibrary}

pub record PeerInfo : Type 0 where
  pub username : Bytes
  pub ip : Bytes
  pub port : ℕ
  pub version : Bytes
  pub public_key : Bytes
  pub last_seen : ℕ

pub record UdpDiscovery : Type 0 where
  pub port : ℕ
  pub my_username : Bytes
  pub my_tcp_port : ℕ
  pub my_public_key : Bytes
  pub peers : Map PeerInfo
  pub running : Bool
  pub receiving : Bool
  pub broadcast_timer : Bool
  pub timeout_timer : Bool

-- Calls of `on_peer_found_` and `on_peer_lost_`, and a datagram to a port of the
-- broadcast address.
pub data Event : Type 0 where
  peer_found : PeerInfo → Event
  peer_lost : Bytes → Event
  datagram : ℕ → Bytes → Event

unfoldable pub new_discovery : ℕ → UdpDiscovery
new_discovery port = record {
  port = port;
  my_username = [];
  my_tcp_port = 0;
  my_public_key = [];
  peers = [];
  running = false;
  receiving = false;
  broadcast_timer = false;
  timeout_timer = false;
}

unfoldable pub recv_size : ℕ
recv_size = 2048

unfoldable pub peer_timeout : ℕ
peer_timeout = 15

-- How a receive ends: with an error code, or with the bytes of a datagram and its sender.
pub data Received : Type 0 where
  error : Received
  bytes_from : Bytes → Bytes → Received

module _ (lib : JsonLibrary) where
  unfoldable pub beacon : UdpDiscovery → lib.Json
  beacon d = lib.object (
      (codes "username", string d.my_username)
      ∷ (codes "port", number d.my_tcp_port)
      ∷ (codes "version", string (codes "0.1.0"))
      ∷ (codes "public_key", string d.my_public_key)
      ∷ [])

  -- `dump` may throw, which is `none`.
  unfoldable pub do_broadcast : UdpDiscovery → Option (List Event)
  unfolding beacon
  do_broadcast d =
      if d.running
      then (do text ← lib.dump (beacon d); some (datagram d.port text ∷ []))
      else some []

  -- `j.value(k, default_val)`: a value that is not an object throws.
  unfoldable pub string_value : lib.Json → Bytes → Bytes → Option Bytes
  string_value j k default_val =
      if lib.is_object j
      then (if lib.contains k j then lib.get_string k j else some default_val)
      else none

  unfoldable pub u16_value : lib.Json → Bytes → ℕ → Option ℕ
  u16_value j k default_val =
      if lib.is_object j
      then (if lib.contains k j then lib.get_u16 k j else some default_val)
      else none

  unfoldable pub parse_peer : Bytes → Bytes → ℕ → Option PeerInfo
  unfolding string_value u16_value
  parse_peer raw sender now = do
    j ← lib.parse raw
    username ← string_value j (codes "username") []
    port ← u16_value j (codes "port") 0
    version ← string_value j (codes "version") []
    public_key ← string_value j (codes "public_key") []
    some (record {
      username = username;
      ip = sender;
      port = port;
      version = version;
      public_key = public_key;
      last_seen = now;
    })

unfoldable pub schedule_broadcast : UdpDiscovery → UdpDiscovery
schedule_broadcast d = if d.running then record d { broadcast_timer = true } else d

unfoldable pub schedule_timeout_check : UdpDiscovery → UdpDiscovery
schedule_timeout_check d = if d.running then record d { timeout_timer = true } else d

unfoldable pub do_receive : UdpDiscovery → UdpDiscovery
do_receive d = if d.running then record d { receiving = true } else d

-- `info.public_key == my_public_key_ && !my_public_key_.empty()`
abbrev pub is_empty : Bytes → Bool
is_empty [] = true
is_empty (b ∷ bs) = false

unfoldable pub is_self : PeerInfo → UdpDiscovery → Bool
is_self info d =
    ite (Bytes-discrete info.public_key d.my_public_key) (not (is_empty d.my_public_key)) false

-- A datagram that was parsed, or one that was not.
unfoldable pub on_peer : Option PeerInfo → UdpDiscovery → UdpDiscovery × List Event
unfolding is_self do_receive
on_peer none d = (do_receive d, [])
on_peer (some info) d =
    if is_self info d
    then (do_receive d, [])
    else (do_receive (record d { peers = assign info.ip info d.peers }), peer_found info ∷ [])

-- The handler of `async_receive_from`; a datagram longer than the buffer is cut.
unfoldable pub on_received :
    (lib : JsonLibrary) → Received → ℕ → UdpDiscovery → UdpDiscovery × List Event
unfolding on_peer parse_peer recv_size do_receive
on_received lib error now d = (do_receive (record d { receiving = false }), [])
on_received lib (bytes_from raw sender) now d =
    on_peer (parse_peer lib (take recv_size raw) sender now) (record d { receiving = false })

-- `(now - last_seen) > PEER_TIMEOUT`, with a signed difference.
unfoldable pub is_stale : ℕ → ℕ → PeerInfo → Bool
unfolding peer_timeout
is_stale ticks now info = ltb (info.last_seen + peer_timeout * ticks) now

-- The loop of check_timeouts: what stays, and what is lost.
unfoldable pub sweep : ℕ → ℕ → Map PeerInfo → Map PeerInfo × List Bytes
unfolding is_stale
sweep ticks now [] = ([], [])
sweep ticks now ((ip, info) ∷ rest) =
    let (kept, lost) = sweep ticks now rest in
    if is_stale ticks now info then (kept, ip ∷ lost) else ((ip, info) ∷ kept, lost)

unfoldable pub check_timeouts : ℕ → ℕ → UdpDiscovery → UdpDiscovery × List Event
unfolding sweep
check_timeouts ticks now d =
    if d.running
    then (let (kept, lost) = sweep ticks now d.peers in
        (record d { peers = kept }, map peer_lost lost))
    else (d, [])

-- The handlers of the timers; a canceled one comes with an error.
unfoldable pub on_broadcast_timer :
    (lib : JsonLibrary) → Bool → UdpDiscovery → Option (UdpDiscovery × List Event)
unfolding do_broadcast schedule_broadcast
on_broadcast_timer lib ec d =
    let d' : UdpDiscovery = record d { broadcast_timer = false } in
    if not ec && d.running
    then (do es ← do_broadcast lib d'; some (schedule_broadcast d', es))
    else some (d', [])

unfoldable pub on_timeout_timer : ℕ → ℕ → Bool → UdpDiscovery → UdpDiscovery × List Event
unfolding check_timeouts schedule_timeout_check
on_timeout_timer ticks now ec d =
    let d' : UdpDiscovery = record d { timeout_timer = false } in
    if not ec && d.running
    then (let (d'', es) = check_timeouts ticks now d' in (schedule_timeout_check d'', es))
    else (d', [])

unfoldable pub start :
    (lib : JsonLibrary) → Bytes → ℕ → Bytes → UdpDiscovery → Option (UdpDiscovery × List Event)
unfolding do_broadcast schedule_broadcast do_receive schedule_timeout_check
start lib username tcp_port public_key d = do
  let d' : UdpDiscovery = record d {
    my_username = username;
    my_tcp_port = tcp_port;
    my_public_key = public_key;
    running = true;
  }
  es ← do_broadcast lib d'
  some (schedule_timeout_check (do_receive (schedule_broadcast d')), es)

-- Canceled timers and a closed socket call their handlers with an error.
unfoldable pub stop : UdpDiscovery → UdpDiscovery
stop d = record d { running = false }

unfoldable pub peers : UdpDiscovery → List PeerInfo
peers d = map (λ (ip, info). info) d.peers
