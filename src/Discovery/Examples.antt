-- ===== src/Discovery/Examples.antt =====
-- Two peers that hear each other, and one that falls silent.
use local_messenger.Common.{◌≡◌, refl, true, [], ◌∷◌, none, Bytes, Bytes-discrete, codes, arith}
use local_messenger.Common.Map.{find, IsUnique}
use local_messenger.Json.{string, number}
use local_messenger.Json.Sample.{sample, sample-IsJsonLibrary, entries}
use local_messenger.Discovery.{
  UdpDiscovery, bytes_from, recv_size, peer_timeout, beacon, new_discovery, start, on_received,
  is_stale, check_timeouts,
}
use local_messenger.Discovery.Beacon.{self_info, on_received_own}
use local_messenger.Discovery.Timeouts.{losses, find-check_timeouts}
use local_messenger.Discovery.Peers.{IsTable}
use local_messenger.Discovery.Run.{IsActive, here, next, receives, Run-IsTable}

abbrev alice : UdpDiscovery
alice = record {
  port = 7778;
  my_username = codes "Alice";
  my_tcp_port = 7777;
  my_public_key = codes "aa";
  peers = [];
  running = true;
  receiving = true;
  broadcast_timer = true;
  timeout_timer = true;
}

abbrev bob : UdpDiscovery
bob = record alice { my_username = codes "Bob"; my_public_key = codes "bb" }

abbrev alices_text : Bytes
alices_text =
    4
    ∷ entries (
        (codes "username", string (codes "Alice"))
        ∷ (codes "port", number 7777)
        ∷ (codes "version", string (codes "0.1.0"))
        ∷ (codes "public_key", string (codes "aa"))
        ∷ [])

abbrev address : Bytes
address = codes "26.0.0.1"

on_received_own_example :
    on_received sample (bytes_from alices_text address) 5 alice
    ≡ (record alice { receiving = true }, [])
unfolding beacon entries recv_size
on_received_own_example =
    on_received_own sample sample-IsJsonLibrary alice alices_text address 5 refl (omega arith)
      (ground arith) refl (omega arith)

abbrev bob_with_alice : UdpDiscovery
bob_with_alice = record bob { peers = (address, self_info alice address 5) ∷ [] }

-- With ten ticks to the second, Alice was seen at 5, and 156 is the first tick at which she is lost.
find-check_timeouts_example :
    (find address (check_timeouts 10 156 bob_with_alice).0.peers ≡ none)
    × (losses address (check_timeouts 10 156 bob_with_alice).1 ≡ 1)
unfolding IsUnique find Bytes-discrete is_stale peer_timeout
find-check_timeouts_example = find-check_timeouts 10 156 address bob_with_alice refl (refl, tt)

Run-IsTable_example :
    IsActive (on_received sample (bytes_from alices_text address) 5 bob).0
    × IsTable (on_received sample (bytes_from alices_text address) 5 bob).0
unfolding start new_discovery
Run-IsTable_example =
    Run-IsTable {lib = sample} {ticks = 10} (codes "Bob") (codes "bb") 7777 7778 refl
      (next here (receives (bytes_from alices_text address) 5 refl refl))
