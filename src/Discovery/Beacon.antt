-- ===== src/Discovery/Beacon.antt =====
-- do_broadcast of one peer against the receive handler of another, and of itself.
use local_messenger.Common.{
  ℕ, ◌≤◌, ◌<◌, ◌^◌, ◌%◌, ◌≡◌, ◌≢◌, refl, not, true, false, [], ◌∷◌, some, Bytes, codes, length,
  take_all, arith,
}
use local_messenger.Common.Map.{Map, find, assign}
use local_messenger.Json.{Value, string, number, JsonLibrary, IsJsonLibrary}
use local_messenger.Discovery.{
  PeerInfo, UdpDiscovery, peer_found, datagram, bytes_from, recv_size, beacon, do_broadcast,
  string_value, u16_value, parse_peer, is_self, is_empty, on_peer, on_received,
}

-- What a receiver learns from the broadcast of `d`.
abbrev pub self_info : UdpDiscovery → Bytes → ℕ → PeerInfo
self_info d ip now = record {
  username = d.my_username;
  ip = ip;
  port = d.my_tcp_port;
  version = codes "0.1.0";
  public_key = d.my_public_key;
  last_seen = now;
}

module _ (lib : JsonLibrary) (is_lib : IsJsonLibrary lib) where
  string_value-object :
      (m : Map Value) (k s other : Bytes)
      → find k m ≡ some (string s)
      → string_value lib (lib.object m) k other ≡ some s
  unfolding string_value
  string_value-object m k s other e =
      rw
        (is_lib.is_object-object m, is_lib.contains-object k m, e, is_lib.get_string-object k s m e)

  u16_value-object :
      (m : Map Value) (k : Bytes) (n other : ℕ)
      → n < 2 ^ 16
      → find k m ≡ some (number n)
      → u16_value lib (lib.object m) k other ≡ some n
  unfolding u16_value
  u16_value-object m k n other h e =
      let small : n % 2 ^ 16 ≡ n = omega arith in
      rw (
        is_lib.is_object-object m,
        is_lib.contains-object k m,
        e,
        is_lib.get_u16-object k n m e,
        small,
      )

  parse_peer-beacon :
      (d : UdpDiscovery) (text ip : Bytes) (now : ℕ)
      → d.my_tcp_port < 2 ^ 16
      → lib.dump (beacon lib d) ≡ some text
      → parse_peer lib text ip now ≡ some (self_info d ip now)
  unfolding parse_peer beacon find
  parse_peer-beacon d text ip now h e = rw (
    is_lib.parse-dump _ text e,
    string_value-object _ (codes "username") d.my_username [] refl,
    u16_value-object _ (codes "port") d.my_tcp_port 0 h refl,
    string_value-object _ (codes "version") (codes "0.1.0") [] refl,
    string_value-object _ (codes "public_key") d.my_public_key [] refl,
  )

  -- The broadcast of a running peer whose port is below 2 ^ 16, whose texts can be dumped and whose
  -- datagram fits the buffer: a running receiver with another public key learns just what the sender
  -- was started with, under the sender's address, enters it, reports it and receives on.
  pub on_received-do_broadcast :
      (d r : UdpDiscovery) (text ip : Bytes) (now : ℕ)
      → d.running ≡ true
      → r.running ≡ true
      → d.my_tcp_port < 2 ^ 16
      → lib.dump (beacon lib d) ≡ some text
      → length text ≤ recv_size
      → d.my_public_key ≢ r.my_public_key
      → (do_broadcast lib d ≡ some (datagram d.port text ∷ []))
        × (on_received lib (bytes_from text ip) now r ≡ (
          record r { peers = assign ip (self_info d ip now) r.peers; receiving = true },
          peer_found (self_info d ip now) ∷ [],
        ))
  unfolding do_broadcast on_received on_peer
  on_received-do_broadcast d r text ip now on_d on_r h e fits differ = (
    rw (on_d, e),
    rw (take_all recv_size text fits, parse_peer-beacon d text ip now h e, on_peer, stranger, on_r),
  )
    where
      stranger : is_self (self_info d ip now) (record r { receiving = false }) ≡ false
      stranger = ground (arith, differ)

  -- A peer with a public key, a port below 2 ^ 16 and texts that can be dumped does not enter or
  -- report itself when its own datagram, which fits the buffer, comes back.
  pub on_received_own :
      (d : UdpDiscovery) (text ip : Bytes) (now : ℕ)
      → d.running ≡ true
      → d.my_tcp_port < 2 ^ 16
      → d.my_public_key ≢ []
      → lib.dump (beacon lib d) ≡ some text
      → length text ≤ recv_size
      → on_received lib (bytes_from text ip) now d ≡ (record d { receiving = true }, [])
  unfolding on_received on_peer
  on_received_own d text ip now on h named e fits =
      rw (take_all recv_size text fits, parse_peer-beacon d text ip now h e, on_peer, own, on)
    where
      nonempty : (k : Bytes) → k ≢ [] → not (is_empty k) ≡ true
      nonempty [] n = absurd (n refl)
      nonempty (b ∷ k) n = refl

      own : is_self (self_info d ip now) (record d { receiving = false }) ≡ true
      own = ground (arith, nonempty d.my_public_key named)
