-- ===== src/Discovery/Peers.antt =====
-- The table of peers: one entry to an address, under its own address, and never the peer itself.
use local_messenger.Common.{
  ℕ, ◌≡◌, ◌≢◌, refl, false, [], ◌∷◌, Option, none, some, Bytes, take, All, Bool-cases, inl, inr,
  arith,
}
use local_messenger.Common.Map.{Map, find, assign, IsUnique, assign-IsUnique}
use local_messenger.Json.{JsonLibrary}
use local_messenger.Discovery.{
  PeerInfo, UdpDiscovery, Received, error, bytes_from, recv_size, parse_peer, is_self, on_peer,
  do_receive, on_received, sweep, check_timeouts,
}

-- The entry stands under its own address, and is not the peer with the key `own`.
abbrev IsEntry : Bytes → Bytes × PeerInfo → Type 0
IsEntry own (ip, info) = (info.ip ≡ ip) × (own ≢ [] → info.public_key ≢ own)

abbrev pub AreEntries : Bytes → Map PeerInfo → Type 0
AreEntries own m = All (IsEntry own) m

pub record IsTable (d : UdpDiscovery) : Type 0 where
  pub unique : IsUnique d.peers
  pub entries : AreEntries d.my_public_key d.peers

assign-AreEntries :
    (own : Bytes) (info : PeerInfo) (m : Map PeerInfo)
    → (own ≢ [] → info.public_key ≢ own)
    → AreEntries own m
    → AreEntries own (assign info.ip info m)
unfolding assign
assign-AreEntries own info [] h a = ((refl, h), tt)
assign-AreEntries own info ((j, w) ∷ m) h a =
    ground (arith, h, a.0, a.1, assign-AreEntries own info m h a.1)

other_key :
    (info : PeerInfo) (d : UdpDiscovery)
    → is_self info d ≡ false
    → d.my_public_key ≢ []
    → info.public_key ≢ d.my_public_key
unfolding is_self
other_key info d h n e = ground (arith, h, n, e)

on_peer-IsTable : (p : Option PeerInfo) (d : UdpDiscovery) → IsTable d → IsTable (on_peer p d).0
unfolding on_peer do_receive
on_peer-IsTable none d v = ground arith
on_peer-IsTable (some info) d v = elim (Bool-cases (is_self info d)) [
  | inl e ↦ ground (arith, e)
  | inr e ↦ ground (
    arith,
    e,
    assign-IsUnique info.ip info d.peers v.unique,
    assign-AreEntries d.my_public_key info d.peers (other_key info d e) v.entries,
  )
]

pub on_received-IsTable :
    (lib : JsonLibrary) (c : Received) (now : ℕ) (d : UdpDiscovery)
    → IsTable d
    → IsTable (on_received lib c now d).0
unfolding on_received do_receive
on_received-IsTable lib error now d v = ground arith
on_received-IsTable lib (bytes_from raw sender) now d v =
    on_peer-IsTable (parse_peer lib (take recv_size raw) sender now)
      (record d { receiving = false }) (record { unique = v.unique; entries = v.entries })

sweep_absent :
    (ticks now : ℕ) (ip : Bytes) (m : Map PeerInfo)
    → find ip m ≡ none
    → find ip (sweep ticks now m).0 ≡ none
unfolding find sweep
sweep_absent ticks now ip [] e = refl
sweep_absent ticks now ip ((j, info) ∷ m) e = ground (arith, sweep_absent ticks now ip m)

sweep-IsUnique : (ticks now : ℕ) (m : Map PeerInfo) → IsUnique m → IsUnique (sweep ticks now m).0
unfolding IsUnique sweep
sweep-IsUnique ticks now [] u = tt
sweep-IsUnique ticks now ((j, info) ∷ m) u =
    ground (arith, sweep_absent ticks now j m u.0, sweep-IsUnique ticks now m u.1)

sweep-AreEntries :
    (own : Bytes) (ticks now : ℕ) (m : Map PeerInfo)
    → AreEntries own m
    → AreEntries own (sweep ticks now m).0
unfolding sweep
sweep-AreEntries own ticks now [] a = tt
sweep-AreEntries own ticks now ((j, info) ∷ m) a =
    ground (arith, a.0, sweep-AreEntries own ticks now m a.1)

pub check_timeouts-IsTable :
    (ticks now : ℕ) (d : UdpDiscovery) → IsTable d → IsTable (check_timeouts ticks now d).0
unfolding check_timeouts
check_timeouts-IsTable ticks now d v = elim (Bool-cases d.running) [
  | inl e ↦ rw e (record {
    unique = sweep-IsUnique ticks now d.peers v.unique;
    entries = sweep-AreEntries d.my_public_key ticks now d.peers v.entries;
  })
  | inr e ↦ rw e (record { unique = v.unique; entries = v.entries })
]
