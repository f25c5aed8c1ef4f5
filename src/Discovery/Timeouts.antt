-- ===== src/Discovery/Timeouts.antt =====
-- check_timeouts: which peers go, and which are reported.
use local_messenger.Common.{
  ℕ, suc, ◌+◌, ◌*◌, ltb, ◌≡◌, refl, ap, ite, true, if◌then◌else◌, List, [], ◌∷◌, map, Option, none,
  some, Bytes, Bytes-discrete, arith,
}
use local_messenger.Common.Map.{Map, find, IsUnique}
use local_messenger.Discovery.{
  PeerInfo, UdpDiscovery, Event, peer_found, peer_lost, datagram, is_stale, peer_timeout, sweep,
  check_timeouts,
}

-- What a check leaves of an entry.
abbrev pub fresh : ℕ → ℕ → Option PeerInfo → Option PeerInfo
fresh ticks now none = none
fresh ticks now (some info) = if ltb (info.last_seen + 15 * ticks) now then none else some info

-- How often a check reports an entry.
abbrev pub stale_count : ℕ → ℕ → Option PeerInfo → ℕ
stale_count ticks now none = 0
stale_count ticks now (some info) = if ltb (info.last_seen + 15 * ticks) now then 1 else 0

abbrev pub losses : Bytes → List Event → ℕ
losses ip [] = 0
losses ip (peer_lost j ∷ es) = ite (Bytes-discrete j ip) (suc (losses ip es)) (losses ip es)
losses ip (peer_found info ∷ es) = losses ip es
losses ip (datagram port text ∷ es) = losses ip es

find-sweep :
    (ticks now : ℕ) (ip : Bytes) (m : Map PeerInfo)
    → IsUnique m
    → find ip (sweep ticks now m).0 ≡ fresh ticks now (find ip m)
unfolding find sweep IsUnique is_stale peer_timeout
find-sweep ticks now ip [] u = refl
find-sweep ticks now ip ((j, info) ∷ m) u = elim (Bytes-discrete j ip) [
  | yes e ↦ ground (arith, find-sweep ticks now ip m u.1, u.0, e, ap (λ k. find k m) e)
  | no n ↦ ground (arith, find-sweep ticks now ip m u.1, n)
]

losses-sweep :
    (ticks now : ℕ) (ip : Bytes) (m : Map PeerInfo)
    → IsUnique m
    → losses ip (map peer_lost (sweep ticks now m).1) ≡ stale_count ticks now (find ip m)
unfolding find sweep IsUnique is_stale peer_timeout
losses-sweep ticks now ip [] u = refl
losses-sweep ticks now ip ((j, info) ∷ m) u = elim (Bytes-discrete j ip) [
  | yes e ↦ ground (arith, losses-sweep ticks now ip m u.1, u.0, e, ap (λ k. find k m) e)
  | no n ↦ ground (arith, losses-sweep ticks now ip m u.1, n)
]

-- A check of a running discovery whose table has no address twice, at any time: an address that was
-- silent for more than 15 seconds is gone and is reported lost once; every other address has the
-- peer that it had and is not reported.
pub find-check_timeouts :
    (ticks now : ℕ) (ip : Bytes) (d : UdpDiscovery)
    → d.running ≡ true
    → IsUnique d.peers
    → (find ip (check_timeouts ticks now d).0.peers ≡ fresh ticks now (find ip d.peers))
      × (losses ip (check_timeouts ticks now d).1 ≡ stale_count ticks now (find ip d.peers))
unfolding check_timeouts
find-check_timeouts ticks now ip d on u =
    (rw on (find-sweep ticks now ip d.peers u), rw on (losses-sweep ticks now ip d.peers u))
