-- ===== src/Network/Lifecycle/Lost.antt =====
-- A peer that falls silent loses its session.
use local_messenger.Common.{
  ℕ, ◌+◌, ◌*◌, ◌<◌, ◌≡◌, sym, ap, subst, ◌∙◌, true, false, List, [], ◌∷◌, Option, none, some, Bytes,
  Bytes-discrete, arith,
}
use local_messenger.Common.Map.{find, IsUnique}
use local_messenger.Json.{JsonLibrary}
use local_messenger.Session.{is_open}
use local_messenger.Discovery.{PeerInfo, UdpDiscovery, on_timeout_timer, check_timeouts}
use local_messenger.Discovery
use local_messenger.Discovery.Timeouts.{losses, find-check_timeouts}
use local_messenger.Network.{NetworkManager, close_found, on_peer_lost}
use local_messenger.Network.Sessions.{find-on_peer_lost}
use local_messenger.Network.Shutdown.{close_session_shut}
use local_messenger.Network.Lifecycle.{Service, timeout_timer, deliver, handle}

on_peer_lost_shut :
    (ip : Bytes) (j : ℕ) (m : NetworkManager)
    → is_open (m.store j) ≡ false
    → is_open ((on_peer_lost ip m).0.store j) ≡ false
unfolding on_peer_lost close_found
on_peer_lost_shut ip j m e = closes (find ip m.sessions)
  where
    closes : (o : Option ℕ) → is_open ((close_found o m).store j) ≡ false
    closes none = e
    closes (some i) = close_session_shut i j m e

deliver_shut :
    (es : List Discovery.Event) (j : ℕ) (m : NetworkManager)
    → is_open (m.store j) ≡ false
    → is_open ((deliver es m).0.store j) ≡ false
unfolding deliver
deliver_shut [] j m e = e
deliver_shut (Discovery.peer_found info ∷ es) j m e = deliver_shut es j m e
deliver_shut (Discovery.datagram port text ∷ es) j m e = deliver_shut es j m e
deliver_shut (Discovery.peer_lost ip ∷ es) j m e =
    deliver_shut es j (on_peer_lost ip m).0 (on_peer_lost_shut ip j m e)

-- The address has no session, and the one that it had is closed.
pub record IsGone (ip : Bytes) (before after : NetworkManager) : Type 0 where
  pub absent : find ip after.sessions ≡ none
  pub shut : (j : ℕ) → find ip before.sessions ≡ some j → is_open (after.store j) ≡ false

deliver_absent :
    (es : List Discovery.Event) (ip : Bytes) (m : NetworkManager)
    → find ip m.sessions ≡ none
    → find ip (deliver es m).0.sessions ≡ none
unfolding deliver
deliver_absent [] ip m e = e
deliver_absent (Discovery.peer_found info ∷ es) ip m e = deliver_absent es ip m e
deliver_absent (Discovery.datagram port text ∷ es) ip m e = deliver_absent es ip m e
deliver_absent (Discovery.peer_lost k ∷ es) ip m e =
    deliver_absent es ip (on_peer_lost k m).0 (ground (arith, (find-on_peer_lost k ip m).0, e))

deliver-IsGone :
    (es : List Discovery.Event) (ip : Bytes) (m : NetworkManager)
    → 0 < losses ip es
    → IsGone ip m (deliver es m).0
unfolding deliver
deliver-IsGone [] ip m h = absurd (omega arith)
deliver-IsGone (Discovery.peer_found info ∷ es) ip m h = deliver-IsGone es ip m h
deliver-IsGone (Discovery.datagram port text ∷ es) ip m h = deliver-IsGone es ip m h
deliver-IsGone (Discovery.peer_lost k ∷ es) ip m h = elim (Bytes-discrete k ip) [
  | yes e ↦
      let (other, shut) = find-on_peer_lost ip ip m in
      subst (λ i. IsGone ip m (deliver es (on_peer_lost i m).0).0) (sym e)
        (record {
          absent = deliver_absent es ip (on_peer_lost ip m).0 (ground (arith, other));
          shut = λ j there. deliver_shut es j (on_peer_lost ip m).0 (shut j there);
        })
  | no n ↦
      let rest : IsGone ip (on_peer_lost k m).0 (deliver es (on_peer_lost k m).0).0 =
        deliver-IsGone es ip (on_peer_lost k m).0 (ground (arith, n, h)) in
      record {
        absent = rest.absent;
        shut = λ j there. rest.shut j (ground (arith, (find-on_peer_lost k ip m).0, n, there));
      }
]

timer_events :
    (ticks now : ℕ) (d : UdpDiscovery)
    → d.running ≡ true
    → (on_timeout_timer ticks now false d).1
      ≡ (check_timeouts ticks now (record d { timeout_timer = false })).1
unfolding on_timeout_timer
timer_events ticks now d on = ground (arith, on)

timer_network :
    (lib : JsonLibrary) (ticks now : ℕ) (d : UdpDiscovery) (s : Service)
    → s.discovery ≡ some d
    → d.timeout_timer ≡ true
    → (handle lib (timeout_timer ticks now false) s).0.network
      ≡ (deliver (on_timeout_timer ticks now false d).1 s.network).0
unfolding handle
timer_network lib ticks now d s there set = ground (arith, there, set)

-- A timeout check of a service whose discovery runs, with a table that has no address twice: of a
-- peer that was silent for more than 15 seconds the address has no session any more, and the session
-- that it had is closed.
pub handle-IsGone :
    (lib : JsonLibrary) (ticks now : ℕ) (ip : Bytes) (info : PeerInfo) (d : UdpDiscovery)
    (s : Service)
    → s.discovery ≡ some d
    → d.running ≡ true
    → d.timeout_timer ≡ true
    → IsUnique d.peers
    → find ip d.peers ≡ some info
    → info.last_seen + 15 * ticks < now
    → IsGone ip s.network (handle lib (timeout_timer ticks now false) s).0.network
handle-IsGone lib ticks now ip info d s there on set u known silent =
    let d' : UdpDiscovery = record d { timeout_timer = false } in
    let lost : 0 < losses ip (check_timeouts ticks now d').1 =
      ground (arith, (find-check_timeouts ticks now ip d' on u).1, known) in
    let gone : IsGone ip s.network (deliver (check_timeouts ticks now d').1 s.network).0 =
      deliver-IsGone (check_timeouts ticks now d').1 ip s.network lost in
    subst (λ n. IsGone ip s.network n)
      (ap (λ es. (deliver es s.network).0) (sym (timer_events ticks now d on))
        ∙ sym (timer_network lib ticks now d s there set))
      gone
