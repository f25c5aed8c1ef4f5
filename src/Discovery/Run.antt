-- ===== src/Discovery/Run.antt =====
-- A discovery from its start on: datagrams, timers and stop in any order.
use local_messenger.Common.{
  ℕ, ◌≡◌, refl, subst, sym, ap, not, ◌&&◌, Bool, true, false, if◌then◌else◌, List, [], Option, none,
  some, Bytes, take, arith, Bool-cases, Option-cases, inl, inr,
}
use mathlib.Core.Bool.{false≢true}
use local_messenger.Common.Map.{IsUnique}
use local_messenger.Json.{JsonLibrary}
use local_messenger.Discovery.{
  PeerInfo, UdpDiscovery, Event, Received, error, bytes_from, new_discovery, start, stop, recv_size,
  parse_peer, on_peer, do_receive, on_received, check_timeouts, on_timeout_timer,
  on_broadcast_timer, do_broadcast, schedule_broadcast, schedule_timeout_check,
}
use local_messenger.Discovery.Peers.{IsTable, on_received-IsTable, check_timeouts-IsTable}

-- A handler that returns, with the callbacks and datagrams that it makes, or a call of stop. A wait
-- on a timer ends with an error only when stop has canceled it.
pub data Step (lib : JsonLibrary) (ticks : ℕ) (d d' : UdpDiscovery) (es : List Event) : Type 0 where
  receives :
      (c : Received) (now : ℕ)
      → d.receiving ≡ true
      → on_received lib c now d ≡ (d', es)
      → Step lib ticks d d' es
  broadcasts :
      (ec : Bool)
      → d.broadcast_timer ≡ true
      → (ec ≡ true → d.running ≡ false)
      → on_broadcast_timer lib ec d ≡ some (d', es)
      → Step lib ticks d d' es
  checks :
      (ec : Bool) (now : ℕ)
      → d.timeout_timer ≡ true
      → (ec ≡ true → d.running ≡ false)
      → on_timeout_timer ticks now ec d ≡ (d', es)
      → Step lib ticks d d' es
  stops : d' ≡ stop d → es ≡ [] → Step lib ticks d d' es

pub data Run (lib : JsonLibrary) (ticks : ℕ) (d : UdpDiscovery) : UdpDiscovery → Type 0 where
  here : Run lib ticks d d
  next :
      {e f : UdpDiscovery} {es : List Event}
      → Run lib ticks d e
      → Step lib ticks e f es
      → Run lib ticks d f

-- While it runs, a receive is outstanding and both timers are set.
pub record IsActive (d : UdpDiscovery) : Type 0 where
  pub receives_on : d.running ≡ true → d.receiving ≡ true
  pub broadcasts_on : d.running ≡ true → d.broadcast_timer ≡ true
  pub checks_on : d.running ≡ true → d.timeout_timer ≡ true

on_peer-IsActive :
    (p : Option PeerInfo) (d : UdpDiscovery)
    → (d.running ≡ true → d.broadcast_timer ≡ true)
    → (d.running ≡ true → d.timeout_timer ≡ true)
    → IsActive (on_peer p d).0
unfolding on_peer do_receive
on_peer-IsActive none d b t = ground arith
on_peer-IsActive (some info) d b t = ground arith

on_received-IsActive :
    (lib : JsonLibrary) (c : Received) (now : ℕ) (d : UdpDiscovery)
    → IsActive d
    → IsActive (on_received lib c now d).0
unfolding on_received do_receive
on_received-IsActive lib error now d v = ground arith
on_received-IsActive lib (bytes_from raw sender) now d v =
    on_peer-IsActive (parse_peer lib (take recv_size raw) sender now)
      (record d { receiving = false }) v.broadcasts_on v.checks_on

rescheduled : (ec : Bool) (d : UdpDiscovery) → UdpDiscovery
unfolding schedule_broadcast
rescheduled ec d =
    let d' : UdpDiscovery = record d { broadcast_timer = false } in
    if not ec && d.running then schedule_broadcast d' else d'

on_broadcast_timer_done :
    (lib : JsonLibrary) (ec : Bool) (d d' : UdpDiscovery) (es : List Event)
    → on_broadcast_timer lib ec d ≡ some (d', es)
    → rescheduled ec d ≡ d'
unfolding on_broadcast_timer rescheduled
on_broadcast_timer_done lib ec d d' es h = elim (Bool-cases (not ec && d.running)) [
  | inl e ↦ elim (Option-cases (do_broadcast lib (record d { broadcast_timer = false }))) [
    | inl n ↦ ground (arith, e, n, h)
    | inr (fs, f) ↦ ground (arith, e, f, h)
  ]
  | inr e ↦ ground (arith, e, h)
]

rescheduled-Keeps :
    (ec : Bool) (d : UdpDiscovery)
    → (ec ≡ true → d.running ≡ false)
    → IsActive d
    → IsTable d
    → IsActive (rescheduled ec d) × IsTable (rescheduled ec d)
unfolding rescheduled schedule_broadcast
rescheduled-Keeps ec d k v w = ground arith

on_timeout_timer-IsActive :
    (ticks now : ℕ) (ec : Bool) (d : UdpDiscovery)
    → (ec ≡ true → d.running ≡ false)
    → IsActive d
    → IsActive (on_timeout_timer ticks now ec d).0
unfolding on_timeout_timer check_timeouts schedule_timeout_check
on_timeout_timer-IsActive ticks now ec d k v = ground arith

schedule_timeout_check-IsTable : (d : UdpDiscovery) → IsTable d → IsTable (schedule_timeout_check d)
unfolding schedule_timeout_check
schedule_timeout_check-IsTable d v = ground arith

on_timeout_timer-IsTable :
    (ticks now : ℕ) (ec : Bool) (d : UdpDiscovery)
    → IsTable d
    → IsTable (on_timeout_timer ticks now ec d).0
unfolding on_timeout_timer
on_timeout_timer-IsTable ticks now ec d v =
    let v' : IsTable (record d { timeout_timer = false }) = record {
      unique = v.unique;
      entries = v.entries;
    } in
    elim (Bool-cases (not ec && d.running)) [
      | inl e ↦ simp e (
          schedule_timeout_check-IsTable _
            (check_timeouts-IsTable ticks now (record d { timeout_timer = false }) v'))
      | inr e ↦ simp e v'
    ]

started : Bytes → Bytes → ℕ → ℕ → UdpDiscovery
unfolding new_discovery
started username public_key tcp_port udp_port = record (new_discovery udp_port) {
  my_username = username;
  my_tcp_port = tcp_port;
  my_public_key = public_key;
  running = true;
  receiving = true;
  broadcast_timer = true;
  timeout_timer = true;
}

start-started :
    (lib : JsonLibrary) (username public_key : Bytes) (tcp_port udp_port : ℕ) (d : UdpDiscovery)
    (es : List Event)
    → start lib username tcp_port public_key (new_discovery udp_port) ≡ some (d, es)
    → started username public_key tcp_port udp_port ≡ d
unfolding start started new_discovery schedule_broadcast schedule_timeout_check do_receive
start-started lib username public_key tcp_port udp_port d es h =
    elim (Option-cases (
      do_broadcast lib (record (new_discovery udp_port) {
        my_username = username;
        my_tcp_port = tcp_port;
        my_public_key = public_key;
        running = true;
      }))) [ inl n ↦ ground (arith, n, h) | inr (fs, f) ↦ ground (arith, f, h) ]

start-Keeps :
    (lib : JsonLibrary) (username public_key : Bytes) (tcp_port udp_port : ℕ) (d : UdpDiscovery)
    (es : List Event)
    → start lib username tcp_port public_key (new_discovery udp_port) ≡ some (d, es)
    → IsActive d × IsTable d
start-Keeps lib username public_key tcp_port udp_port d es h =
    subst (λ x. IsActive x × IsTable x)
      (start-started lib username public_key tcp_port udp_port d es h)
      (unfold started new_discovery IsUnique in
        (
          record { receives_on = λ k. refl; broadcasts_on = λ k. refl; checks_on = λ k. refl },
          record { unique = tt; entries = tt },
        ))

Step-Keeps :
    {lib : JsonLibrary} {ticks : ℕ} {d e : UdpDiscovery} {es : List Event}
    → Step lib ticks d e es
    → IsActive d
    → IsTable d
    → IsActive e × IsTable e
Step-Keeps {lib} {ticks} {d} {e} (receives c now r h) v w =
    let same : (on_received lib c now d).0 ≡ e = ap (λ x. x.0) h in
    subst (λ x. IsActive x × IsTable x) same
      (on_received-IsActive lib c now d v, on_received-IsTable lib c now d w)
Step-Keeps {lib} {ticks} {d} {e} {es} (broadcasts ec b k h) v w =
    subst (λ x. IsActive x × IsTable x) (on_broadcast_timer_done lib ec d e es h)
      (rescheduled-Keeps ec d k v w)
Step-Keeps {lib} {ticks} {d} {e} (checks ec now b k h) v w =
    let same : (on_timeout_timer ticks now ec d).0 ≡ e = ap (λ x. x.0) h in
    subst (λ x. IsActive x × IsTable x) same
      (on_timeout_timer-IsActive ticks now ec d k v, on_timeout_timer-IsTable ticks now ec d w)
Step-Keeps {lib} {ticks} {d} {e} (stops h n) v w =
    subst (λ x. IsActive x × IsTable x) (sym h)
      (unfold stop in
        (
          record {
            receives_on = λ k. absurd (false≢true k);
            broadcasts_on = λ k. absurd (false≢true k);
            checks_on = λ k. absurd (false≢true k);
          },
          record { unique = w.unique; entries = w.entries },
        ))

-- A new discovery that was started, whatever datagrams, times and calls of stop come: no address is
-- twice in the table, each entry stands under its own address, none has the peer's own public key
-- unless that is empty, and while the discovery runs a receive is outstanding and both timers are
-- set.
pub Run-IsTable :
    {lib : JsonLibrary} {ticks : ℕ} {d e : UdpDiscovery} {es : List Event}
    → (username public_key : Bytes) (tcp_port udp_port : ℕ)
    → start lib username tcp_port public_key (new_discovery udp_port) ≡ some (d, es)
    → Run lib ticks d e
    → IsActive e × IsTable e
Run-IsTable {lib} {ticks} {d} {e} {es} username public_key tcp_port udp_port h here =
    start-Keeps lib username public_key tcp_port udp_port d es h
Run-IsTable {lib} {ticks} username public_key tcp_port udp_port h (next run step) =
    let (v, w) = Run-IsTable username public_key tcp_port udp_port h run in Step-Keeps step v w
