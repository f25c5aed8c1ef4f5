-- ===== src/Network/Steps/Reached.antt =====
-- Sessions in states that a new session comes to: what the operations do to them, and what a send
-- comes to.
use local_messenger.Common.{
  ℕ, ◌≡◌, refl, sym, ap, ◌∙◌, ◌==◌, Bool, true, false, if◌then◌else◌, List, [], ◌∷◌, ◌++◌, Option,
  none, some, Bytes, Bool-cases, inl, inr, arith,
}
use local_messenger.Common.Map.{Map, find}
use local_messenger.Protocol.{Packet, make_pong}
use local_messenger.Session.{
  Session, done, relocked, ◌>>=◌, new_session, start, close, is_open, send,
}
use local_messenger.Session
use local_messenger.Session.Run.{Run, next, starts, closes, Run-send_relocks}
use local_messenger.Network.{
  NetworkManager, Event, set_session, close_session, close_found, open_found, is_connected,
  send_session, send_found, send_to, broadcast_over, is_ping, on_session_packet, close_all,
}

-- A state that a new session comes to by its calls and handlers.
abbrev pub IsReached : Session → Type 0
IsReached s = (es : List Session.Event) × Run new_session s es

pub close-IsReached : (s : Session) → IsReached s → IsReached (close s)
close-IsReached s (es, r) = (es ++ [], next r (closes refl refl) refl)

pub start-IsReached : (s : Session) → IsReached s → IsReached (start s)
start-IsReached s (es, r) = (es ++ [], next r (starts refl refl) refl)

abbrev pub AllReached : (ℕ → Session) → Type 0
AllReached store = (i : ℕ) → IsReached (store i)

pub set_session-AllReached :
    (i : ℕ) (t : Session) (store : ℕ → Session)
    → IsReached t
    → AllReached store
    → AllReached (set_session i t store)
set_session-AllReached i t store r all j =
    elim (i == j) as (λ b. IsReached (if b then t else store j)) [ true ↦ r | false ↦ all j ]

pub close_found-AllReached :
    (o : Option ℕ) (m : NetworkManager) → AllReached m.store → AllReached (close_found o m).store
unfolding close_found close_session
close_found-AllReached none m all = all
close_found-AllReached (some i) m all =
    set_session-AllReached i (close (m.store i)) m.store (close-IsReached (m.store i) (all i)) all

pub close_all-AllReached :
    (l : Map ℕ) (m : NetworkManager) → AllReached m.store → AllReached (close_all l m).store
unfolding close_all close_session
close_all-AllReached [] m all = all
close_all-AllReached ((ip, i) ∷ l) m all =
    close_all-AllReached l (close_session i m) (
      set_session-AllReached i (close (m.store i)) m.store (close-IsReached (m.store i) (all i))
        all)

-- A send to a session in such a state does not return if it is open, and does nothing if it is not.
send_session_stuck :
    (p : Packet) (i : ℕ) (m : NetworkManager)
    → AllReached m.store
    → send_session p i m ≡ (if is_open (m.store i) then relocked else done m)
unfolding send_session
send_session_stuck p i m all =
    let (es, r) = all i in ground (arith, (Run-send_relocks (m.store i) es p r).0)

pub send_to_stuck :
    (ip : Bytes) (p : Packet) (m : NetworkManager)
    → AllReached m.store
    → send_to ip p m ≡ (if is_connected ip m then relocked else done m)
unfolding send_to is_connected
send_to_stuck ip p m all = by_session (find ip m.sessions)
  where
    by_session : (o : Option ℕ) → send_found p o m ≡ (if open_found o m then relocked else done m)
    by_session none = unfold send_found open_found in refl
    by_session (some i) = unfold send_found open_found in send_session_stuck p i m all

-- Operations that send, and return, have sent nothing.
pub same_of_done :
    (b : Bool) (m n : NetworkManager) → (if b then relocked else done m) ≡ done n → m ≡ n
same_of_done true m n e = cc
same_of_done false m n e = ground (arith, e)

pub broadcast_over_same :
    (p : Packet) (l : Map ℕ) (m n : NetworkManager)
    → AllReached m.store
    → broadcast_over p l m ≡ done n
    → m ≡ n
unfolding broadcast_over
broadcast_over_same p [] m n all e = ground (arith, e)
broadcast_over_same p ((ip, i) ∷ l) m n all e = elim (Bool-cases (is_open (m.store i))) [
  | inl o ↦ ground (arith, send_session_stuck p i m all, o, e)
  | inr c ↦
      let closed : send_session p i m ≡ done m = ground (arith, send_session_stuck p i m all, c) in
      broadcast_over_same p l m n all (ap (λ x. x >>= broadcast_over p l) (sym closed) ∙ e)
]

pub on_session_packet_same :
    (ip : Bytes) (p : Packet) (m n : NetworkManager) (es : List Event)
    → AllReached m.store
    → on_session_packet ip p m ≡ done (n, es)
    → m ≡ n
unfolding on_session_packet
on_session_packet_same ip p m n es all e = elim (Bool-cases (is_ping p.header.type)) [
  | inl ping ↦ elim (Bool-cases (is_connected ip m)) [
    | inl c ↦ ground (arith, send_to_stuck ip make_pong m all, c, ping, e)
    | inr c ↦ ground (arith, send_to_stuck ip make_pong m all, c, ping, e)
  ]
  | inr other ↦ ground (arith, other, e)
]
