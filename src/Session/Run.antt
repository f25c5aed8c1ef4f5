-- ===== src/Session/Run.antt =====
-- Everything that can happen to a session, in any order: calls from outside, and the completions of
-- what is outstanding.
use local_messenger.Common.{
  length, ◌+◌, ◌<◌, ◌≤◌, ◌≡◌, refl, ap, subst, true, false, List, [], ◌++◌, Option, none, some,
  Bytes, codes, arith,
}
use local_messenger.Protocol.{Packet, PacketHeader, max_payload, deserialize_header}
use local_messenger.Session.{
  Session, Event, ErrorCode, Completion, failed, received, parsed_header, no_read, header_read,
  payload_read, done, relocked, new_session, start, send, close, on_header_read, on_payload_read,
  on_written, handle_error,
}
use local_messenger.Session.Read.{IsFramed, on_header_read-IsFramed, on_payload_read-IsFramed}
use local_messenger.Session.Close.{
  Counts, closings, closings-append, open_count, IsShut, on_header_read-Counts,
  on_payload_read-Counts, handle_error-Counts,
}
use local_messenger.Session.Write.{send_relocks}

-- One call or completion that returns, with the callbacks that it makes. An `async_write` can
-- complete only while one is in flight.
pub data Step (s t : Session) (es : List Event) : Type 0 where
  starts : t ≡ start s → es ≡ [] → Step s t es
  sends : (p : Packet) → send p s ≡ done t → es ≡ [] → Step s t es
  closes : t ≡ close s → es ≡ [] → Step s t es
  reads_header :
      (c : Completion) → s.reading ≡ header_read → on_header_read c s ≡ (t, es) → Step s t es
  reads_payload :
      (c : Completion) → s.reading ≡ payload_read → on_payload_read c s ≡ (t, es) → Step s t es
  writes :
      (b : Bytes) (ec : Option ErrorCode)
      → s.in_flight ≡ some b
      → on_written ec s ≡ done (t, es)
      → Step s t es

pub data Run (s : Session) : Session → List Event → Type 0 where
  here : Run s s []
  next :
      {t u : Session} {es fs gs : List Event}
      → Run s t es
      → Step t u fs
      → gs ≡ es ++ fs
      → Run s u gs

-- Nothing was ever sent: the state in which each send locks the mutex twice.
record IsSilent (s : Session) : Type 0 where
  idle : s.writing ≡ false
  empty : s.write_queue ≡ []
  nothing_out : s.in_flight ≡ none

parsed_header-IsSilent :
    (h : Option PacketHeader) (s : Session) → IsSilent s → IsSilent (parsed_header h s).0
unfolding parsed_header
parsed_header-IsSilent none s v = ground arith
parsed_header-IsSilent (some h) s v = ground arith

on_header_read-IsSilent :
    (c : Completion) (s : Session) → IsSilent s → IsSilent (on_header_read c s).0
unfolding on_header_read
on_header_read-IsSilent (failed ec) s v = ground arith
on_header_read-IsSilent (received d) s v =
    parsed_header-IsSilent (deserialize_header d) (record s { reading = no_read }) (ground arith)

on_payload_read-IsSilent :
    (c : Completion) (s : Session) → IsSilent s → IsSilent (on_payload_read c s).0
unfolding on_payload_read
on_payload_read-IsSilent (failed ec) s v = ground arith
on_payload_read-IsSilent (received d) s v = ground arith

Step-IsSilent : {s t : Session} {es : List Event} → Step s t es → IsSilent s → IsSilent t
unfolding start close
Step-IsSilent (starts e n) v = ground arith
Step-IsSilent {s} (sends p e n) v = cc (send_relocks p s v.idle)
Step-IsSilent (closes e n) v = ground arith
Step-IsSilent {s} (reads_header c r e) v =
    subst (λ x. IsSilent x.0) e (on_header_read-IsSilent c s v)
Step-IsSilent {s} (reads_payload c r e) v =
    subst (λ x. IsSilent x.0) e (on_payload_read-IsSilent c s v)
Step-IsSilent (writes b ec f e) v = cc (v.nothing_out)

Step-IsFramed : {s t : Session} {es : List Event} → Step s t es → IsFramed s → IsFramed t
unfolding start send close on_written
Step-IsFramed (starts e n) v = ground arith
Step-IsFramed (sends p e n) v = ground arith
Step-IsFramed (closes e n) v = ground arith
Step-IsFramed {s} (reads_header c r e) v =
    subst (λ x. IsFramed x.0) e (on_header_read-IsFramed c s v)
Step-IsFramed {s} (reads_payload c r e) v =
    subst (λ x. IsFramed x.0) e (on_payload_read-IsFramed c s v)
Step-IsFramed (writes b ec f e) v = ground arith

new_session-IsSilent : IsSilent new_session
unfolding new_session
new_session-IsSilent = record { idle = refl; empty = refl; nothing_out = refl }

new_session-IsFramed : IsFramed new_session
unfolding new_session
new_session-IsFramed = ground arith

Run-IsSilent : {s t : Session} {es : List Event} → Run s t es → IsSilent s → IsSilent t
Run-IsSilent here v = v
Run-IsSilent (next r x e) v = Step-IsSilent x (Run-IsSilent r v)

Run-IsFramed : {s t : Session} {es : List Event} → Run s t es → IsFramed s → IsFramed t
Run-IsFramed here v = v
Run-IsFramed (next r x e) v = Step-IsFramed x (Run-IsFramed r v)

-- In every state that a new session can reach by calls that return and by completions, nothing has
-- been queued or handed to the socket, and a send of any packet locks the mutex that it holds.
pub Run-send_relocks :
    (t : Session) (es : List Event) (p : Packet)
    → Run new_session t es
    → (send p t ≡ relocked) × (t.write_queue ≡ []) × (t.in_flight ≡ none)
Run-send_relocks t es p r =
    let v = Run-IsSilent r new_session-IsSilent in (send_relocks p t v.idle, v.empty, v.nothing_out)

-- In every state that a new session can reach, a payload read that is outstanding waits for the
-- length that the current header announced, which is at least 1 and at most MAX_PAYLOAD.
pub Run-payload_bounds :
    (t : Session) (es : List Event)
    → Run new_session t es
    → t.reading ≡ payload_read
    → (length t.payload_buf ≡ t.current_header.length)
      × (0 < t.current_header.length)
      × (t.current_header.length ≤ max_payload)
Run-payload_bounds t es r p =
    let v = Run-IsFramed r new_session-IsFramed in
    let a = v.announced p in
    let b = v.buffered p in let c = v.bounded p in (a, omega arith, omega arith)

-- A step calls on_close_ only if it closes the session.
abbrev StepCounts : Session → Session → List Event → Type 0
StepCounts s t es = (closings es + open_count t ≤ open_count s) × (IsShut s → IsShut t)

Counts→StepCounts :
    (s t : Session) (es : List Event) (r : Session × List Event)
    → Counts s r
    → r ≡ (t, es)
    → StepCounts s t es
Counts→StepCounts s t es r h e = let k = subst (Counts s) e h in (omega (arith, k.0), k.1)

Step-StepCounts : {s t : Session} {es : List Event} → Step s t es → StepCounts s t es
unfolding start send close
Step-StepCounts (starts e n) = ground arith
Step-StepCounts (sends p e n) = ground arith
Step-StepCounts (closes e n) = ground arith
Step-StepCounts {s} {t} {es} (reads_header c r e) =
    Counts→StepCounts s t es _ (on_header_read-Counts c s) e
Step-StepCounts {s} {t} {es} (reads_payload c r e) =
    Counts→StepCounts s t es _ (on_payload_read-Counts c s) e
Step-StepCounts {s} {t} {es} (writes b none f e) = unfold on_written in ground arith
Step-StepCounts {s} {t} {es} (writes b (some ec) f e) =
    let r : Session × List Event =
      handle_error (codes "write") ec (record s { in_flight = none }) in
    Counts→StepCounts s t es r
      (handle_error-Counts (codes "write") ec (record s { in_flight = none }))
      (unfold on_written in cc)

Run-StepCounts : {s t : Session} {es : List Event} → Run s t es → StepCounts s t es
Run-StepCounts here = (omega arith, λ v. v)
Run-StepCounts (next {es = es} {fs = fs} r x e) =
    let (k, u) = Run-StepCounts r in
    let (k', u') = Step-StepCounts x in
    (omega (arith, ap closings e, closings-append es fs), λ v. u' (u v))

-- In every run of a new session on_close_ is called at most once, not at all while the session is
-- still open, and a session that is closed has closed its socket.
pub Run-closings :
    (t : Session) (es : List Event)
    → Run new_session t es
    → (closings es ≤ 1)
      × (t.closed ≡ false → closings es ≡ 0)
      × (t.closed ≡ true → t.socket_open ≡ false)
unfolding new_session
Run-closings t es r = let (k, u) = Run-StepCounts r in (omega arith, λ c. ground arith, u (λ c. cc))
