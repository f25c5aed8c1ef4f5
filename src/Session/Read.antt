-- ===== src/Session/Read.antt =====
-- The reading side under a byte stream: `async_read` on a buffer of n bytes completes when n bytes
-- of the stream are there, and takes just those. The handlers run one after the other, since each
-- starts the next read.
use local_messenger.Common.{
  ℕ, zero, suc, ◌≤◌, ◌<◌, ◌≡◌, refl, ap, inl, inr, List, [], ◌∷◌, ◌++◌, Option, none, some,
  Option-cases, Bytes, codes, length, take, drop, length-drop, leb, if◌then◌else◌, arith,
}
use local_messenger.Protocol.{PacketHeader, header_size, max_payload, deserialize_header}
use local_messenger.Protocol.Header.{deserialize_header-length_le}
use local_messenger.Session.{
  Session, Event, ErrorCode, Completion, Reading, no_read, header_read, payload_read, failed,
  received, resize, handle_error, header_done, parsed_header, on_header_read, on_payload_read,
}

-- The handler of the outstanding read, run on the bytes that it waits for, with what the stream
-- still holds; `none` while they have not come.
unfoldable pub on_read : Reading → Bytes → Session → Option (Session × List Event × Bytes)
on_read no_read stream s = none
on_read header_read stream s =
    if leb header_size (length stream)
    then (let (s', es) = on_header_read (received (take header_size stream)) s in
        some (s', es, drop header_size stream))
    else none
on_read payload_read stream s =
    if leb (length s.payload_buf) (length stream)
    then (let (s', es) = on_payload_read (received (take (length s.payload_buf) stream)) s in
        some (s', es, drop (length s.payload_buf) stream))
    else none

pub record Received : Type 0 where
  pub session : Session
  pub events : List Event
  pub unread : Bytes

abbrev pub prepend : List Event → Received → Received
prepend es r = record r { events = es ++ r.events }

abbrev resume :
    Received → (Bytes → Session → Received) → Option (Session × List Event × Bytes) → Received
resume waiting run none = waiting
resume waiting run (some (s', es, rest)) = prepend es (run rest s')

-- Handlers run until the outstanding read has to wait.
unfoldable pub receive : ℕ → Bytes → Session → Received
receive zero stream s = record { session = s; events = []; unread = stream }
receive (suc fuel) stream s =
    resume (record { session = s; events = []; unread = stream }) (receive fuel)
      (on_read s.reading stream s)

-- A payload read waits for the size that the header announced: at least a byte, and no more than
-- MAX_PAYLOAD.
pub record IsFramed (s : Session) : Type 0 where
  pub buffered : s.reading ≡ payload_read → 0 < length s.payload_buf
  pub announced : s.reading ≡ payload_read → length s.payload_buf ≡ s.current_header.length
  pub bounded : s.reading ≡ payload_read → length s.payload_buf ≤ max_payload

pub length-resize : (n : ℕ) (xs : Bytes) → length (resize n xs) ≡ n
length-resize zero xs = refl
length-resize (suc n) [] = ap suc (length-resize n [])
length-resize (suc n) (x ∷ xs) = ap suc (length-resize n xs)

header_done-IsFramed :
    (h : PacketHeader) (s : Session) → h.length ≤ max_payload → IsFramed (header_done h s).0
unfolding header_done
header_done-IsFramed h s b = ground (arith, length-resize h.length s.payload_buf)

pub handle_error-IsFramed :
    (context : Bytes) (ec : ErrorCode) (s : Session)
    → IsFramed s
    → IsFramed (handle_error context ec s).0
unfolding handle_error
handle_error-IsFramed context ec s v = ground arith

parsed_header-IsFramed :
    (d : Bytes) (s : Session) → IsFramed s → IsFramed (parsed_header (deserialize_header d) s).0
unfolding parsed_header
parsed_header-IsFramed d s v = elim (Option-cases (deserialize_header d)) [
  | inl e ↦ rw (e, parsed_header) (handle_error-IsFramed _ _ s v)
  | inr (h, e) ↦
      rw (e, parsed_header) (header_done-IsFramed h s (deserialize_header-length_le d h e))
]

pub on_header_read-IsFramed :
    (c : Completion) (s : Session) → IsFramed s → IsFramed (on_header_read c s).0
unfolding on_header_read
on_header_read-IsFramed (failed ec) s v =
    handle_error-IsFramed (codes "read_header") ec (record s { reading = no_read }) (ground arith)
on_header_read-IsFramed (received d) s v =
    parsed_header-IsFramed d (record s { reading = no_read }) (ground arith)

pub on_payload_read-IsFramed :
    (c : Completion) (s : Session) → IsFramed s → IsFramed (on_payload_read c s).0
unfolding on_payload_read
on_payload_read-IsFramed (failed ec) s v =
    handle_error-IsFramed (codes "read_payload") ec (record s { reading = no_read }) (ground arith)
on_payload_read-IsFramed (received d) s v = ground arith

-- A handler keeps the session framed and takes at least one byte.
pub on_read-IsFramed :
    (r : Reading) (stream : Bytes) (s s' : Session) (es : List Event) (rest : Bytes)
    → s.reading ≡ r
    → IsFramed s
    → on_read r stream s ≡ some (s', es, rest)
    → IsFramed s' × (length rest < length stream)
unfolding on_read
on_read-IsFramed no_read stream s s' es rest e v h = cc
on_read-IsFramed header_read stream s s' es rest e v h = ground (
  arith,
  length-drop header_size stream,
  on_header_read-IsFramed (received (take header_size stream)) s v,
)
on_read-IsFramed payload_read stream s s' es rest e v h = ground (
  arith,
  length-drop (length s.payload_buf) stream,
  on_payload_read-IsFramed (received (take (length s.payload_buf) stream)) s v,
)

-- More fuel than the stream has bytes changes nothing.
pub receive_fuel :
    (f g : ℕ) (stream : Bytes) (s : Session)
    → IsFramed s
    → length stream < f
    → length stream < g
    → receive f stream s ≡ receive g stream s
unfolding receive
receive_fuel zero g stream s v hf hg = absurd (omega arith)
receive_fuel (suc f) zero stream s v hf hg = absurd (omega arith)
receive_fuel (suc f) (suc g) stream s v hf hg = elim (Option-cases (on_read s.reading stream s)) [
  | inl e ↦ rw (e, receive)
  | inr ((s', es, rest), e) ↦
      let (v', shorter) = on_read-IsFramed s.reading stream s s' es rest refl v e in
      rw (e, receive) (ap (prepend es) (receive_fuel f g rest s' v' (omega arith) (omega arith)))
]

-- The fuel that always suffices.
unfoldable pub receive_all : Bytes → Session → Received
unfolding receive
receive_all stream s = receive (suc (length stream)) stream s

pub receive_all_wait :
    (stream : Bytes) (s : Session)
    → on_read s.reading stream s ≡ none
    → receive_all stream s ≡ record { session = s; events = []; unread = stream }
unfolding receive_all
receive_all_wait stream s e = rw (e, receive)

pub receive_all_step :
    (stream : Bytes) (s s' : Session) (es : List Event) (rest : Bytes)
    → IsFramed s
    → on_read s.reading stream s ≡ some (s', es, rest)
    → receive_all stream s ≡ prepend es (receive_all rest s')
unfolding receive_all
receive_all_step stream s s' es rest v e =
    let (v', shorter) = on_read-IsFramed s.reading stream s s' es rest refl v e in
    rw (e, receive)
      (ap (prepend es)
        (receive_fuel (length stream) (suc (length rest)) rest s' v' shorter (omega arith)))
