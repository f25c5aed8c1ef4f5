-- ===== src/Session/Progress.antt =====
-- The read handlers come to rest: they run only while the stream holds what they wait for.
use local_messenger.Common.{
  ℕ, zero, suc, ◌<◌, ◌≤◌, ◌≡◌, refl, [], none, Option-cases, inl, inr, Bytes, length, arith,
}
use local_messenger.Protocol.{header_size, max_payload}
use local_messenger.Session.{Session, Reading, no_read, header_read, payload_read}
use local_messenger.Session.Read.{
  on_read, Received, receive, receive_all, IsFramed, on_read-IsFramed,
}

-- What rests unread is less than the read that is outstanding waits for; where none is outstanding
-- the session has stopped reading.
pub record IsWaiting (r : Received) : Type 0 where
  pub framed : IsFramed r.session
  pub header : r.session.reading ≡ header_read → length r.unread < header_size
  pub payload : r.session.reading ≡ payload_read → length r.unread < r.session.current_header.length
  pub bounded : r.session.reading ≡ payload_read → r.session.current_header.length ≤ max_payload

waits :
    (reading : Reading) (stream : Bytes) (s : Session)
    → s.reading ≡ reading
    → IsFramed s
    → on_read reading stream s ≡ none
    → IsWaiting (record { session = s; events = []; unread = stream })
unfolding on_read header_size
waits no_read stream s e v h = record {
  framed = v;
  header = λ k. cc;
  payload = λ k. cc;
  bounded = λ k. cc;
}
waits header_read stream s e v h = record {
  framed = v;
  header = λ k. ground (arith, h);
  payload = λ k. cc;
  bounded = λ k. cc;
}
waits payload_read stream s e v h = record {
  framed = v;
  header = λ k. cc;
  payload = λ k. ground (arith, h, v.announced k);
  bounded = λ k. ground (arith, v.announced k, v.bounded k);
}

receive-IsWaiting :
    (fuel : ℕ) (stream : Bytes) (s : Session)
    → IsFramed s
    → length stream < fuel
    → IsWaiting (receive fuel stream s)
unfolding receive
receive-IsWaiting zero stream s v h = absurd (omega arith)
receive-IsWaiting (suc fuel) stream s v h = elim (Option-cases (on_read s.reading stream s)) [
  | inl e ↦ rw (e, receive) (waits s.reading stream s refl v e)
  | inr ((s', es, rest), e) ↦
      let (v', shorter) = on_read-IsFramed s.reading stream s s' es rest refl v e in
      let last : IsWaiting (receive fuel rest s') =
        receive-IsWaiting fuel rest s' v' (omega arith) in
      rw (e, receive)
        (record {
          framed = last.framed;
          header = last.header;
          payload = last.payload;
          bounded = last.bounded;
        })
]

-- Whatever the bytes that arrive, and whatever the session does, as long as its payload read waits
-- for the announced size: the read handlers come to rest, with a session that reads no more, or that
-- waits for more bytes than are left, of a header or of a payload within the limit.
pub receive_all-IsWaiting :
    (stream : Bytes) (s : Session) → IsFramed s → IsWaiting (receive_all stream s)
unfolding receive_all
receive_all-IsWaiting stream s v = receive-IsWaiting (suc (length stream)) stream s v (omega arith)
