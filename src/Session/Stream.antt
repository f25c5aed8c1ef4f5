-- ===== src/Session/Stream.antt =====
-- A stream that TCP cuts into pieces.
use mathlib.Core.List.{append-nil, append_assoc}
use local_messenger.Common.{
  ℕ, zero, suc, ◌<◌, ◌≡◌, refl, sym, ap, ◌∙◌, List, [], ◌∷◌, ◌++◌, map, concat, none, some, Bytes,
  length, All, take-append_le, drop-append_le, length-append, Option-cases, inl, inr, arith,
}
use local_messenger.Protocol.{Packet, header_size, serialize}
use local_messenger.Protocol.Header.{IsSendable}
use local_messenger.Session.{Session, Event, packet, Reading, no_read, header_read, payload_read}
use local_messenger.Session.Read.{
  Received, prepend, IsFramed, on_read, on_read-IsFramed, receive_all, receive_all_step,
  receive_all_wait,
}
use local_messenger.Session.Framing.{after_packets, receive_all-serialize}

-- A read that can complete takes the same bytes when more have come.
on_read-append :
    (r : Reading) (a b : Bytes) (s s' : Session) (es : List Event) (rest : Bytes)
    → on_read r a s ≡ some (s', es, rest)
    → on_read r (a ++ b) s ≡ some (s', es, rest ++ b)
unfolding on_read
on_read-append no_read a b s s' es rest e = cc
on_read-append header_read a b s s' es rest e =
    ground
      (arith, length-append a b, take-append_le header_size a b, drop-append_le header_size a b)
on_read-append payload_read a b s s' es rest e = ground (
  arith,
  length-append a b,
  take-append_le (length s.payload_buf) a b,
  drop-append_le (length s.payload_buf) a b,
)

receive_pieces :
    (fuel : ℕ) (a b : Bytes) (s : Session)
    → length a < fuel
    → IsFramed s
    → receive_all (a ++ b) s
      ≡ prepend
          (receive_all a s).events
          (receive_all ((receive_all a s).unread ++ b) (receive_all a s).session)
receive_pieces zero a b s h v = absurd (omega arith)
receive_pieces (suc fuel) a b s h v = elim (Option-cases (on_read s.reading a s)) [
  | inl e ↦ rw (receive_all_wait a s e)
  | inr ((s', es, rest), e) ↦
      let (v', shorter) = on_read-IsFramed s.reading a s s' es rest refl v e in
      receive_all_step (a ++ b) s s' es (rest ++ b) v (on_read-append s.reading a b s s' es rest e)
      ∙ ap (prepend es) (receive_pieces fuel rest b s' (omega arith) v')
      ∙ rw (receive_all_step a s s' es rest v e, append_assoc)
]

receive_all-append :
    (a b : Bytes) (s : Session)
    → IsFramed s
    → let first = receive_all a s in
      receive_all (a ++ b) s ≡ prepend first.events (receive_all (first.unread ++ b) first.session)
receive_all-append a b s v = receive_pieces (suc (length a)) a b s (omega arith) v

-- The pieces arrive one after the other: the handlers run on each as far as it goes, and what they
-- leave unread stays in front of the next piece.
abbrev feed : List Bytes → Received → Received
feed [] r = r
feed (b ∷ bs) r = feed bs (prepend r.events (receive_all (r.unread ++ b) r.session))

abbrev pub receive_in : List Bytes → Session → Received
receive_in pieces s = feed pieces (record { session = s; events = []; unread = [] })

feed-receive_all :
    (pieces : List Bytes) (a : Bytes) (s : Session)
    → IsFramed s
    → feed pieces (receive_all a s) ≡ receive_all (a ++ concat pieces) s
feed-receive_all [] a s v = ap (λ l. receive_all l s) (sym (append-nil a))
feed-receive_all (b ∷ bs) a s v =
    ap (feed bs) (sym (receive_all-append a b s v))
    ∙ feed-receive_all bs (a ++ b) s v
    ∙ ap (λ l. receive_all l s) (append_assoc a b (concat bs))

nothing_read : (s : Session) → s.reading ≡ header_read → on_read s.reading [] s ≡ none
unfolding on_read
nothing_read s r = rw r refl

-- However TCP cuts the bytes of packets that are IsSendable into pieces, within headers, within
-- payloads, or across packets: a session that waits for a header, which gets the pieces one after the
-- other, delivers each packet once, with its header and its payload, in the order in which the peer
-- serialized them, and goes on behind them with whatever bytes follow.
pub receive_in-serialize :
    (pieces : List Bytes) (ps : List Packet) (rest : Bytes) (s : Session)
    → concat pieces ≡ concat (map serialize ps) ++ rest
    → All IsSendable ps
    → s.reading ≡ header_read
    → receive_in pieces s ≡ prepend (map packet ps) (receive_all rest (after_packets ps s))
receive_in-serialize pieces ps rest s cut v r =
    ap (feed pieces) (sym (receive_all_wait [] s (nothing_read s r)))
    ∙ feed-receive_all pieces [] s (ground (arith, r))
    ∙ ap (λ l. receive_all l s) cut
    ∙ receive_all-serialize ps rest s v r
