-- ===== src/Session/Framing.antt =====
-- Packets that are sent one after the other come out of the reader one by one.
use local_messenger.Common.{
  ℕ, ◌≤◌, ◌<◌, ◌≡◌, refl, ap, sym, subst, ◌∙◌, true, List, [], ◌∷◌, ◌++◌, map, some, Bytes, length,
  drop, concat, All, take-append, drop-append, length-append, leb, ◌==◌, Bool-cases, inl, inr,
  if◌then◌else◌, arith,
}
use mathlib.Core.List.{append_assoc}
use local_messenger.Protocol.{Packet, PacketHeader, header_size, serialize}
use local_messenger.Protocol.{deserialize_header}
use local_messenger.Protocol.Header.{
  IsSendable, deserialize_header_sendable, deserialize_header-take,
}
use local_messenger.Session.{
  Session, Event, packet, header_read, payload_read, no_read, resize, header_done, parsed_header,
  on_header_read, on_payload_read,
}
use local_messenger.Session.Read.{
  prepend, IsFramed, on_read, receive_all, receive_all_step, length-resize,
}

-- What is left of the packets that were read.
abbrev pub after_packet : Packet → Session → Session
after_packet p s = record s {
  reading = header_read;
  current_header = p.header;
  payload_buf = if p.header.length == 0 then s.payload_buf else [];
}

-- The session that has read the header of `p` and waits for the payload.
abbrev with_header : Packet → Session → Session
with_header p s = record s {
  reading = payload_read;
  current_header = p.header;
  payload_buf = resize p.header.length s.payload_buf;
}

le→leb : (a b : ℕ) → a ≤ b → leb a b ≡ true
le→leb a b h = ground arith

accept_header :
    (d : Bytes) (h : PacketHeader) (s : Session)
    → header_size ≤ length d
    → deserialize_header d ≡ some h
    → let done = header_done h (record s { reading = no_read }) in
      on_read header_read d s ≡ some (done.0, done.1, drop header_size d)
unfolding on_read on_header_read
accept_header d h s long e =
    rw (le→leb header_size (length d) long, deserialize_header-take d, e, parsed_header)

serialize_parts :
    (p : Packet) (rest : Bytes)
    → (drop header_size (serialize p ++ rest) ≡ p.payload ++ rest)
      × (header_size ≤ length (serialize p ++ rest))
unfolding serialize
serialize_parts p rest = (refl, omega arith)

read_header :
    (p : Packet) (rest : Bytes) (s : Session)
    → IsSendable p
    → let done = header_done p.header (record s { reading = no_read }) in
      on_read header_read (serialize p ++ rest) s ≡ some (done.0, done.1, p.payload ++ rest)
read_header p rest s v =
    let (tail, long) = serialize_parts p rest in
    rw tail at
      (accept_header (serialize p ++ rest) p.header s long (deserialize_header_sendable p rest v))

read_payload :
    (p : Packet) (rest : Bytes) (s : Session)
    → IsSendable p
    → on_read payload_read (p.payload ++ rest) (with_header p s)
      ≡ some (
        record (with_header p s) { reading = header_read; payload_buf = [] },
        packet p ∷ [],
        rest,
      )
unfolding on_read on_payload_read
read_payload p rest s v = rw (
  length-resize p.header.length s.payload_buf,
  v.sized,
  le→leb (length p.payload) (length (p.payload ++ rest))
      (omega (arith, length-append p.payload rest)),
  take-append p.payload rest,
  drop-append p.payload rest,
)

header_done_empty :
    (p : Packet) (s : Session)
    → IsSendable p
    → p.header.length ≡ 0
    → header_done p.header (record s { reading = no_read }) ≡ (after_packet p s, packet p ∷ [])
unfolding header_done
header_done_empty p s v e = ground arith

header_done_full :
    (p : Packet) (s : Session)
    → 0 < p.header.length
    → header_done p.header (record s { reading = no_read }) ≡ (with_header p s, [])
unfolding header_done
header_done_full p s h = ground arith

nothing_before : (xs ys : Bytes) → length xs ≡ 0 → xs ++ ys ≡ ys
nothing_before [] ys e = refl
nothing_before (x ∷ xs) ys e = absurd (omega arith)

IsFramed-header : (s : Session) → s.reading ≡ header_read → IsFramed s
IsFramed-header s r = ground arith

with_header-IsFramed :
    (p : Packet) (s : Session) → IsSendable p → 0 < p.header.length → IsFramed (with_header p s)
with_header-IsFramed p s v h =
    omega (arith, length-resize p.header.length s.payload_buf, v.sized, v.fits)

-- One packet, in one read or in two.
receive_packet :
    (p : Packet) (rest : Bytes) (s : Session)
    → IsSendable p
    → s.reading ≡ header_read
    → receive_all (serialize p ++ rest) s
      ≡ prepend (packet p ∷ []) (receive_all rest (after_packet p s))
receive_packet p rest s v r = elim (Bool-cases (p.header.length == 0)) [
  | inl empty ↦
      rw
        (
          header_done_empty p s v (ground arith),
          nothing_before p.payload rest (ground (arith, v.sized)),
        )
        at first
  | inr full ↦
      rw (header_done_full p s (ground arith)) at first
      ∙ receive_all_step (p.payload ++ rest) (with_header p s) _ _ rest
          (with_header-IsFramed p s v (ground arith)) (read_payload p rest s v)
      ∙ rw full
]
  where
    done : Session × List Event
    done = header_done p.header (record s { reading = no_read })

    first :
        receive_all (serialize p ++ rest) s
        ≡ prepend done.1 (receive_all (p.payload ++ rest) done.0)
    first = receive_all_step _ s done.0 done.1 _ (IsFramed-header s r) (
        subst (λ x. on_read x (serialize p ++ rest) s ≡ some (done.0, done.1, p.payload ++ rest))
          (sym r) (read_header p rest s v))

abbrev pub after_packets : List Packet → Session → Session
after_packets [] s = s
after_packets (p ∷ ps) s = after_packets ps (after_packet p s)

pub receive_all-serialize :
    (ps : List Packet) (rest : Bytes) (s : Session)
    → All IsSendable ps
    → s.reading ≡ header_read
    → receive_all (concat (map serialize ps) ++ rest) s
      ≡ prepend (map packet ps) (receive_all rest (after_packets ps s))
receive_all-serialize [] rest s v r = refl
receive_all-serialize (p ∷ ps) rest s v r = rw append_assoc (
    receive_packet p _ s v.0 r
    ∙ ap (prepend (packet p ∷ [])) (receive_all-serialize ps rest (after_packet p s) v.1 refl))
