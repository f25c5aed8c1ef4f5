-- ===== src/Session/Examples.antt =====
-- Concrete sessions, and the theorems at them.
use local_messenger.Common.{
  ◌<◌, ◌≤◌, ◌≡◌, refl, true, false, List, [], ◌∷◌, ◌++◌, map, concat, none, Bytes, codes, length,
  All, take, drop, arith,
}
use local_messenger.Protocol.Types.{msg_text, byte_of, type_of}
use local_messenger.Protocol.{
  Packet, protocol_magic, default_header, max_payload, serialize, deserialize_header,
}
use local_messenger.Protocol.Header.{IsSendable}
use local_messenger.Session.{
  Session, Event, packet, closing, invalid_argument, received, header_read, payload_read, relocked,
  new_session, start, send, on_header_read, on_payload_read, no_read,
}
use local_messenger.Session.Read.{on_read, receive_all, prepend}
use local_messenger.Session.Progress.{IsWaiting, receive_all-IsWaiting}
use local_messenger.Session.Framing.{after_packets}
use local_messenger.Session.Stream.{receive_in, receive_in-serialize}
use local_messenger.Session.Close.{closings}
use local_messenger.Session.Run.{
  Run, here, next, starts, reads_header, Run-send_relocks, Run-payload_bounds, Run-closings,
}

abbrev text : Bytes → Packet
text b = record {
  header = record { magic = protocol_magic; type = msg_text; length = length b };
  payload = b;
}

abbrev two_packets : List Packet
two_packets = text (codes "hi") ∷ text [] ∷ []

abbrev started : Session
started = record {
  socket_open = true;
  reading = header_read;
  current_header = default_header;
  payload_buf = [];
  mutex_held = false;
  write_queue = [];
  writing = false;
  in_flight = none;
  closed = false;
}

abbrev hi_header : Bytes
hi_header = 0x4C ∷ 0x4D ∷ 0x53 ∷ 0x47 ∷ 0x01 ∷ 0 ∷ 0 ∷ 0 ∷ 2 ∷ []

two_packets_read :
    (receive_all (concat (map serialize two_packets) ++ (0x4C ∷ [])) started).events
    ≡ packet (text (codes "hi")) ∷ packet (text []) ∷ []
unfolding receive_all on_read on_header_read on_payload_read serialize deserialize_header byte_of
    type_of
two_packets_read = refl

bad_magic_closes :
    (receive_all (codes "GET / HTTP/1.1") started).events
    ≡ closing (codes "bad_header") invalid_argument ∷ []
unfolding receive_all on_read on_header_read deserialize_header type_of
bad_magic_closes = refl

two_packets-IsSendable : All IsSendable two_packets
two_packets-IsSendable = (sendable (codes "hi") (omega arith), (sendable [] (omega arith), tt))
  where
    sendable : (b : Bytes) → length b ≤ max_payload → IsSendable (text b)
    sendable b h = record { magic = refl; type = tt; sized = refl; fits = h }

-- The bytes of the two packets and one more, cut within the first header and within its payload.
abbrev stream : Bytes
stream = concat (map serialize two_packets) ++ (0x4C ∷ [])

abbrev pieces : List Bytes
pieces = take 5 stream ∷ (take 5 (drop 5 stream) ∷ (drop 10 stream ∷ []))

receive_in-serialize_example :
    receive_in pieces started
    ≡ prepend (map packet two_packets) (receive_all (0x4C ∷ []) (after_packets two_packets started))
unfolding serialize byte_of
receive_in-serialize_example =
    receive_in-serialize pieces two_packets (0x4C ∷ []) started refl two_packets-IsSendable refl

-- A session that has read the header of a two-byte packet.
abbrev half_read : Session
half_read = record started {
  reading = payload_read;
  current_header = record { magic = protocol_magic; type = msg_text; length = 2 };
  payload_buf = 0 ∷ 0 ∷ [];
}

half_read-Run : Run new_session half_read []
unfolding new_session start on_header_read deserialize_header type_of
half_read-Run =
    let begun : Run new_session started [] = next here (starts refl refl) refl in
    next begun (reads_header (received hi_header) refl refl) refl

Run-send_relocks_example :
    (send (text []) half_read ≡ relocked)
    × (half_read.write_queue ≡ [])
    × (half_read.in_flight ≡ none)
Run-send_relocks_example = Run-send_relocks half_read [] (text []) half_read-Run

Run-payload_bounds_example :
    (length half_read.payload_buf ≡ half_read.current_header.length)
    × (0 < half_read.current_header.length)
    × (half_read.current_header.length ≤ max_payload)
Run-payload_bounds_example = Run-payload_bounds half_read [] half_read-Run refl

-- A session that the first nine bytes closed.
abbrev refused : Session
refused = record started { socket_open = false; closed = true; reading = no_read }

abbrev refusal : List Event
refusal = closing (codes "bad_header") invalid_argument ∷ []

refused-Run : Run new_session refused refusal
unfolding new_session start on_header_read deserialize_header type_of
refused-Run =
    let begun : Run new_session started [] = next here (starts refl refl) refl in
    next begun (reads_header (received (codes "GET / HTT")) refl refl) refl

Run-closings_example :
    (closings refusal ≤ 1)
    × (refused.closed ≡ false → closings refusal ≡ 0)
    × (refused.closed ≡ true → refused.socket_open ≡ false)
Run-closings_example = Run-closings refused refusal refused-Run

-- A header that announces two bytes, and one of them.
receive_all-IsWaiting_example : IsWaiting (receive_all (hi_header ++ (104 ∷ [])) started)
receive_all-IsWaiting_example =
    receive_all-IsWaiting (hi_header ++ (104 ∷ [])) started
      (record { buffered = λ k. cc; announced = λ k. cc; bounded = λ k. cc })
