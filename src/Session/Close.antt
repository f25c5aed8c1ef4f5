-- ===== src/Session/Close.antt =====
-- How a session ends: on_close_ is called at most once, and an error frees the socket.
use local_messenger.Common.{
  ℕ, suc, ◌+◌, ◌≡◌, true, false, List, [], ◌∷◌, ◌++◌, Option, none, some, Bytes, codes,
  if◌then◌else◌, arith,
}
use local_messenger.Protocol.{PacketHeader, deserialize_header}
use local_messenger.Session.{
  Session, Event, ErrorCode, Completion, no_read, packet, closing, failed, received,
  invalid_argument, handle_error, header_done, parsed_header, on_header_read, on_payload_read,
}

-- The calls of `on_close_`.
abbrev pub closings : List Event → ℕ
closings [] = 0
closings (packet p ∷ es) = closings es
closings (closing c ec ∷ es) = suc (closings es)

pub closings-append : (xs ys : List Event) → closings (xs ++ ys) ≡ closings xs + closings ys
closings-append [] ys = omega arith
closings-append (packet p ∷ xs) ys = closings-append xs ys
closings-append (closing c ec ∷ xs) ys = omega (arith, closings-append xs ys)

abbrev pub open_count : Session → ℕ
open_count s = if s.closed then 0 else 1

-- A socket that a session has closed stays closed.
abbrev pub IsShut : Session → Type 0
IsShut s = s.closed ≡ true → s.socket_open ≡ false

-- Each call of `on_close_` is the step from open to closed.
abbrev pub Counts : Session → Session × List Event → Type 0
Counts s (s', es) = (closings es + open_count s' ≡ open_count s) × (IsShut s → IsShut s')

pub handle_error-Counts :
    (context : Bytes) (ec : ErrorCode) (s : Session) → Counts s (handle_error context ec s)
unfolding handle_error
handle_error-Counts context ec s = ground arith

header_done-Counts : (h : PacketHeader) (s : Session) → Counts s (header_done h s)
unfolding header_done
header_done-Counts h s = ground arith

parsed_header-Counts : (h : Option PacketHeader) (s : Session) → Counts s (parsed_header h s)
unfolding parsed_header
parsed_header-Counts none s = handle_error-Counts _ invalid_argument s
parsed_header-Counts (some h) s = header_done-Counts h s

pub on_header_read-Counts : (c : Completion) (s : Session) → Counts s (on_header_read c s)
unfolding on_header_read
on_header_read-Counts (failed ec) s =
    handle_error-Counts (codes "read_header") ec (record s { reading = no_read })
on_header_read-Counts (received d) s =
    parsed_header-Counts (deserialize_header d) (record s { reading = no_read })

pub on_payload_read-Counts : (c : Completion) (s : Session) → Counts s (on_payload_read c s)
unfolding on_payload_read
on_payload_read-Counts (failed ec) s =
    handle_error-Counts (codes "read_payload") ec (record s { reading = no_read })
on_payload_read-Counts (received d) s = ground arith
