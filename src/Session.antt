-- ===== src/Session.antt =====
-- src/core/Network/TcpSession.h and TcpSession.cpp: one TCP connection.
--
-- The fields of `Session` are the members, and three that stand for what the socket does: whether it
-- is open, which `async_read` is outstanding, and the buffer of the outstanding `async_write`. Each
-- completion handler is a function of the state and of the completion. The callbacks `on_packet_`
-- and `on_close_` are the events that an operation returns; the caller runs them. `std::mutex` is
-- not recursive: a thread that locks it twice gets `relocked`, which is no value of the program (the
-- standard leaves it undefined, and in practice the call never returns).
pub mod Read
pub mod Progress
pub mod Framing
pub mod Stream
pub mod Close
pub mod Write
pub mod Run
mod Examples
use local_messenger.Common.{
  ℕ, zero, suc, ◌+◌, ◌≡◌, refl, ◌==◌, Bool, true, false, List, [], ◌∷◌, ◌++◌, Option, none, some,
  Bytes, codes, length, if◌then◌else◌,
}
use local_messenger.Protocol.{PacketHeader, Packet, default_header, serialize, deserialize_header}

pub data Outcome {ℓ} (A : Type ℓ) : Type ℓ where
  done : A → Outcome A
  relocked : Outcome A

infixl 5 ◌>>=◌
abbrev pub ◌>>=◌ {ℓ κ} : {A : Type ℓ} {B : Type κ} → Outcome A → (A → Outcome B) → Outcome B
done a >>= f = f a
relocked >>= f = relocked

-- Inversion of a call that returned.
pub >>=-eq-done {ℓ κ} :
    {A : Type ℓ} {B : Type κ} (m : Outcome A) (f : A → Outcome B) {b : B}
    → (m >>= f) ≡ done b
    → (a : A) × (m ≡ done a) × (f a ≡ done b)
>>=-eq-done (done a) f h = (a, refl, h)
>>=-eq-done relocked f h = cc

-- The `async_read` that is outstanding.
pub data Reading : Type 0 where
  no_read header_read payload_read : Reading

pub record Session : Type 0 where
  pub socket_open : Bool
  pub reading : Reading
  pub current_header : PacketHeader
  pub payload_buf : Bytes
  pub mutex_held : Bool
  pub write_queue : List Bytes
  pub writing : Bool
  pub in_flight : Option Bytes
  pub closed : Bool

-- `boost::system::error_code`: the one that the code names, and those that the system reports.
pub data ErrorCode : Type 0 where
  invalid_argument : ErrorCode
  system : ℕ → ErrorCode

-- Calls of `on_packet_` and of `on_close_`; the latter's text is the context and `ec.message()`.
pub data Event : Type 0 where
  packet : Packet → Event
  closing : Bytes → ErrorCode → Event

-- How an asynchronous read ends: with an error code, or with the buffer filled by these bytes.
pub data Completion : Type 0 where
  failed : ErrorCode → Completion
  received : Bytes → Completion

-- A session on a connected socket.
unfoldable pub new_session : Session
new_session = record {
  socket_open = true;
  reading = no_read;
  current_header = default_header;
  payload_buf = [];
  mutex_held = false;
  write_queue = [];
  writing = false;
  in_flight = none;
  closed = false;
}

unfoldable pub do_read_header : Session → Session
do_read_header s = record s { reading = header_read }

unfoldable pub do_read_payload : Session → Session
do_read_payload s = record s { reading = payload_read }

unfoldable pub start : Session → Session
unfolding do_read_header
start s = do_read_header s

unfoldable pub handle_error : Bytes → ErrorCode → Session → Session × List Event
handle_error context ec s =
    if s.closed
    then (s, [])
    else (record s { closed = true; socket_open = false }, closing context ec ∷ [])

-- `std::vector::resize`: cut, or filled up with zeros.
abbrev pub resize : ℕ → Bytes → Bytes
resize zero xs = []
resize (suc n) [] = 0 ∷ resize n []
resize (suc n) (x ∷ xs) = x ∷ resize n xs

-- A header that was accepted: an empty payload is delivered at once.
unfoldable pub header_done : PacketHeader → Session → Session × List Event
unfolding do_read_header do_read_payload
header_done hdr s =
    if hdr.length == 0
    then (
      do_read_header (record s { current_header = hdr }),
      packet (record { header = hdr; payload = [] }) ∷ [],
    )
    else (
      do_read_payload
          (record s { current_header = hdr; payload_buf = resize hdr.length s.payload_buf }),
      [],
    )

unfoldable pub parsed_header : Option PacketHeader → Session → Session × List Event
unfolding handle_error header_done
parsed_header none s = handle_error (codes "bad_header") invalid_argument s
parsed_header (some hdr) s = header_done hdr s

-- The handler of the header's `async_read`. The read that completed is no longer outstanding.
unfoldable pub on_header_read : Completion → Session → Session × List Event
unfolding handle_error parsed_header
on_header_read (failed ec) s =
    handle_error (codes "read_header") ec (record s { reading = no_read })
on_header_read (received bytes) s =
    parsed_header (deserialize_header bytes) (record s { reading = no_read })

-- The handler of the payload's `async_read`, which filled `payload_buf_`; the buffer is moved out.
unfoldable pub on_payload_read : Completion → Session → Session × List Event
unfolding handle_error do_read_header
on_payload_read (failed ec) s =
    handle_error (codes "read_payload") ec (record s { reading = no_read })
on_payload_read (received bytes) s = (
  do_read_header (record s { payload_buf = [] }),
  packet (record { header = s.current_header; payload = bytes }) ∷ [],
)

-- `std::lock_guard` on `write_mutex_`.
unfoldable pub lock : Session → Outcome Session
lock s = if s.mutex_held then relocked else done (record s { mutex_held = true })

unfoldable pub unlock : Session → Session
unlock s = record s { mutex_held = false }

-- With the mutex held: the next buffer, or the end of writing. The lock goes at the block's end.
unfoldable pub next_write : List Bytes → Session → Session
unfolding unlock
next_write [] s = unlock (record s { writing = false })
next_write (buf ∷ rest) s = record (unlock (record s { write_queue = rest })) {
  in_flight = some buf;
}

unfoldable pub do_write : Session → Outcome Session
unfolding lock next_write
do_write s = do s' ← lock s; done (next_write s'.write_queue s')

-- `send` holds the lock until it returns, also while it calls do_write.
unfoldable pub start_writing : Session → Outcome Session
unfolding do_write
start_writing s = if s.writing then done s else do_write (record s { writing = true })

unfoldable pub send : Packet → Session → Outcome Session
unfolding lock unlock start_writing
send p s = do
  s' ← lock s
  s'' ← start_writing (record s' { write_queue = s'.write_queue ++ (serialize p ∷ []) })
  done (unlock s'')

-- The handler of `async_write`. The write that completed is no longer in flight.
unfoldable pub on_written : Option ErrorCode → Session → Outcome (Session × List Event)
unfolding handle_error do_write
on_written (some ec) s = done (handle_error (codes "write") ec (record s { in_flight = none }))
on_written none s = do s' ← do_write (record s { in_flight = none }); done (s', [])

unfoldable pub close : Session → Session
close s = if s.closed then s else record s { closed = true; socket_open = false }

-- What `socket_.remote_endpoint()` gives, `none` where it throws.
pub record Endpoint : Type 0 where
  pub address : Bytes
  pub port : ℕ

unfoldable pub remote_address : Option Endpoint → Bytes
remote_address none = codes "unknown"
remote_address (some e) = e.address

unfoldable pub remote_port : Option Endpoint → ℕ
remote_port none = 0
remote_port (some e) = e.port

unfoldable pub is_open : Session → Bool
is_open s = if s.socket_open then (if s.closed then false else true) else false
