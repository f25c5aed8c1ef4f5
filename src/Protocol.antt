-- ===== src/Protocol.antt =====
-- src/core/Network/Protocol.h and Protocol.cpp: the packet format. A byte is a number below 256, a
-- buffer a list of them; `uint32_t` values wrap at 2 ^ 32.
pub mod Types
pub mod Wire
pub mod Header
mod Examples
use Prim.Native.Nat.{bit_or}
use local_messenger.Common.{
  ℕ, zero, suc, ◌+◌, ◌*◌, ◌/◌, ◌%◌, ◌^◌, ◌<◌, List, [], ◌∷◌, ◌++◌, Option, none, some, Bytes,
  length, ltb, ◌==◌, not, if◌then◌else◌,
}
use Types.{PacketType, ping, pong, byte_of, type_of}

abbrev pub protocol_magic : ℕ
protocol_magic = 0x4C4D5347

abbrev pub header_size : ℕ
header_size = 9

abbrev pub max_payload : ℕ
max_payload = 16 * 1024 * 1024

pub record PacketHeader : Type 0 where
  pub magic : ℕ
  pub type : PacketType
  pub length : ℕ

pub record Packet : Type 0 where
  pub header : PacketHeader
  pub payload : Bytes

-- The header that the default member initialisers give.
abbrev pub default_header : PacketHeader
default_header = record { magic = protocol_magic; type = ping; length = 0 }

-- `static_cast<uint32_t>` of a size.
abbrev pub to_u32 : ℕ → ℕ
to_u32 n = n % 2 ^ 32

-- The four bytes at `dst`.
unfoldable pub write_u32_be : ℕ → Bytes
write_u32_be val =
    (val / 2 ^ 24 % 256) ∷ (val / 2 ^ 16 % 256) ∷ (val / 2 ^ 8 % 256) ∷ (val % 256) ∷ []

abbrev shl32 : ℕ → ℕ → ℕ
shl32 x k = x * 2 ^ k % 2 ^ 32

-- `src[0]` to `src[3]`, given one by one.
unfoldable pub read_u32_be : ℕ → ℕ → ℕ → ℕ → ℕ
read_u32_be b0 b1 b2 b3 = bit_or (bit_or (bit_or (shl32 b0 24) (shl32 b1 16)) (shl32 b2 8)) b3

unfoldable pub serialize : Packet → Bytes
unfolding write_u32_be
serialize packet =
    write_u32_be packet.header.magic
    ++ (byte_of packet.header.type
        ∷ (write_u32_be (to_u32 (length packet.payload)) ++ packet.payload))

unfoldable pub checked : PacketHeader → Option PacketHeader
checked hdr =
    if not (hdr.magic == protocol_magic)
    then none
    else (if ltb max_payload hdr.length then none else some hdr)

-- The size test is the match: fewer than nine bytes give nothing.
unfoldable pub deserialize_header : Bytes → Option PacketHeader
unfolding read_u32_be checked
deserialize_header (m0 ∷ m1 ∷ m2 ∷ m3 ∷ t ∷ l0 ∷ l1 ∷ l2 ∷ l3 ∷ rest) =
    checked (record {
      magic = read_u32_be m0 m1 m2 m3;
      type = type_of t;
      length = read_u32_be l0 l1 l2 l3;
    })
deserialize_header _ = none

-- Of a byte vector or of a text: a text is its bytes.
unfoldable pub make_packet : PacketType → Bytes → Packet
make_packet type payload = record {
  header = record default_header { type = type; length = to_u32 (length payload) };
  payload = payload;
}

unfoldable pub make_ping : Packet
unfolding make_packet
make_ping = make_packet ping []

unfoldable pub make_pong : Packet
unfolding make_packet
make_pong = make_packet pong []
