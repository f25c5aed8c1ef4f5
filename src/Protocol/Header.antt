-- ===== src/Protocol/Header.antt =====
-- serialize against deserialize_header: what a receiver makes of the first nine bytes.
use local_messenger.Common.{
  ◌≤◌, ◌<◌, ◌≡◌, refl, ◌∙◌, subst, ◌↔◌, ◌∷◌, ◌++◌, none, some, Bytes, length, All, take, drop, ltb,
  if◌then◌else◌, arith,
}
use local_messenger.Protocol.Types.{
  PacketType, byte_of, type_of, IsType, type_of-byte_of, byte_of-type_of, type_of-IsType,
}
use local_messenger.Protocol.Wire.{read-write_u32_be, write-read_u32_be}
use local_messenger.Protocol.{
  PacketHeader, Packet, protocol_magic, header_size, max_payload, to_u32, write_u32_be, read_u32_be,
  serialize, checked, deserialize_header, make_packet,
}

-- What a peer can be sent: the magic number, a byte for the type, and the payload's own length.
pub record IsSendable (p : Packet) : Type 0 where
  pub magic : p.header.magic ≡ protocol_magic
  pub type : IsType p.header.type
  pub sized : p.header.length ≡ length p.payload
  pub fits : length p.payload ≤ max_payload

-- The header that a receiver reads: serialize writes the payload's size, whatever the header says.
abbrev pub sent_header : Packet → PacketHeader
sent_header p = record p.header { length = to_u32 (length p.payload) }

checked_magic :
    (h : PacketHeader)
    → h.magic ≡ protocol_magic
    → checked h ≡ (if ltb max_payload h.length then none else some h)
unfolding checked
checked_magic h m = ground arith

-- The header of a serialized packet with the right magic number, read from any bytes that begin with
-- it, is accepted exactly when the payload's size as a uint32_t is at most MAX_PAYLOAD, and then it
-- carries the packet's type and that size.
pub deserialize_header-serialize :
    (p : Packet) (rest : Bytes)
    → p.header.magic ≡ protocol_magic
    → IsType p.header.type
    → deserialize_header (serialize p ++ rest)
      ≡ (if ltb max_payload (to_u32 (length p.payload)) then none else some (sent_header p))
unfolding deserialize_header serialize
deserialize_header-serialize p rest m t =
    rw
      (
        read-write_u32_be p.header.magic (omega arith),
        read-write_u32_be (to_u32 (length p.payload)) (omega arith),
        type_of-byte_of p.header.type t,
      )
      (checked_magic (sent_header p) m)

-- A packet that IsSendable is read back with its own header.
pub deserialize_header_sendable :
    (p : Packet) (rest : Bytes)
    → IsSendable p
    → deserialize_header (serialize p ++ rest) ≡ some p.header
deserialize_header_sendable p rest v =
    deserialize_header-serialize p rest v.magic v.type ∙ ground arith

-- The nine bytes that stand for an acceptable header.
abbrev pub header_bytes : PacketHeader → Bytes
header_bytes h = write_u32_be protocol_magic ++ (byte_of h.type ∷ write_u32_be h.length)

pub record Accepts (d : Bytes) (h : PacketHeader) : Type 0 where
  pub bytes : (rest : Bytes) × (d ≡ header_bytes h ++ rest)
  pub magic : h.magic ≡ protocol_magic
  pub type : IsType h.type
  pub bounded : h.length ≤ max_payload

checked-eq-some :
    (x h : PacketHeader)
    → checked x ≡ some h
    → (x ≡ h) × (x.magic ≡ protocol_magic) × (x.length ≤ max_payload)
unfolding checked
checked-eq-some x h e = ground arith

accepts :
    (d : Bytes) (h : PacketHeader)
    → All (λ b. b < 256) d
    → deserialize_header d ≡ some h
    → Accepts d h
unfolding deserialize_header
accepts (m0 ∷ m1 ∷ m2 ∷ m3 ∷ t ∷ l0 ∷ l1 ∷ l2 ∷ l3 ∷ rest) h
      (v0, (v1, (v2, (v3, (vt, (w0, (w1, (w2, (w3, vs))))))))) e =
    let read : PacketHeader = record {
      magic = read_u32_be m0 m1 m2 m3;
      type = type_of t;
      length = read_u32_be l0 l1 l2 l3;
    } in
    let (same, m, b) = checked-eq-some read h e in
    subst (Accepts _) same (record {
      bytes = (
        rest,
        rw (
          ← m,
          write-read_u32_be m0 m1 m2 m3 v0 v1 v2 v3,
          byte_of-type_of,
          write-read_u32_be l0 l1 l2 l3 w0 w1 w2 w3,
        ),
      );
      magic = m;
      type = type_of-IsType t vt;
      bounded = b;
    })
accepts _ h v e = cc

accepted : (d : Bytes) (h : PacketHeader) → Accepts d h → deserialize_header d ≡ some h
unfolding deserialize_header write_u32_be
accepted d h v =
    rw
      (
        v.bytes.1,
        read-write_u32_be h.length (omega (arith, v.bounded)),
        type_of-byte_of h.type v.type,
      )
      (checked_magic _ refl ∙ ground arith)

-- For a buffer of bytes: deserialize_header gives `h` exactly when the buffer begins with the nine
-- bytes of `h`, the magic number in front, and `h` holds that magic number, a type that fits one
-- byte and a length of at most MAX_PAYLOAD.
pub deserialize_header_iff :
    (d : Bytes) (h : PacketHeader)
    → All (λ b. b < 256) d
    → (deserialize_header d ≡ some h) ↔ Accepts d h
deserialize_header_iff d h v = (accepts d h v, accepted d h)

pub make_packet-IsSendable :
    (t : PacketType) (payload : Bytes)
    → IsType t
    → length payload ≤ max_payload
    → IsSendable (make_packet t payload)
unfolding make_packet
make_packet-IsSendable t payload v fits = record {
  magic = refl;
  type = v;
  sized = omega arith;
  fits = fits;
}

-- What make_packet makes of a type that fits a byte and of a payload of at most MAX_PAYLOAD bytes,
-- serialized, and whatever follows: deserialize_header accepts it, as a header with the magic number,
-- with that type and with the payload's length, and behind the header's nine bytes stands that
-- payload.
pub deserialize_header-make_packet :
    (t : PacketType) (payload rest : Bytes)
    → IsType t
    → length payload ≤ max_payload
    → let stream = serialize (make_packet t payload) ++ rest in
      (deserialize_header stream
        ≡ some (record { magic = protocol_magic; type = t; length = length payload }))
      × (drop header_size stream ≡ payload ++ rest)
unfolding make_packet
deserialize_header-make_packet t payload rest v fits = (
  deserialize_header_sendable (make_packet t payload) rest (make_packet-IsSendable t payload v fits)
      ∙ ground (arith, fits),
  unfold serialize in refl,
)

-- No accepted header announces more than MAX_PAYLOAD bytes.
pub deserialize_header-length_le :
    (d : Bytes) (h : PacketHeader) → deserialize_header d ≡ some h → h.length ≤ max_payload
unfolding deserialize_header
deserialize_header-length_le (m0 ∷ m1 ∷ m2 ∷ m3 ∷ t ∷ l0 ∷ l1 ∷ l2 ∷ l3 ∷ rest) h e =
    let read : PacketHeader = record {
      magic = read_u32_be m0 m1 m2 m3;
      type = type_of t;
      length = read_u32_be l0 l1 l2 l3;
    } in
    let (same, m, b) = checked-eq-some read h e in subst (λ x. x.length ≤ max_payload) same b
deserialize_header-length_le _ h e = cc

-- Only the first nine bytes count.
pub deserialize_header-take :
    (d : Bytes) → deserialize_header (take header_size d) ≡ deserialize_header d
unfolding deserialize_header
deserialize_header-take (m0 ∷ m1 ∷ m2 ∷ m3 ∷ t ∷ l0 ∷ l1 ∷ l2 ∷ l3 ∷ rest) = refl
deserialize_header-take _ = refl
