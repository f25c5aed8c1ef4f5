-- ===== src/Protocol/Examples.antt =====
-- Concrete packets, and the theorems at them.
use local_messenger.Common.{◌≡◌, refl, ◌↔◌, [], ◌∷◌, ◌++◌, none, some, Bytes, codes, drop, arith}
use local_messenger.Protocol.Types.{msg_text, byte_of, type_of, unknown}
use local_messenger.Protocol.{
  Packet, protocol_magic, header_size, serialize, deserialize_header, make_packet, make_ping,
}
use local_messenger.Protocol.Header.{
  Accepts, deserialize_header_iff, deserialize_header-make_packet,
}

abbrev hi : Packet
hi = record {
  header = record { magic = protocol_magic; type = msg_text; length = 2 };
  payload = codes "hi";
}

abbrev hi_header_bytes : Bytes
hi_header_bytes = 0x4C ∷ 0x4D ∷ 0x53 ∷ 0x47 ∷ 0x01 ∷ 0 ∷ 0 ∷ 0 ∷ 2 ∷ []

serialize-hi : serialize hi ≡ hi_header_bytes ++ codes "hi"
unfolding serialize byte_of
serialize-hi = refl

make_hi : make_packet msg_text (codes "hi") ≡ hi
unfolding make_packet
make_hi = refl

serialize_ping : serialize make_ping ≡ 0x4C ∷ 0x4D ∷ 0x53 ∷ 0x47 ∷ 0xF0 ∷ 0 ∷ 0 ∷ 0 ∷ 0 ∷ []
unfolding serialize make_ping byte_of
serialize_ping = refl

-- A type byte that no enumerator has is accepted all the same.
unknown_type :
    deserialize_header (0x4C ∷ 0x4D ∷ 0x53 ∷ 0x47 ∷ 0x77 ∷ 0 ∷ 0 ∷ 0 ∷ 0 ∷ [])
    ≡ some (record { magic = protocol_magic; type = unknown 0x77; length = 0 })
unfolding deserialize_header type_of
unknown_type = refl

wrong_magic : deserialize_header (0x4C ∷ 0x4D ∷ 0x53 ∷ 0x48 ∷ 0x01 ∷ 0 ∷ 0 ∷ 0 ∷ 0 ∷ []) ≡ none
unfolding deserialize_header type_of
wrong_magic = refl

too_long : deserialize_header (0x4C ∷ 0x4D ∷ 0x53 ∷ 0x47 ∷ 0x01 ∷ 1 ∷ 0 ∷ 0 ∷ 1 ∷ []) ≡ none
unfolding deserialize_header type_of
too_long = refl

deserialize_header_iff_example :
    (deserialize_header hi_header_bytes ≡ some hi.header) ↔ Accepts hi_header_bytes hi.header
deserialize_header_iff_example = deserialize_header_iff hi_header_bytes hi.header (omega arith)

deserialize_header-make_packet_example :
    let bytes : Bytes = serialize (make_packet msg_text (codes "hi")) ++ (0x4C ∷ []) in
    (deserialize_header bytes ≡ some hi.header)
    × (drop header_size bytes ≡ codes "hi" ++ (0x4C ∷ []))
deserialize_header-make_packet_example =
    deserialize_header-make_packet msg_text (codes "hi") (0x4C ∷ []) tt (omega arith)
