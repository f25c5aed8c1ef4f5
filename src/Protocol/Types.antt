-- ===== src/Protocol/Types.antt =====
-- The packet types. `enum class PacketType : uint8_t` holds any byte: a byte that no enumerator has
-- is `unknown`.
use local_messenger.Common.{ℕ, ◌<◌, ◌≡◌, refl, arith, ◌==◌, if◌then◌else◌}

pub data PacketType : Type 0 where
  msg_text msg_media msg_receipt msg_typing msg_reaction call_offer call_answer call_ice call_hangup
        call_decline file_meta file_chunk file_ack file_cancel file_pause screen_offer screen_frame
        screen_input ping pong presence key_exchange handshake :
      PacketType
  unknown : ℕ → PacketType

-- `static_cast<uint8_t>(type)`
unfoldable pub byte_of : PacketType → ℕ
byte_of msg_text = 0x01
byte_of msg_media = 0x02
byte_of msg_receipt = 0x03
byte_of msg_typing = 0x04
byte_of msg_reaction = 0x05
byte_of call_offer = 0x10
byte_of call_answer = 0x11
byte_of call_ice = 0x12
byte_of call_hangup = 0x13
byte_of call_decline = 0x14
byte_of file_meta = 0x20
byte_of file_chunk = 0x21
byte_of file_ack = 0x22
byte_of file_cancel = 0x23
byte_of file_pause = 0x24
byte_of screen_offer = 0x30
byte_of screen_frame = 0x31
byte_of screen_input = 0x32
byte_of ping = 0xF0
byte_of pong = 0xF1
byte_of presence = 0xF2
byte_of key_exchange = 0xF3
byte_of handshake = 0xF4
byte_of (unknown b) = b

-- `static_cast<PacketType>(b)`
unfoldable pub type_of : ℕ → PacketType
type_of b =
    if b == 0x01
    then msg_text
    else (if b == 0x02
        then msg_media
        else (if b == 0x03
            then msg_receipt
            else (if b == 0x04
                then msg_typing
                else (if b == 0x05
                    then msg_reaction
                    else (if b == 0x10
                        then call_offer
                        else (if b == 0x11
                            then call_answer
                            else (if b == 0x12
                                then call_ice
                                else (if b == 0x13
                                    then call_hangup
                                    else (if b == 0x14
                                        then call_decline
                                        else (if b == 0x20
                                            then file_meta
                                            else (if b == 0x21
                                                then file_chunk
                                                else (if b == 0x22
                                                    then file_ack
                                                    else (if b == 0x23
                                                        then file_cancel
                                                        else (if b == 0x24
                                                            then file_pause
                                                            else (if b == 0x30
                                                            then screen_offer
                                                            else (if b == 0x31
                                                            then screen_frame
                                                            else (if b == 0x32
                                                            then screen_input
                                                            else (if b == 0xF0
                                                            then ping
                                                            else (if b == 0xF1
                                                            then pong
                                                            else (if b == 0xF2
                                                            then presence
                                                            else (if b == 0xF3
                                                            then key_exchange
                                                            else (if b == 0xF4
                                                            then handshake
                                                            else (unknown b)))))))))))))))))))))))

-- A value that the enumeration can hold: a byte without an enumerator, under `unknown`.
abbrev pub IsType : PacketType → Type 0
IsType (unknown b) = (b < 256) × (type_of b ≡ unknown b)
IsType _ = Unit {0}

pub type_of-byte_of : (t : PacketType) → IsType t → type_of (byte_of t) ≡ t
unfolding type_of byte_of
type_of-byte_of (unknown b) v = v.1
type_of-byte_of ping v = refl
type_of-byte_of _ v = refl

pub byte_of-lt : (t : PacketType) → IsType t → byte_of t < 256
unfolding byte_of
byte_of-lt (unknown b) v = v.0
byte_of-lt ping v = omega arith
byte_of-lt _ v = omega arith

pub byte_of-type_of : (b : ℕ) → byte_of (type_of b) ≡ b
unfolding type_of byte_of
byte_of-type_of b = ground arith

pub type_of-IsType : (b : ℕ) → b < 256 → IsType (type_of b)
unfolding type_of
type_of-IsType b h = ground arith
