-- ===== src/Protocol/Wire.antt =====
-- Big-endian numbers on the wire: write_u32_be against read_u32_be.
use local_messenger.Common.{ℕ, ◌+◌, ◌*◌, ◌/◌, ◌%◌, ◌^◌, ◌<◌, ◌≡◌, arith, ◌∷◌, []}
use Prim.Native.Nat.{bit_or}
use local_messenger.Common.Bits.{bit_or-eq-add}
use local_messenger.Protocol.{read_u32_be, write_u32_be}

-- The number that four bytes stand for.
abbrev pub be_value : ℕ → ℕ → ℕ → ℕ → ℕ
be_value b0 b1 b2 b3 = b0 * 2 ^ 24 + b1 * 2 ^ 16 + b2 * 2 ^ 8 + b3

pub read_u32_be-value :
    (b0 b1 b2 b3 : ℕ)
    → b0 < 256
    → b1 < 256
    → b2 < 256
    → b3 < 256
    → read_u32_be b0 b1 b2 b3 ≡ be_value b0 b1 b2 b3
unfolding read_u32_be
read_u32_be-value b0 b1 b2 b3 h0 h1 h2 h3 = rw (e0, e1, e2, or01, or012, or0123)
  where
    e0 : b0 * 2 ^ 24 % 2 ^ 32 ≡ b0 * 2 ^ 24
    e0 = omega arith

    e1 : b1 * 2 ^ 16 % 2 ^ 32 ≡ b1 * 2 ^ 16
    e1 = omega arith

    e2 : b2 * 2 ^ 8 % 2 ^ 32 ≡ b2 * 2 ^ 8
    e2 = omega arith

    or01 : bit_or (b0 * 2 ^ 24) (b1 * 2 ^ 16) ≡ b0 * 2 ^ 24 + b1 * 2 ^ 16
    or01 = bit_or-eq-add 24 b0 _ _ (omega arith) (omega arith)

    or012 : bit_or (b0 * 2 ^ 24 + b1 * 2 ^ 16) (b2 * 2 ^ 8) ≡ b0 * 2 ^ 24 + b1 * 2 ^ 16 + b2 * 2 ^ 8
    or012 = bit_or-eq-add 16 (b0 * 256 + b1) _ _ (omega arith) (omega arith)

    or0123 :
        bit_or (b0 * 2 ^ 24 + b1 * 2 ^ 16 + b2 * 2 ^ 8) b3
        ≡ b0 * 2 ^ 24 + b1 * 2 ^ 16 + b2 * 2 ^ 8 + b3
    or0123 = bit_or-eq-add 8 (b0 * 65536 + b1 * 256 + b2) _ _ (omega arith) (omega arith)

-- The bytes that write_u32_be gives, read back.
pub read-write_u32_be :
    (v : ℕ)
    → v < 2 ^ 32
    → read_u32_be (v / 2 ^ 24 % 256) (v / 2 ^ 16 % 256) (v / 2 ^ 8 % 256) (v % 256) ≡ v
read-write_u32_be v h =
    rw
      (read_u32_be-value (v / 2 ^ 24 % 256) (v / 2 ^ 16 % 256) (v / 2 ^ 8 % 256) (v % 256)
        (omega arith) (omega arith) (omega arith) (omega arith))
      (omega arith)

-- The other way round: the bytes of the number read.
pub write-read_u32_be :
    (b0 b1 b2 b3 : ℕ)
    → b0 < 256
    → b1 < 256
    → b2 < 256
    → b3 < 256
    → write_u32_be (read_u32_be b0 b1 b2 b3) ≡ b0 ∷ b1 ∷ b2 ∷ b3 ∷ []
unfolding write_u32_be
write-read_u32_be b0 b1 b2 b3 h0 h1 h2 h3 =
    rw (read_u32_be-value b0 b1 b2 b3 h0 h1 h2 h3) (ground arith)
