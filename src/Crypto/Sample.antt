-- ===== src/Crypto/Sample.antt =====
-- A small library in libsodium's place: a tag of 16 zeros in place of a MAC, real hexadecimal
-- digits, and sums in place of products on the curve.
use local_messenger.Common.{
  ℕ, zero, suc, ◌+◌, ◌-◌, ◌*◌, ◌/◌, ◌%◌, ◌<◌, ◌≤◌, ◌≡◌, ◌≢◌, refl, ap, false, ltb, if◌then◌else◌,
  [], ◌∷◌, ◌++◌, Option, none, some, Bytes, length, take, All, length-append, length-take,
  take-append, arith,
}
use local_messenger.Crypto.{Aead, IsAead, Sodium, zeros}
use local_messenger.Crypto.Keys.{IsHex}

abbrev pub tag : Bytes
tag = zeros 16

unfoldable pub opened : Bytes → Option Bytes
opened text = if ltb (length text) 16 then none else some (take (length text - 16) text)

abbrev pub toy_aead : ℕ → Aead
toy_aead nonce_size = record {
  nonce_size = nonce_size;
  tag_size = 16;
  encrypt = λ key nonce message. message ++ tag;
  decrypt = λ key nonce text. opened text;
}

opened-tag : (message : Bytes) → opened (message ++ tag) ≡ some message
unfolding opened
opened-tag message =
    let size : length (message ++ tag) ≡ length message + 16 = length-append message tag in
    let rest : length message + 16 - 16 ≡ length message = omega arith in
    let long : ltb (length message + 16) 16 ≡ false = ground arith in
    rw (size, rest, long, take-append message tag)

length-opened :
    (text message : Bytes) → opened text ≡ some message → length text ≡ length message + 16
unfolding opened
length-opened text message e = ground (arith, e, length-take (length text - 16) text)

pub toy_aead-IsAead : (nonce_size : ℕ) → IsAead (toy_aead nonce_size)
toy_aead-IsAead nonce_size = record {
  length-encrypt = λ key nonce message. length-append message tag;
  decrypt-encrypt = λ key nonce message. opened-tag message;
  length-decrypt = λ key nonce text message e. length-opened text message e;
}

abbrev digit : ℕ → ℕ
digit d = if ltb d 10 then 48 + d else 87 + d

abbrev value : ℕ → ℕ
value c = if ltb c 58 then c - 48 else c - 87

unfoldable pub to_hex : Bytes → Bytes
to_hex [] = []
to_hex (b ∷ bin) = digit (b / 16) ∷ (digit (b % 16) ∷ to_hex bin)

pub of_hex : ℕ → Bytes → Option Bytes
of_hex room [] = some []
of_hex room (c ∷ []) = none
of_hex zero (c ∷ d ∷ hex) = none
of_hex (suc room) (c ∷ d ∷ hex) = elim (of_hex room hex) [
  | none ↦ none
  | some bin ↦ some ((16 * value c + value d) ∷ bin)
]

length-to_hex : (bin : Bytes) → length (to_hex bin) ≡ 2 * length bin
unfolding to_hex
length-to_hex [] = refl
length-to_hex (b ∷ bin) = omega (arith, length-to_hex bin)

digit_ne : (d : ℕ) → digit d ≢ 58
digit_ne d = ground arith

to_hex_digits : (bin : Bytes) → All (λ c. c ≢ 58) (to_hex bin)
unfolding to_hex
to_hex_digits [] = tt
to_hex_digits (b ∷ bin) = (digit_ne (b / 16), (digit_ne (b % 16), to_hex_digits bin))

value-digit : (d : ℕ) → d < 16 → value (digit d) ≡ d
value-digit d h = ground arith

byte_digits : (b : ℕ) → b < 256 → 16 * value (digit (b / 16)) + value (digit (b % 16)) ≡ b
byte_digits b h =
    let high : b / 16 < 16 = omega arith in
    let low : b % 16 < 16 = omega arith in
    omega (arith, value-digit (b / 16) high, value-digit (b % 16) low)

of_hex-to_hex :
    (room : ℕ) (bin : Bytes)
    → All (λ b. b < 256) bin
    → length bin ≤ room
    → of_hex room (to_hex bin) ≡ some bin
unfolding of_hex to_hex
of_hex-to_hex zero [] a h = refl
of_hex-to_hex (suc room) [] a h = refl
of_hex-to_hex zero (b ∷ bin) a h = absurd (omega arith)
of_hex-to_hex (suc room) (b ∷ bin) a h =
    rw (of_hex-to_hex room bin a.1 (omega arith)) (ap (λ x. some (x ∷ bin)) (byte_digits b a.0))

abbrev sum : Bytes → ℕ
sum [] = 0
sum (b ∷ bs) = b + sum bs

abbrev pub toy : Sodium
toy = record {
  init_fails = false;
  aes256gcm_is_available = 1;
  aes_gcm = toy_aead 12;
  xchacha = toy_aead 24;
  bin2hex = to_hex;
  hex2bin = of_hex;
  sha256 = λ key. zeros 32;
  base = λ secret. sum secret ∷ [];
  scalarmult = λ secret point. some ((sum secret + sum point) ∷ []);
  generichash = λ raw. raw;
}

pub toy-IsHex : IsHex toy
toy-IsHex = record {
  length-bin2hex = length-to_hex;
  bin2hex_digits = to_hex_digits;
  hex2bin-bin2hex = of_hex-to_hex;
}

pub products_comm : (a b : Bytes) → toy.scalarmult a (toy.base b) ≡ toy.scalarmult b (toy.base a)
products_comm a b =
    let same : sum a + (sum b + 0) ≡ sum b + (sum a + 0) = omega arith in
    ap (λ n. some (n ∷ [])) same
