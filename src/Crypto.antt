-- ===== src/Crypto.antt =====
-- src/core/Crypto/CryptoManager.h and CryptoManager.cpp: the layout of an encrypted message, keys as
-- hexadecimal text, and fingerprints. The primitives are those of libsodium, which is a parameter.
pub mod Layout
pub mod Keys
pub mod Sample
mod Examples
use local_messenger.Common.{
  ℕ, zero, suc, ◌+◌, ◌*◌, ◌≡◌, Bool, true, false, ◌==◌, not, if◌then◌else◌, [], ◌∷◌, ◌++◌, Option,
  none, some, Bytes, codes, length, take, drop, ltb,
}
use local_messenger.Common.Chain.{◌>>=◌}

-- `encrypt key nonce message` and `decrypt key nonce text` of one of the two AEAD constructions,
-- with the size of its nonces.
pub record Aead : Type 0 where
  pub nonce_size : ℕ
  pub tag_size : ℕ
  pub encrypt : Bytes → Bytes → Bytes → Bytes
  pub decrypt : Bytes → Bytes → Bytes → Option Bytes

-- What libsodium documents: a text is longer than its message by the tag, and gives the message back
-- under the same key and nonce.
pub record IsAead (aead : Aead) : Type 0 where
  pub length-encrypt :
      (key nonce message : Bytes)
      → length (aead.encrypt key nonce message) ≡ length message + aead.tag_size
  pub decrypt-encrypt :
      (key nonce message : Bytes)
      → aead.decrypt key nonce (aead.encrypt key nonce message) ≡ some message
  pub length-decrypt :
      (key nonce text message : Bytes)
      → aead.decrypt key nonce text ≡ some message
      → length text ≡ length message + aead.tag_size

-- `init_fails` says whether sodium_init gives a negative number, `aes256gcm_is_available` what
-- crypto_aead_aes256gcm_is_available gives.
pub record Sodium : Type 0 where
  pub init_fails : Bool
  pub aes256gcm_is_available : ℕ
  pub aes_gcm : Aead
  pub xchacha : Aead
  pub bin2hex : Bytes → Bytes
  pub hex2bin : ℕ → Bytes → Option Bytes
  pub sha256 : Bytes → Bytes
  -- `base secret` is the public key that crypto_box_keypair makes for a secret key.
  pub base : Bytes → Bytes
  pub scalarmult : Bytes → Bytes → Option Bytes
  pub generichash : Bytes → Bytes

unfoldable pub initialize : Sodium → Bool
initialize sodium = if sodium.init_fails then false else true

unfoldable pub has_aes_gcm_support : Sodium → Bool
has_aes_gcm_support sodium = not (sodium.aes256gcm_is_available == 0)

-- The member `use_aes_gcm_` of a new manager.
unfoldable pub new_crypto : Sodium → Bool
unfolding has_aes_gcm_support
new_crypto sodium = has_aes_gcm_support sodium

unfoldable pub key_size : ℕ
key_size = 32

pub record KeyPair : Type 0 where
  pub public_key : Bytes
  pub secret_key : Bytes

unfoldable pub generate_keypair : Sodium → Bytes → KeyPair
generate_keypair sodium secret = record { public_key = sodium.base secret; secret_key = secret }

abbrev pub zeros : ℕ → Bytes
zeros zero = []
zeros (suc n) = 0 ∷ zeros n

unfoldable pub final_key : Sodium → Option Bytes → Bytes
unfolding key_size
final_key sodium none = zeros key_size
final_key sodium (some raw_shared) = sodium.generichash raw_shared

unfoldable pub compute_shared_key : Sodium → Bytes → Bytes → Bytes
unfolding final_key
compute_shared_key sodium my_secret peer_public =
    final_key sodium (sodium.scalarmult my_secret peer_public)

-- The member `use_aes_gcm_` is the argument `use_aes_gcm`, the random nonce the argument `nonce`.
unfoldable pub seal : Aead → Bytes → Bytes → Bytes → Bytes
seal aead shared_key nonce plaintext = nonce ++ aead.encrypt shared_key nonce plaintext

unfoldable pub unseal : Aead → Bytes → Bytes → Option Bytes
unseal aead shared_key encrypted =
    if ltb (length encrypted) (aead.nonce_size + aead.tag_size)
    then none
    else aead.decrypt shared_key (take aead.nonce_size encrypted) (drop aead.nonce_size encrypted)

module _ (sodium : Sodium) where
  abbrev pub aead_of : Bool → Aead
  aead_of use_aes_gcm = if use_aes_gcm then sodium.aes_gcm else sodium.xchacha

  unfoldable pub encrypt : Bool → Bytes → Bytes → Bytes → Bytes
  unfolding seal
  encrypt use_aes_gcm shared_key nonce plaintext =
      if use_aes_gcm
      then seal sodium.aes_gcm shared_key nonce plaintext
      else seal sodium.xchacha shared_key nonce plaintext

  unfoldable pub decrypt : Bool → Bytes → Bytes → Option Bytes
  unfolding unseal
  decrypt use_aes_gcm shared_key encrypted =
      if use_aes_gcm
      then unseal sodium.aes_gcm shared_key encrypted
      else unseal sodium.xchacha shared_key encrypted

  unfoldable pub key_to_hex : Bytes → Bytes
  key_to_hex key = sodium.bin2hex key

  -- `hex2bin max_len hex` is `none` where sodium_hex2bin fails, and else what it wrote.
  unfoldable pub hex_to_key : Bytes → Option Bytes
  unfolding key_size
  hex_to_key hex = if not (length hex == key_size * 2) then none else (do
    key ← sodium.hex2bin key_size hex
    (if not (length key == key_size) then none else some key))

-- The loop of fingerprint: two digits at a time, with a colon in between.
unfoldable pub with_colons : Bytes → Bytes → Bytes
with_colons [] (a ∷ b ∷ hex) = with_colons (a ∷ b ∷ []) hex
with_colons (r ∷ result) (a ∷ b ∷ hex) =
    with_colons ((r ∷ result) ++ (codes ":" ++ (a ∷ b ∷ []))) hex
with_colons result _ = result

unfoldable pub fingerprint : Sodium → Bytes → Bytes
unfolding with_colons
fingerprint sodium public_key = with_colons [] (sodium.bin2hex (take 8 (sodium.sha256 public_key)))
