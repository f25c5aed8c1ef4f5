-- ===== src/Crypto/Layout.antt =====
-- decrypt against encrypt, for both constructions.
use local_messenger.Common.{
  ◌+◌, ◌≡◌, Bool, true, false, ltb, some, ◌++◌, Bytes, length, take, drop, length-append,
  length-drop, take-append, drop-append, Bool-cases, inl, inr, subst, arith,
}
use local_messenger.Crypto.Keys.{compute_shared_key_comm}
use local_messenger.Crypto.{
  generate_keypair, compute_shared_key, Aead, IsAead, Sodium, seal, unseal, aead_of, encrypt,
  decrypt,
}

unseal-seal :
    (aead : Aead) (key nonce plaintext : Bytes)
    → IsAead aead
    → length nonce ≡ aead.nonce_size
    → unseal aead key (seal aead key nonce plaintext) ≡ some plaintext
unfolding unseal seal
unseal-seal aead key nonce plaintext is_aead n =
    let text : Bytes = aead.encrypt key nonce plaintext in
    let prefix : take aead.nonce_size (nonce ++ text) ≡ nonce =
      subst (λ i. take i (nonce ++ text) ≡ nonce) n (take-append nonce text) in
    let suffix : drop aead.nonce_size (nonce ++ text) ≡ text =
      subst (λ i. drop i (nonce ++ text) ≡ text) n (drop-append nonce text) in
    ground (
      arith,
      prefix,
      suffix,
      n,
      length-append nonce text,
      is_aead.length-encrypt key nonce plaintext,
      is_aead.decrypt-encrypt key nonce plaintext,
    )

unseal-length :
    (aead : Aead) (key encrypted plaintext : Bytes)
    → IsAead aead
    → unseal aead key encrypted ≡ some plaintext
    → length encrypted ≡ aead.nonce_size + length plaintext + aead.tag_size
unfolding unseal
unseal-length aead key encrypted plaintext is_aead e =
    elim (Bool-cases (ltb (length encrypted) (aead.nonce_size + aead.tag_size))) [
      | inl short ↦ ground (arith, short, e)
      | inr long ↦
          let found : aead.decrypt key (take aead.nonce_size encrypted)
                (drop aead.nonce_size encrypted)
              ≡ some plaintext =
            ground (arith, long, e) in
          ground (
            arith,
            long,
            length-drop aead.nonce_size encrypted,
            is_aead.length-decrypt key (take aead.nonce_size encrypted)
                (drop aead.nonce_size encrypted) plaintext found,
          )
    ]

-- With either construction, what encrypt makes under a nonce of the construction's size decrypts,
-- with the same key and construction, to the plaintext.
pub decrypt-encrypt :
    (sodium : Sodium) (use_aes_gcm : Bool) (key nonce plaintext : Bytes)
    → IsAead (aead_of sodium use_aes_gcm)
    → length nonce ≡ (aead_of sodium use_aes_gcm).nonce_size
    → decrypt sodium use_aes_gcm key (encrypt sodium use_aes_gcm key nonce plaintext)
      ≡ some plaintext
unfolding decrypt encrypt
decrypt-encrypt sodium true key nonce plaintext is_aead n =
    unseal-seal sodium.aes_gcm key nonce plaintext is_aead n
decrypt-encrypt sodium false key nonce plaintext is_aead n =
    unseal-seal sodium.xchacha key nonce plaintext is_aead n

-- What decrypts is longer than the plaintext by just the nonce and the tag; anything shorter than
-- both is refused.
pub length-decrypt :
    (sodium : Sodium) (use_aes_gcm : Bool) (key encrypted plaintext : Bytes)
    → IsAead (aead_of sodium use_aes_gcm)
    → decrypt sodium use_aes_gcm key encrypted ≡ some plaintext
    → length encrypted
      ≡ (aead_of sodium use_aes_gcm).nonce_size
        + length plaintext
        + (aead_of sodium use_aes_gcm).tag_size
unfolding decrypt
length-decrypt sodium true key encrypted plaintext is_aead e =
    unseal-length sodium.aes_gcm key encrypted plaintext is_aead e
length-decrypt sodium false key encrypted plaintext is_aead e =
    unseal-length sodium.xchacha key encrypted plaintext is_aead e

-- What one peer encrypts under the key that it computes from its own secret and the other's public
-- key decrypts, with the same construction and a nonce of its size, under the key that the other
-- peer computes, where the products of X25519 agree.
pub decrypt-encrypt_shared :
    (sodium : Sodium) (use_aes_gcm : Bool) (mine peer nonce plaintext : Bytes)
    → IsAead (aead_of sodium use_aes_gcm)
    → ((a b : Bytes) → sodium.scalarmult a (sodium.base b) ≡ sodium.scalarmult b (sodium.base a))
    → length nonce ≡ (aead_of sodium use_aes_gcm).nonce_size
    → decrypt sodium use_aes_gcm
        (compute_shared_key sodium
          (generate_keypair sodium peer).secret_key
          (generate_keypair sodium mine).public_key)
        (encrypt sodium use_aes_gcm
          (compute_shared_key sodium
            (generate_keypair sodium mine).secret_key
            (generate_keypair sodium peer).public_key)
          nonce
          plaintext)
      ≡ some plaintext
decrypt-encrypt_shared sodium use_aes_gcm mine peer nonce plaintext is_aead products n =
    rw (compute_shared_key_comm sodium mine peer products)
      (decrypt-encrypt sodium use_aes_gcm _ nonce plaintext is_aead n)
