-- ===== src/Crypto/Examples.antt =====
-- The cryptography on concrete inputs.
use local_messenger.Common.{◌≡◌, refl, false, [], ◌∷◌, some, Bytes, codes, length}
use local_messenger.Crypto.{
  zeros, encrypt, decrypt, fingerprint, generate_keypair, compute_shared_key,
}
use local_messenger.Crypto.Layout.{decrypt-encrypt_shared}
use local_messenger.Crypto.Keys.{fingerprint_lem, without_colons}
use local_messenger.Crypto.Sample.{toy_aead-IsAead, toy, toy-IsHex, products_comm}

abbrev ones : Bytes
ones = 1 ∷ (2 ∷ [])

decrypt-encrypt_shared_example :
    decrypt toy false
      (compute_shared_key toy
        (generate_keypair toy ones).secret_key
        (generate_keypair toy (codes "k")).public_key)
      (encrypt toy false
        (compute_shared_key toy
          (generate_keypair toy (codes "k")).secret_key
          (generate_keypair toy ones).public_key)
        (zeros 24)
        (codes "hi"))
    ≡ some (codes "hi")
decrypt-encrypt_shared_example =
    decrypt-encrypt_shared toy false (codes "k") ones (zeros 24) (codes "hi") (toy_aead-IsAead 24)
      products_comm refl

fingerprint_lem_example :
    (length (fingerprint toy (zeros 32)) ≡ 23)
    × (without_colons (fingerprint toy (zeros 32)) ≡ toy.bin2hex (zeros 8))
fingerprint_lem_example = fingerprint_lem toy (zeros 32) toy-IsHex refl
