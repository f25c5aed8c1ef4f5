-- ===== src/Crypto/Keys.antt =====
-- Keys as hexadecimal text, and fingerprints.
use local_messenger.Common.{
  ℕ, zero, suc, ◌+◌, ◌*◌, ◌≡◌, ◌≢◌, ◌≤◌, ◌<◌, refl, sym, ap, ◌∙◌, if◌then◌else◌, ◌==◌, some, [],
  ◌∷◌, ◌++◌, Bytes, codes, length, take, length-append, length-take, All, arith,
}
use mathlib.Core.List.{append-nil, append_assoc}
use local_messenger.Crypto.{
  Sodium, generate_keypair, compute_shared_key, final_key, key_size, key_to_hex, hex_to_key,
  with_colons, fingerprint,
}

-- libsodium's hexadecimal text: two digits to a byte, none of them a colon, from which the bytes are
-- read again where there is room for them.
pub record IsHex (sodium : Sodium) : Type 0 where
  pub length-bin2hex : (bin : Bytes) → length (sodium.bin2hex bin) ≡ 2 * length bin
  pub bin2hex_digits : (bin : Bytes) → All (λ c. c ≢ 58) (sodium.bin2hex bin)
  pub hex2bin-bin2hex :
      (room : ℕ) (bin : Bytes)
      → All (λ b. b < 256) bin
      → length bin ≤ room
      → sodium.hex2bin room (sodium.bin2hex bin) ≡ some bin

-- A key of 32 bytes is read again from its hexadecimal text.
pub hex_to_key-key_to_hex :
    (sodium : Sodium) (key : Bytes)
    → IsHex sodium
    → All (λ b. b < 256) key
    → length key ≡ key_size
    → hex_to_key sodium (key_to_hex sodium key) ≡ some key
unfolding hex_to_key key_to_hex key_size
hex_to_key-key_to_hex sodium key is_hex bytes n =
    ground (arith, n, is_hex.length-bin2hex key, is_hex.hex2bin-bin2hex 32 key bytes)

length-with_colons :
    (k r : ℕ) (result hex : Bytes)
    → length hex ≡ 2 * k
    → length result ≡ suc r
    → length (with_colons result hex) ≡ suc r + 3 * k
unfolding with_colons
length-with_colons k r [] hex h e = absurd (omega arith)
length-with_colons k r (x ∷ result) [] h e = omega arith
length-with_colons k r (x ∷ result) (a ∷ []) h e = absurd (omega arith)
length-with_colons zero r (x ∷ result) (a ∷ b ∷ hex) h e = absurd (omega arith)
length-with_colons (suc k) r (x ∷ result) (a ∷ b ∷ hex) h e =
    let longer : length ((x ∷ result) ++ (codes ":" ++ (a ∷ b ∷ []))) ≡ suc (r + 3) =
      omega (arith, length-append (x ∷ result) (codes ":" ++ (a ∷ b ∷ []))) in
    omega (
      arith,
      length-with_colons k (r + 3) ((x ∷ result) ++ (codes ":" ++ (a ∷ b ∷ []))) hex (omega arith)
          longer,
    )

-- What is left without the colons.
abbrev pub without_colons : Bytes → Bytes
without_colons [] = []
without_colons (c ∷ cs) = if c == 58 then without_colons cs else c ∷ without_colons cs

without_colons-append :
    (xs ys : Bytes) → without_colons (xs ++ ys) ≡ without_colons xs ++ without_colons ys
without_colons-append [] ys = refl
without_colons-append (x ∷ xs) ys = ground (arith, without_colons-append xs ys)

without_colons_self : (hex : Bytes) → All (λ c. c ≢ 58) hex → without_colons hex ≡ hex
without_colons_self [] a = refl
without_colons_self (c ∷ hex) a = ground (arith, a.0, without_colons_self hex a.1)

without_colons-with_colons :
    (k r : ℕ) (result hex : Bytes)
    → length hex ≡ 2 * k
    → length result ≡ suc r
    → without_colons (with_colons result hex) ≡ without_colons result ++ without_colons hex
unfolding with_colons
without_colons-with_colons k r [] hex h e = absurd (omega arith)
without_colons-with_colons k r (x ∷ result) [] h e = sym (append-nil _)
without_colons-with_colons k r (x ∷ result) (a ∷ []) h e = absurd (omega arith)
without_colons-with_colons zero r (x ∷ result) (a ∷ b ∷ hex) h e = absurd (omega arith)
without_colons-with_colons (suc k) r (x ∷ result) (a ∷ b ∷ hex) h e =
    without_colons-with_colons k (r + 3) ((x ∷ result) ++ (codes ":" ++ (a ∷ b ∷ []))) hex
      (omega arith) (omega (arith, length-append (x ∷ result) (codes ":" ++ (a ∷ b ∷ []))))
    ∙ ap (λ l. l ++ without_colons hex)
        (without_colons-append (x ∷ result) (codes ":" ++ (a ∷ b ∷ [])))
    ∙ append_assoc (without_colons (x ∷ result)) (without_colons (a ∷ b ∷ [])) (without_colons hex)
    ∙ ap (λ l. without_colons (x ∷ result) ++ l) (sym (without_colons-append (a ∷ b ∷ []) hex))

-- Sixteen digits that are not colons.
formatted :
    (hex : Bytes)
    → length hex ≡ 16
    → All (λ c. c ≢ 58) hex
    → (length (with_colons [] hex) ≡ 23) × (without_colons (with_colons [] hex) ≡ hex)
unfolding with_colons
formatted [] e d = absurd (omega arith)
formatted (a ∷ []) e d = absurd (omega arith)
formatted (a ∷ b ∷ hex) e d = (
  length-with_colons 7 1 (a ∷ b ∷ []) hex (omega arith) refl,
  without_colons-with_colons 7 1 (a ∷ b ∷ []) hex (omega arith) refl
      ∙ sym (without_colons-append (a ∷ b ∷ []) hex)
      ∙ without_colons_self (a ∷ b ∷ hex) d,
)

-- Where the hash has its 32 bytes, a fingerprint has 23 characters, and without its colons it is the
-- hexadecimal text of the hash's first eight bytes.
pub fingerprint_lem :
    (sodium : Sodium) (public_key : Bytes)
    → IsHex sodium
    → length (sodium.sha256 public_key) ≡ 32
    → (length (fingerprint sodium public_key) ≡ 23)
      × (without_colons (fingerprint sodium public_key)
          ≡ sodium.bin2hex (take 8 (sodium.sha256 public_key)))
unfolding fingerprint
fingerprint_lem sodium public_key is_hex n =
    formatted _
      (omega (
        arith,
        n,
        is_hex.length-bin2hex (take 8 (sodium.sha256 public_key)),
        length-take 8 (sodium.sha256 public_key),
      ))
      (is_hex.bin2hex_digits _)

-- The two ends of a key agreement.
pub compute_shared_key_comm :
    (sodium : Sodium) (my_secret peer_secret : Bytes)
    → ((a b : Bytes) → sodium.scalarmult a (sodium.base b) ≡ sodium.scalarmult b (sodium.base a))
    → compute_shared_key sodium
        (generate_keypair sodium my_secret).secret_key
        (generate_keypair sodium peer_secret).public_key
      ≡ compute_shared_key sodium
          (generate_keypair sodium peer_secret).secret_key
          (generate_keypair sodium my_secret).public_key
unfolding compute_shared_key generate_keypair
compute_shared_key_comm sodium my_secret peer_secret products =
    ap (final_key sodium) (products my_secret peer_secret)
