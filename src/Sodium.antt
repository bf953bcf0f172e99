-- ===== src/Sodium.antt =====
-- libsodium, which the client calls and does not contain: the functions that it uses, as an interface.
-- A function that reports failure by a non-zero return code gives an Option. The lengths are those
-- of the fixed-size output arrays; laws that only some theorems need are hypotheses there.
pub mod Toy
use eternal_blue.Prelude.{
  ℕ, ◌+◌, Bytes, c_text, Option, none, some, length, ◌≡◌, replicate, refl, ◌++◌, [],
}
use eternal_blue.Prelude.{length-replicate, ◌<◌, All, arith}

pub record Sodium : Type 0 where
  -- crypto_hash_sha256
  pub sha256 : Bytes → Bytes
  pub sha256_length : (m : Bytes) → length (sha256 m) ≡ 32
  pub sha256_bytes : (m : Bytes) → All (λ c. c < 256) (sha256 m)
  -- crypto_auth_hmacsha256 of a key and a message
  pub hmac_sha256 : Bytes → Bytes → Bytes
  pub hmac_length : (key msg : Bytes) → length (hmac_sha256 key msg) ≡ 32
  -- crypto_scalarmult (none: not 0), crypto_scalarmult_base
  pub scalarmult : Bytes → Bytes → Option Bytes
  pub scalarmult_base : Bytes → Bytes
  -- crypto_kx_keypair, as a function of the random bytes that it draws: public and secret key
  pub kx_keypair : Bytes → Bytes × Bytes
  -- crypto_pwhash, argon2id 1.3: password, salt, operations limit, memory limit
  pub pwhash : Bytes → Bytes → ℕ → ℕ → Option Bytes
  -- crypto_aead_xchacha20poly1305_ietf: key, nonce, associated data, text
  pub xchacha_encrypt : Bytes → Bytes → Bytes → Bytes → Bytes
  pub xchacha_decrypt : Bytes → Bytes → Bytes → Bytes → Option Bytes
  -- crypto_aead_chacha20poly1305_ietf: key, nonce, associated data, text
  pub chacha_encrypt : Bytes → Bytes → Bytes → Bytes → Bytes
  pub chacha_decrypt : Bytes → Bytes → Bytes → Bytes → Option Bytes
  -- sodium_bin2base64 (the whole buffer, NUL included) and sodium_base642bin, url-safe, no padding
  pub bin2base64 : Bytes → Bytes
  pub base642bin : Bytes → Option Bytes
  -- randombytes_buf: the i-th draw of the process, of n bytes
  pub random : ℕ → ℕ → Bytes
  pub random_length : (i n : ℕ) → length (random i n) ≡ n

-- Decoding undoes encoding.
pub record Base64Laws (sodium : Sodium) : Type 0 where
  pub decode : (bytes : Bytes) → sodium.base642bin (c_text (sodium.bin2base64 bytes)) ≡ some bytes

-- X25519 is commutative on honest keys, and a generated public key belongs to its secret key.
pub record DhLaws (sodium : Sodium) : Type 0 where
  pub agree :
      (a b : Bytes)
      → sodium.scalarmult a (sodium.scalarmult_base b)
        ≡ sodium.scalarmult b (sodium.scalarmult_base a)
  pub keypair :
      (r : Bytes) → (sodium.kx_keypair r).0 ≡ sodium.scalarmult_base (sodium.kx_keypair r).1

-- What was encrypted decrypts under the same key, nonce and associated data.
pub record AeadLaws (sodium : Sodium) : Type 0 where
  pub chacha :
      (key nonce aad text : Bytes)
      → sodium.chacha_decrypt key nonce aad (sodium.chacha_encrypt key nonce aad text) ≡ some text
  pub xchacha :
      (key nonce aad text : Bytes)
      → sodium.xchacha_decrypt key nonce aad (sodium.xchacha_encrypt key nonce aad text) ≡ some text

-- A text is encrypted to 16 bytes more, and a generated secret key has 32 bytes.
pub record SizeLaws (sodium : Sodium) : Type 0 where
  pub xchacha :
      (key nonce aad text : Bytes)
      → length (sodium.xchacha_encrypt key nonce aad text) ≡ length text + 16
  pub secret_key : (r : Bytes) → length r ≡ 32 → length (sodium.kx_keypair r).1 ≡ 32
