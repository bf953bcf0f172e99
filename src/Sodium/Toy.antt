-- ===== src/Sodium/Toy.antt =====
-- An instance of the interface that meets its laws, on which the tests and examples run. It is no
-- cryptography: a key pair is a byte string twice, a cipher adds one byte that depends on the key and
-- the associated data, and Base64 adds one to every byte.
use eternal_blue.Prelude.{
  ℕ, suc, ◌+◌, ◌-◌, ◌%◌, ◌<◌, Bytes, ◌==◌, ℕ-tested, Option, none, some, [], ◌∷◌, ◌++◌, ◌≡◌, refl,
  ap, if◌then◌else◌, length, replicate, map, get_or, All, arith, length-replicate, c_text,
}
use eternal_blue.Sodium.{Sodium, DhLaws, AeadLaws, Base64Laws}

abbrev pub digest : Bytes → Bytes
digest m = length m % 256 ∷ replicate 31 0

pub length-digest : (m : Bytes) → length (digest m) ≡ 32
length-digest m = refl

pub digest_bytes : (m : Bytes) → All (λ c. c < 256) (digest m)
digest_bytes m = omega arith

abbrev pub tag : Bytes → Bytes → ℕ
tag key aad = get_or key 0 0 + length aad

abbrev pub encrypt : Bytes → Bytes → Bytes → Bytes → Bytes
encrypt key nonce aad text = tag key aad ∷ text

abbrev pub decrypt : Bytes → Bytes → Bytes → Bytes → Option Bytes
decrypt key nonce aad [] = none
decrypt key nonce aad (t ∷ text) = if t == tag key aad then some text else none

pub decrypt-encrypt :
    (key nonce aad text : Bytes) → decrypt key nonce aad (encrypt key nonce aad text) ≡ some text
decrypt-encrypt key nonce aad text = ground arith

abbrev pub shared : Bytes → Bytes → Option Bytes
shared a b = some ((get_or a 0 0 + get_or b 0 0) ∷ [])

pub shared_comm : (a b : Bytes) → shared a b ≡ shared b a
shared_comm a b = ap (λ (n : ℕ). some (n ∷ [])) (omega arith)

abbrev pub to_base64 : Bytes → Bytes
to_base64 bytes = map suc bytes ++ 0 ∷ []

abbrev pub from_base64 : Bytes → Option Bytes
from_base64 text = some (map (λ c. c - 1) text)

abbrev pub decoded : Bytes → Bytes
decoded bytes = map (λ c. c - 1) (c_text (to_base64 bytes))

pub decoded_lem : (bytes : Bytes) → decoded bytes ≡ bytes
unfolding c_text
decoded_lem [] = refl
decoded_lem (b ∷ bytes) = ground (arith, decoded_lem bytes)

instance abbrev pub toy : Sodium
toy = record {
  sha256 = digest;
  sha256_length = length-digest;
  sha256_bytes = digest_bytes;
  hmac_sha256 = λ key msg. digest msg;
  hmac_length = λ key msg. length-digest msg;
  scalarmult = shared;
  scalarmult_base = λ sk. sk;
  kx_keypair = λ r. (r, r);
  pwhash = λ password salt ops mem. some (digest (password ++ salt));
  xchacha_encrypt = encrypt;
  xchacha_decrypt = decrypt;
  chacha_encrypt = encrypt;
  chacha_decrypt = decrypt;
  bin2base64 = to_base64;
  base642bin = from_base64;
  random = λ i n. replicate n i;
  random_length = λ i n. length-replicate n i;
}

pub toy-DhLaws : DhLaws toy
toy-DhLaws = record { agree = shared_comm; keypair = λ r. refl }

pub toy-AeadLaws : AeadLaws toy
toy-AeadLaws = record { chacha = decrypt-encrypt; xchacha = decrypt-encrypt }

pub toy-Base64Laws : Base64Laws toy
toy-Base64Laws = record { decode = λ bytes. ap some (decoded_lem bytes) }
