-- ===== src/CryptoContext/Tests.antt =====
-- Runs of the key schedule's parts, and the theorems on them at concrete inputs.
use eternal_blue.Prelude.{
  ◌+◌, Bytes, codes, [], ◌∷◌, ◌++◌, ◌≡◌, refl, replicate, length, take, arith,
}
use eternal_blue.Prelude.Exec.{ok}
use eternal_blue.Sodium.Toy.{toy, toy-DhLaws, toy-AeadLaws}
use eternal_blue.CryptoContext.Hkdf.{hkdf_expand}
use eternal_blue.CryptoContext.Hpke.{
  kem_suite_id, hpke_suite_id, auth_encap, dh, pk_of, extract_and_expand, key_schedule_auth,
}
use eternal_blue.CryptoContext.Defs.{Sealed, seal_auth, open_auth}
use eternal_blue.CryptoContext.Expand.{hkdf_expand-blocks, blocks}
use eternal_blue.CryptoContext.RoundTrip.{open_auth-seal_auth, key_schedule_auth_sizes}

suite_ids :
    (kem_suite_id ≡ codes "KEM" ++ 0 ∷ 0x20 ∷ [])
    × (hpke_suite_id ≡ codes "HPKE" ++ 0 ∷ 0x20 ∷ 0 ∷ 1 ∷ 0 ∷ 3 ∷ [])
unfolding kem_suite_id hpke_suite_id
suite_ids = (refl, refl)

abbrev prk : Bytes
prk = replicate 32 1

hkdf_expand-blocks_example :
    hkdf_expand prk (codes "info") 42 ≡ take 42 (blocks prk (codes "info") 2)
hkdf_expand-blocks_example = hkdf_expand-blocks prk (codes "info") 42 2 (omega arith) (omega arith)

-- A message from the key pair 5 to the key pair 3.
abbrev secret : Bytes
secret = extract_and_expand ((0 + 3) ∷ (5 + 3) ∷ []) (replicate 32 0 ++ (3 ∷ [] ++ 5 ∷ []))

abbrev message : Bytes × Bytes
message = (secret, replicate 32 0)

abbrev sealed : Sealed
sealed = record {
  enc = replicate 32 0;
  ciphertext =
      toy.chacha_encrypt (key_schedule_auth secret (codes "info")).key
        (key_schedule_auth secret (codes "info")).base_nonce (codes "aad") (codes "hi");
}

open_auth-seal_auth_example :
    open_auth sealed.enc (3 ∷ []) (pk_of (5 ∷ [])) (codes "info") (codes "aad") sealed.ciphertext
    ≡ ok (codes "hi")
unfolding seal_auth auth_encap dh pk_of
open_auth-seal_auth_example =
    open_auth-seal_auth toy-DhLaws toy-AeadLaws (3 ∷ []) (5 ∷ []) (codes "info") (codes "aad")
      (codes "hi") 0 sealed refl

key_schedule_auth_sizes_example :
    (length (key_schedule_auth secret (codes "info")).key ≡ 32)
    × (length (key_schedule_auth secret (codes "info")).base_nonce ≡ 12)
key_schedule_auth_sizes_example = key_schedule_auth_sizes secret (codes "info")
