-- ===== src/CryptoContext/Hpke.antt =====
-- HPKE in Mode_Auth (RFC 9180): DHKEM(X25519, HKDF-SHA256), HKDF-SHA256, ChaCha20Poly1305.
use eternal_blue.Prelude.{ℕ, Bytes, codes, none, some, [], ◌∷◌, ◌++◌}
use eternal_blue.Prelude.Exec.{Result, ok, err, crypto_error}
use eternal_blue.Prelude.Exec.Pure.{◌>>=◌}
use eternal_blue.Sodium.{Sodium}
use eternal_blue.CryptoContext.Hkdf.{i2osp, hkdf_extract, hkdf_expand}

unfoldable pub kem_suite_id : Bytes
unfolding i2osp
kem_suite_id = codes "KEM" ++ i2osp 0x0020 2

unfoldable pub hpke_suite_id : Bytes
unfolding i2osp
hpke_suite_id = codes "HPKE" ++ (i2osp 0x0020 2 ++ (i2osp 0x0001 2 ++ i2osp 0x0003 2))

pub record AeadCtx : Type 0 where
  pub key : Bytes
  pub base_nonce : Bytes

module _ ⦃sodium : Sodium⦄ where
  unfoldable pub labeled_extract : Bytes → Bytes → Bytes → Bytes → Bytes
  labeled_extract suite salt label ikm =
      hkdf_extract salt (codes "HPKE-v1" ++ (suite ++ (label ++ ikm)))

  unfoldable pub labeled_expand : Bytes → Bytes → Bytes → Bytes → ℕ → Bytes
  labeled_expand suite prk label info L =
      hkdf_expand prk (i2osp L 2 ++ (codes "HPKE-v1" ++ (suite ++ (label ++ info)))) L

  unfoldable pub dh : Bytes → Bytes → Result Bytes
  dh sk pk = elim (sodium.scalarmult sk pk) [
    | none ↦ err (crypto_error (codes "X25519 DH produced a low-order point"))
    | some out ↦ ok out
  ]

  unfoldable pub pk_of : Bytes → Bytes
  pk_of sk = sodium.scalarmult_base sk

  unfoldable pub extract_and_expand : Bytes → Bytes → Bytes
  extract_and_expand dh_bytes kem_context =
      let eae_prk = labeled_extract kem_suite_id [] (codes "eae_prk") dh_bytes in
      labeled_expand kem_suite_id eae_prk (codes "shared_secret") kem_context 32

  -- The shared secret and the encapsulated key.
  unfoldable pub auth_encap : Bytes → Bytes → Bytes → Bytes → Result (Bytes × Bytes)
  auth_encap pkR skS skE pkE = do
    d1 ← dh skE pkR
    d2 ← dh skS pkR
    let pkS = pk_of skS
    ok (extract_and_expand (d1 ++ d2) (pkE ++ (pkR ++ pkS)), pkE)

  unfoldable pub auth_decap : Bytes → Bytes → Bytes → Result Bytes
  auth_decap enc skR pkS = do
    d1 ← dh skR enc
    d2 ← dh skR pkS
    let pkR = pk_of skR
    ok (extract_and_expand (d1 ++ d2) (enc ++ (pkR ++ pkS)))

  unfoldable pub key_schedule_auth : Bytes → Bytes → AeadCtx
  key_schedule_auth shared_secret info =
      let psk_id_hash = labeled_extract hpke_suite_id [] (codes "psk_id_hash") [] in
      let info_hash = labeled_extract hpke_suite_id [] (codes "info_hash") info in
      let ks_ctx : Bytes = 0x02 ∷ (psk_id_hash ++ info_hash) in
      let secret = labeled_extract hpke_suite_id shared_secret (codes "secret") [] in
      record {
        key = labeled_expand hpke_suite_id secret (codes "key") ks_ctx 32;
        base_nonce = labeled_expand hpke_suite_id secret (codes "base_nonce") ks_ctx 12;
      }
