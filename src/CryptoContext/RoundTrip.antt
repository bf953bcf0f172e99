-- ===== src/CryptoContext/RoundTrip.antt =====
-- What was sealed opens, and what was wrapped unwraps.
use eternal_blue.Prelude.{ℕ, suc, Bytes, ◌≡◌, ap, ◌∙◌, length, arith}
use eternal_blue.Prelude.Exec.{ok, bind-eq-ok, lift}
use eternal_blue.Prelude.Exec.Pure.{◌>>=◌}
use eternal_blue.Sodium.{Sodium, DhLaws, AeadLaws}
use eternal_blue.CryptoContext.Hpke.{
  labeled_expand, dh, pk_of, auth_encap, auth_decap, key_schedule_auth, AeadCtx,
}
use eternal_blue.CryptoContext.Defs.{
  WrappedKey, Sealed, wrap_key, unwrap_key, kek_aad, seal_with, decrypt, seal_auth, open_auth,
}
use eternal_blue.CryptoContext.Expand.{length-hkdf_expand}

module _ ⦃sodium : Sodium⦄ (laws : DhLaws sodium) where
  -- Both ends of AuthEncap and AuthDecap derive one shared secret: if encapsulation to the public
  -- key of `skR` succeeds, so does decapsulation by `skR`, with the same secret.
  pub auth_decap-auth_encap :
      (skR skS skE : Bytes) {secret enc : Bytes}
      → auth_encap (pk_of skR) skS skE (pk_of skE) ≡ ok (secret, enc)
      → auth_decap enc skR (pk_of skS) ≡ ok secret
  unfolding auth_encap auth_decap dh pk_of
  auth_decap-auth_encap skR skS skE h = ground (arith, laws.agree skE skR, laws.agree skS skR, h)

module _ ⦃sodium : Sodium⦄ (laws : DhLaws sodium) (aead : AeadLaws sodium) where
  decrypts :
      (ctx : AeadCtx) (aad plaintext : Bytes)
      → decrypt ctx aad (sodium.chacha_encrypt ctx.key ctx.base_nonce aad plaintext) ≡ ok plaintext
  unfolding decrypt
  decrypts ctx aad plaintext = rw (aead.chacha ctx.key ctx.base_nonce aad plaintext, decrypt)

  -- A message sealed to the public key of `skR` by `skS` is opened by `skR` to the same plaintext,
  -- under the same info and associated data and with the public key of `skS`.
  pub open_auth-seal_auth :
      (skR skS info aad plaintext : Bytes) (i : ℕ) (sealed : Sealed)
      → (seal_auth (pk_of skR) skS info aad plaintext i).0 ≡ ok sealed
      → open_auth sealed.enc skR (pk_of skS) info aad sealed.ciphertext ≡ ok plaintext
  unfolding seal_auth open_auth pk_of
  open_auth-seal_auth skR skS info aad plaintext i sealed h =
      let keys = sodium.kx_keypair (sodium.random i 32) in
      let (e, encapped, built) =
        bind-eq-ok (lift (auth_encap (pk_of skR) skS keys.1 keys.0))
          (λ e. seal_with e info aad plaintext) (suc i) sealed h in
      let honest = laws.keypair (sodium.random i 32) in
      let ctx = key_schedule_auth e.0 info in
      let parts : sealed ≡ record {
        enc = e.1;
        ciphertext = sodium.chacha_encrypt ctx.key ctx.base_nonce aad plaintext;
      } =
        cc (built) in
      let opened = auth_decap-auth_encap laws skR skS keys.1 (rw honest at encapped) in
      rw parts (
        ap
          (λ r. r >>= λ secret.
            decrypt (key_schedule_auth secret info) aad
              (sodium.chacha_encrypt ctx.key ctx.base_nonce aad plaintext))
          opened
        ∙ decrypts ctx aad plaintext)

module _ ⦃sodium : Sodium⦄ (aead : AeadLaws sodium) where
  -- The secret key comes back from its wrapping under the same key-encryption key.
  pub unwrap_key-wrap_key :
      (sk kek : Bytes) (i : ℕ) (w : WrappedKey)
      → (wrap_key sk kek i).0 ≡ ok w
      → unwrap_key w kek ≡ ok sk
  unfolding wrap_key unwrap_key
  unwrap_key-wrap_key sk kek i w h =
      ground (arith, aead.xchacha kek (sodium.random i 24) kek_aad sk)

module _ ⦃sodium : Sodium⦄ where
  length-labeled_expand :
      (suite prk label info : Bytes) (L : ℕ) → length (labeled_expand suite prk label info L) ≡ L
  unfolding labeled_expand
  length-labeled_expand suite prk label info L = length-hkdf_expand prk _ L

  -- The AEAD gets a key of 32 bytes and a nonce of 12.
  pub key_schedule_auth_sizes :
      (secret info : Bytes)
      → (length (key_schedule_auth secret info).key ≡ 32)
        × (length (key_schedule_auth secret info).base_nonce ≡ 12)
  unfolding key_schedule_auth
  key_schedule_auth_sizes secret info =
      (length-labeled_expand _ _ _ _ 32, length-labeled_expand _ _ _ _ 12)
