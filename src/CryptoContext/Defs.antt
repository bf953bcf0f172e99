-- ===== src/CryptoContext/Defs.antt =====
-- The methods of CryptoContext. Their state is the number of random draws made so far.
use eternal_blue.Prelude.{ℕ, suc, ◌*◌, Bytes, codes, none, some}
use eternal_blue.Prelude.Exec.{Exec, Result, ok, err, crypto_error, lift, pure, ◌>>=◌}
use eternal_blue.Prelude.Exec.Pure
use eternal_blue.Sodium.{Sodium}
use eternal_blue.CryptoContext.Hpke.{auth_encap, auth_decap, AeadCtx, key_schedule_auth}

pub record KeyPair : Type 0 where
  pub public_key : Bytes
  pub secret_key : Bytes

pub record WrappedKey : Type 0 where
  pub nonce : Bytes
  pub ciphertext : Bytes

pub record Sealed : Type 0 where
  pub enc : Bytes
  pub ciphertext : Bytes

-- kKekOps, kKekMem, kKekAad
abbrev pub kek_ops : ℕ
kek_ops = 4

abbrev pub kek_mem : ℕ
kek_mem = 256 * 1024 * 1024

abbrev pub kek_aad : Bytes
kek_aad = codes "eternal-blue-kek-v1"

module _ ⦃sodium : Sodium⦄ where
  -- One draw of n random bytes.
  unfoldable pub draw : ℕ → Exec ℕ Bytes
  draw n drawn = (ok (sodium.random drawn n), suc drawn)

  unfoldable pub generate_keypair : Exec ℕ KeyPair
  unfolding draw
  generate_keypair = do
    r ← draw 32
    let kp = sodium.kx_keypair r
    pure (record { public_key = kp.0; secret_key = kp.1 })

  unfoldable pub random_salt : Exec ℕ Bytes
  unfolding draw
  random_salt = draw 16

  unfoldable pub derive_kek : Bytes → Bytes → Result Bytes
  derive_kek password salt = elim (sodium.pwhash password salt kek_ops kek_mem) [
    | none ↦ err (crypto_error (codes "derive_kek failed (argon2 out of memory?)"))
    | some kek ↦ ok kek
  ]

  unfoldable pub wrap_key : Bytes → Bytes → Exec ℕ WrappedKey
  unfolding draw
  wrap_key sk kek = do
    nonce ← draw 24
    pure (record { nonce = nonce; ciphertext = sodium.xchacha_encrypt kek nonce kek_aad sk })

  unfoldable pub unwrap_key : WrappedKey → Bytes → Result Bytes
  unwrap_key wrapped kek =
      elim (sodium.xchacha_decrypt kek wrapped.nonce kek_aad wrapped.ciphertext) [
        | none ↦ err (crypto_error (codes "unwrap failed: wrong password or corrupt keystore"))
        | some sk ↦ ok sk
      ]

  -- What seal_auth does from the encapsulation on.
  unfoldable pub seal_with : Bytes × Bytes → Bytes → Bytes → Bytes → Exec ℕ Sealed
  seal_with (shared_secret, enc) info aad plaintext =
      let ctx = key_schedule_auth shared_secret info in
      pure (record {
        enc = enc;
        ciphertext = sodium.chacha_encrypt ctx.key ctx.base_nonce aad plaintext;
      })

  unfoldable pub seal_auth : Bytes → Bytes → Bytes → Bytes → Bytes → Exec ℕ Sealed
  unfolding draw seal_with
  seal_auth recipient_pk sender_sk info aad plaintext = do
    r ← draw 32
    let ephemeral = sodium.kx_keypair r
    e ← lift (auth_encap recipient_pk sender_sk ephemeral.1 ephemeral.0)
    seal_with e info aad plaintext

  unfoldable pub decrypt : AeadCtx → Bytes → Bytes → Result Bytes
  decrypt ctx aad ciphertext = elim (sodium.chacha_decrypt ctx.key ctx.base_nonce aad ciphertext) [
    | none ↦ err (crypto_error (codes "HPKE open failed: authentication or decryption error"))
    | some pt ↦ ok pt
  ]

  unfoldable pub open_auth : Bytes → Bytes → Bytes → Bytes → Bytes → Bytes → Result Bytes
  unfolding decrypt
  open_auth enc recipient_sk sender_pk info aad ciphertext =
      Pure.◌>>=◌ (auth_decap enc recipient_sk sender_pk)
        λ shared_secret. decrypt (key_schedule_auth shared_secret info) aad ciphertext
