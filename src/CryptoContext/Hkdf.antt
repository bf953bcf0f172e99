-- ===== src/CryptoContext/Hkdf.antt =====
-- I2OSP and HKDF-SHA256 (RFC 8017, RFC 5869).
use eternal_blue.Prelude.{
  ℕ, zero, suc, ◌+◌, ◌-◌, ◌*◌, ◌/◌, ◌%◌, ◌^◌, min, Bytes, [], ◌∷◌, ◌++◌, ltb, if◌then◌else◌, length,
  take, set, replicate,
}
use eternal_blue.Sodium.{Sodium}

-- for (i = 0; i < len; ++i) out[len - 1 - i] = (n >> (8 * i)) & 0xff, with the rounds left first.
unfoldable pub i2osp_loop : ℕ → ℕ → ℕ → ℕ → Bytes → Bytes
i2osp_loop zero i n len out = out
i2osp_loop (suc rounds) i n len out =
    i2osp_loop rounds (i + 1) n len (set out (len - 1 - i) (n / 2 ^ (8 * i) % 256))

unfoldable pub i2osp : ℕ → ℕ → Bytes
unfolding i2osp_loop
i2osp n len = i2osp_loop len 0 n len (replicate len 0)

module _ ⦃sodium : Sodium⦄ where
  unfoldable pub hkdf_extract : Bytes → Bytes → Bytes
  hkdf_extract salt ikm = sodium.hmac_sha256 salt ikm

  -- The loop, with its `unsigned char` counter. `t` is the last block, of `tlen` bytes: empty before
  -- the first round. Every round adds a byte at least, so that L rounds are enough.
  unfoldable pub hkdf_expand_loop : ℕ → ℕ → Bytes → Bytes → Bytes → Bytes → ℕ → Bytes
  hkdf_expand_loop zero counter t okm prk info L = okm
  hkdf_expand_loop (suc fuel) counter t okm prk info L =
      let t' = sodium.hmac_sha256 prk (t ++ (info ++ counter ∷ [])) in
      let rest =
        hkdf_expand_loop fuel ((counter + 1) % 256) t'
          (okm ++ take (min (length t') (L - length okm)) t') prk info L in
      if ltb (length okm) L then rest else okm

  unfoldable pub hkdf_expand : Bytes → Bytes → ℕ → Bytes
  unfolding hkdf_expand_loop
  hkdf_expand prk info L = hkdf_expand_loop L 1 [] [] prk info L
