-- ===== src/CryptoContext.antt =====
-- cpp_client/src/CryptoContext.cpp: HKDF, the HPKE construction, and the key at rest.
mod Hkdf
mod Hpke
mod Defs
pub mod Expand
pub mod RoundTrip
pub mod Tests
unfoldable pub use Hkdf.{i2osp_loop, i2osp, hkdf_extract, hkdf_expand_loop, hkdf_expand}
pub use Hpke.{AeadCtx}
unfoldable pub use Hpke.{
  kem_suite_id, hpke_suite_id, labeled_extract, labeled_expand, dh, pk_of, extract_and_expand,
  auth_encap, auth_decap, key_schedule_auth,
}
pub use Defs.{KeyPair, WrappedKey, Sealed}
unfoldable pub use Defs.{
  kek_ops, kek_mem, kek_aad, draw, generate_keypair, random_salt, derive_kek, wrap_key, unwrap_key,
  seal_with, decrypt, seal_auth, open_auth,
}
