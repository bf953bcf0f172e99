-- ===== src/TrustStore.antt =====
-- cpp_client/src/TrustStore.cpp: trust on first use over the pinned keys of LocalStore.
mod Defs
pub mod Tofu
pub mod Fingerprint
pub mod Tests
unfoldable pub use Defs.{
  hex, hex_digit, fingerprint_loop, fingerprint, key_changed_text, decide_pin, lookup_or_pin,
}
