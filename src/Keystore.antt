-- ===== src/Keystore.antt =====
-- cpp_client/src/Keystore.cpp: the file that holds the salt and the wrapped secret key.
mod Defs
pub mod Saving
pub mod Format
pub mod Loading
pub mod Tests
pub use Defs.{Io, all_bytes, some_bytes, fails, Disk, KeystoreData}
unfoldable pub use Defs.{
  magic, version, file_size, encode, exists, write_loop, save, read_loop, decode, load,
}
