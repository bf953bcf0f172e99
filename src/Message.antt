-- ===== src/Message.antt =====
-- cpp_client/include/Message.hpp and cpp_client/src/Message.cpp.
pub mod Wire
pub mod Optional
pub mod Reads
mod Tests
use eternal_blue.Prelude.{Bytes, Bool}
use eternal_blue.Prelude.Int.{ℤ}

pub record Message : Type 0 where
  pub message_id : Bytes
  pub sender_id : Bytes
  pub sender_username : Bytes
  pub recipient_id : Bytes
  pub recipient_username : Bytes
  pub encapsulated_key : Bytes
  pub ciphertext : Bytes
  pub sent_at_ms : ℤ
  pub is_forwarded : Bool
  pub original_message_id : Bytes
  pub plaintext : Bytes
  pub signature_verified : Bool
  pub revoked : Bool
