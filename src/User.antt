-- ===== src/User.antt =====
-- cpp_client/include/User.hpp and cpp_client/src/User.cpp.
pub mod FromJson
pub mod Tests
use eternal_blue.Prelude.{Bytes}
use eternal_blue.Prelude.Int.{ℤ}

pub record User : Type 0 where
  pub user_id : Bytes
  pub username : Bytes
  pub public_key : Bytes
  pub key_version : ℤ
