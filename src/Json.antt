-- ===== src/Json.antt =====
-- nlohmann::json, which the client calls and does not contain: the functions that it uses, as an
-- interface. What throws there (json::exception, with the text of `what`) gives an error here.
pub mod Doc
pub mod Fields
use eternal_blue.Prelude.{Bytes, Bool, List}
use eternal_blue.Prelude.Int.{ℤ}
use eternal_blue.Prelude.Exec.{Result}

pub record JsonLib : Type 1 where
  pub Json : Type 0
  pub parse : Bytes → Result Json
  pub dump : Json → Result Bytes
  pub contains : Json → Bytes → Bool
  pub at : Json → Bytes → Result Json
  -- value(key, default)
  pub value : Json → Bytes → Bytes → Result Bytes
  pub is_null : Json → Bool
  -- get<std::string>, get<bool>, get<int>, get<long long>
  pub get_string : Json → Result Bytes
  pub get_bool : Json → Result Bool
  pub get_int : Json → Result ℤ
  pub get_long : Json → Result ℤ
  -- what a range-based for loop runs over
  pub items : Json → List Json
  -- values, and objects from an initializer list
  pub text : Bytes → Json
  pub number : ℤ → Json
  pub object : List (Bytes × Json) → Json
