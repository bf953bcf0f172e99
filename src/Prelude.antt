-- ===== src/Prelude.antt =====
-- The names that the other modules share: the libraries', passed on, and those of the children.
mod Tests
mod Lists
pub mod Text
pub mod Int
pub mod Sort
pub mod Exec
pub mod Decimal
pub use Tests.*
pub use Lists.*
pub use Text.{
  Bytes, Tested, bytes_beq_iff, bytes_beq_refl, bool_beq_iff, c_text-IsText, c_text-c_text,
}
unfoldable pub use Text.{
  codes, ◌==◌, ℕ-tested, Bool-tested, Bytes-tested, bytes_beq, bool_beq, is_empty, c_text, IsText,
}
pub use Prim.Native.Nat.{ℕ, zero, suc, ◌+◌, ◌-◌, ◌*◌, ◌/◌, ◌%◌, ◌^◌, ◌≤◌, ◌<◌, min}
pub use mathlib.Core.Path.{◌≡◌, refl, sym, ap, ◌∙◌, subst, fun_ext}
pub use mathlib.Core.Logic.{◌≢◌, ◌↔◌, ◌⊎◌, inl, inr}
pub use mathlib.Core.Bool.{Bool, true, false, not, ◌&&◌, ◌||◌}
pub use mathlib.Core.Option.{Option, none, some}
pub use mathlib.Core.List.{List, [], ◌∷◌, ◌++◌, map, append-nil, append_assoc}
pub use native.Mathlib.Omega.{arith}
