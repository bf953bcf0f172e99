-- ===== src/LocalStore.antt =====
-- cpp_client/src/LocalStore.cpp: the two SQLite tables, and one function for each SQL statement that
-- the methods run. `Defs` has the statements and the methods; the other children prove.
mod Statement
mod Defs
pub mod Tables
pub mod Messages
pub mod History
pub mod Earlier
pub mod Pins
pub mod Tests
pub use Statement.{Fault, prepare_failed, step_failed, Row, LocalStore, opened, statement}
unfoldable pub use Defs.{
  has_id, stored, saved_row, insert_or_ignore, select_live, update_where, delete_row, revoke_row,
  row_to_message, is_live, newest_first, save_message, get_message, list_messages, mark_deleted,
  mark_revoked, insert_or_replace, select_pin, check_pin, saved_pin, save_pin, get_pin,
}
