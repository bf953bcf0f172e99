-- ===== src/LocalStore/Defs.antt =====
-- The SQL statements as functions on them, and the methods of LocalStore.
use eternal_blue.Prelude.{
  Bytes, codes, ◌==◌, Bool, true, false, not, ◌&&◌, ◌||◌, Option, none, some, List, [], ◌∷◌, ◌++◌,
  map, if◌then◌else◌, is_empty, c_text, length, keep, Bytes-tested, ℕ-tested,
}
use eternal_blue.Prelude.Int.{lez}
use eternal_blue.Prelude.Sort.{sort_by}
use eternal_blue.Prelude.Exec.{Exec, Result, ok, err, local_store_error}
use eternal_blue.User.{User}
use eternal_blue.Message.{Message}
use eternal_blue.LocalStore.Statement.{Row, LocalStore, statement}

-- Text columns are bound and read as C strings, which end at a NUL.
unfoldable pub stored : Message → Message
stored m = record m {
  message_id = c_text m.message_id;
  sender_id = c_text m.sender_id;
  sender_username = c_text m.sender_username;
  recipient_id = c_text m.recipient_id;
  recipient_username = c_text m.recipient_username;
  original_message_id = c_text m.original_message_id;
  plaintext = c_text m.plaintext;
}

unfoldable pub row_to_message : Row → Message
row_to_message r = stored r.message

-- The row of the INSERT: `revoked` is not among its columns and takes its default, 0.
unfoldable pub saved_row : Message → Row
saved_row m = record { message = record (stored m) { revoked = false }; deleted = false }

unfoldable pub has_id : Bytes → List Row → Bool
has_id id [] = false
has_id id (r ∷ rows) = r.message.message_id == id || has_id id rows

-- INSERT OR IGNORE: a row whose primary key is taken is not inserted, nor is one with a NULL in a
-- NOT NULL column. The data pointer of an empty vector is null, and is bound as NULL.
unfoldable pub insert_or_ignore : Row → List Row → List Row
unfolding has_id
insert_or_ignore r rows =
    if is_empty r.message.encapsulated_key || is_empty r.message.ciphertext
    then rows
    else if has_id r.message.message_id rows
    then rows
    else rows ++ r ∷ []

unfoldable pub is_live : Row → Bool
is_live r = not r.deleted

-- SELECT … WHERE message_id = ? AND deleted = 0, at its first row.
unfoldable pub select_live : Bytes → List Row → Option Message
unfolding is_live
select_live id [] = none
select_live id (r ∷ rows) =
    if r.message.message_id == id && is_live r then some (row_to_message r) else select_live id rows

-- UPDATE messages SET … WHERE message_id = ?
unfoldable pub update_where : Bytes → (Row → Row) → List Row → List Row
update_where id f [] = []
update_where id f (r ∷ rows) =
    (if r.message.message_id == id then f r else r) ∷ update_where id f rows

-- deleted = 1
unfoldable pub delete_row : Row → Row
delete_row r = record r { deleted = true }

-- plaintext = '', revoked = 1
unfoldable pub revoke_row : Row → Row
revoke_row r = record r { message = record r.message { plaintext = []; revoked = true } }

-- ORDER BY sent_at_ms DESC
unfoldable pub newest_first : Message → Message → Bool
newest_first a b = lez b.sent_at_ms a.sent_at_ms

unfoldable pub save_message : Message → Exec LocalStore Unit
unfolding insert_or_ignore saved_row stored c_text
save_message m =
    statement (codes "save_message")
      λ s. (ok tt, record s { messages = insert_or_ignore (saved_row m) s.messages })

unfoldable pub get_message : Bytes → Exec LocalStore (Option Message)
unfolding select_live row_to_message stored c_text
get_message id = statement (codes "get_message") λ s. (ok (select_live (c_text id) s.messages), s)

unfoldable pub list_messages : Exec LocalStore (List Message)
unfolding row_to_message stored c_text is_live newest_first sort_by
list_messages =
    statement (codes "list_messages")
      λ s. (ok (sort_by newest_first (map row_to_message (keep is_live s.messages))), s)

unfoldable pub mark_deleted : Bytes → Exec LocalStore Unit
unfolding update_where delete_row c_text
mark_deleted id =
    statement (codes "mark_deleted")
      λ s. (ok tt, record s { messages = update_where (c_text id) delete_row s.messages })

unfoldable pub mark_revoked : Bytes → Exec LocalStore Unit
unfolding update_where revoke_row c_text
mark_revoked id =
    statement (codes "mark_revoked")
      λ s. (ok tt, record s { messages = update_where (c_text id) revoke_row s.messages })

-- INSERT OR REPLACE: the row with the same username goes, and the new row is inserted.
unfoldable pub insert_or_replace : User → List User → List User
insert_or_replace u pins = keep (λ p. not (p.username == u.username)) pins ++ u ∷ []

unfoldable pub select_pin : Bytes → List User → Option User
select_pin name [] = none
select_pin name (p ∷ pins) = if p.username == name then some p else select_pin name pins

unfoldable pub saved_pin : User → User
saved_pin u = record u { username = c_text u.username; user_id = c_text u.user_id }

unfoldable pub save_pin : User → Exec LocalStore Unit
unfolding insert_or_replace saved_pin c_text
save_pin user =
    statement (codes "save_pin")
      λ s. (ok tt, record s { pinned_keys = insert_or_replace (saved_pin user) s.pinned_keys })

-- A stored key that is not 32 bytes long is refused.
unfoldable pub check_pin : Option User → Result (Option User)
unfolding saved_pin
check_pin none = ok none
check_pin (some p) =
    if length p.public_key == 32
    then ok (some (saved_pin p))
    else err (local_store_error (codes "get_pin: stored public key has wrong size"))

unfoldable pub get_pin : Bytes → Exec LocalStore (Option User)
unfolding check_pin select_pin c_text
get_pin username =
    statement (codes "get_pin") λ s. (check_pin (select_pin (c_text username) s.pinned_keys), s)
