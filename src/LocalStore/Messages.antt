-- ===== src/LocalStore/Messages.antt =====
-- What the methods on messages do, as their callers see it.
use eternal_blue.Prelude.{
  Bytes, ◌==◌, true, false, none, some, List, [], ◌≡◌, if◌then◌else◌, map, Bytes-tested, arith,
  is_empty, c_text, c_text-IsText, IsText, ap, keep,
}
use eternal_blue.Prelude.Exec.{ok, ◌>>◌}
use eternal_blue.Prelude.Int.{lez_trans, lez_total}
use eternal_blue.Prelude.Sort.{sort_by, IsSorted, sort_by-IsSorted, sort_by-perm}
use eternal_blue.Message.{Message}
use eternal_blue.LocalStore.Statement.{Row, LocalStore}
use eternal_blue.LocalStore.Defs.{
  has_id, stored, saved_row, insert_or_ignore, update_where, delete_row, revoke_row, row_to_message,
  is_live, newest_first, save_message, get_message, list_messages, mark_deleted, mark_revoked,
}
use eternal_blue.LocalStore.Tables.{
  IsKeyed, find_row, shown, select_live-shown, find_row-update_where, delete_row-KeepsId,
  revoke_row-KeepsId, update_where-IsKeyed, find_row-append_self, insert_or_ignore-IsKeyed,
}
use mathlib.Core.Option
use mathlib.Core.List.{Perm}

-- No statement fails.
abbrev pub NoFaults : LocalStore → Type 0
NoFaults s = s.faults ≡ []

-- A message that the table holds unchanged: its texts have no NUL, and its blobs are not empty.
pub record IsStorable (m : Message) : Type 0 where
  pub message_id : IsText m.message_id
  pub sender_id : IsText m.sender_id
  pub sender_username : IsText m.sender_username
  pub recipient_id : IsText m.recipient_id
  pub recipient_username : IsText m.recipient_username
  pub original_message_id : IsText m.original_message_id
  pub plaintext : IsText m.plaintext
  pub encapsulated_key : is_empty m.encapsulated_key ≡ false
  pub ciphertext : is_empty m.ciphertext ≡ false

pub stored-IsStorable : (m : Message) → IsStorable m → stored m ≡ m
unfolding stored
stored-IsStorable m h = rw (
  c_text-IsText m.message_id h.message_id,
  c_text-IsText m.sender_id h.sender_id,
  c_text-IsText m.sender_username h.sender_username,
  c_text-IsText m.recipient_id h.recipient_id,
  c_text-IsText m.recipient_username h.recipient_username,
  c_text-IsText m.original_message_id h.original_message_id,
  c_text-IsText m.plaintext h.plaintext,
)

-- What the row of a storable message holds.
pub saved_row_lem :
    (m : Message)
    → IsStorable m
    → saved_row m ≡ record { message = record m { revoked = false }; deleted = false }
unfolding saved_row
saved_row_lem m h = rw (stored-IsStorable m h)

-- What get_message shows of that row.
shown-saved_row :
    (m : Message) → IsStorable m → shown (some (saved_row m)) ≡ some (record m { revoked = false })
unfolding shown is_live row_to_message stored
shown-saved_row m h =
    rw (saved_row_lem m h)
      (ap (λ (x : Message). some (record x { revoked = false })) (stored-IsStorable m h))

find_row-saved_row :
    (m : Message) (rows : List Row)
    → IsStorable m
    → has_id m.message_id rows ≡ false
    → find_row m.message_id (insert_or_ignore (saved_row m) rows) ≡ some (saved_row m)
unfolding insert_or_ignore
find_row-saved_row m rows h fresh =
    let row : Row = record { message = record m { revoked = false }; deleted = false } in
    rw (saved_row_lem m h)
      (ground (arith, h.encapsulated_key, h.ciphertext, find_row-append_self row rows fresh))

module _ (s : LocalStore) (n : NoFaults s) where
  pub save_message_lem :
      (m : Message)
      → save_message m s
        ≡ (ok tt, record s { messages = insert_or_ignore (saved_row m) s.messages })
  unfolding save_message
  save_message_lem m = ground arith

  pub mark_deleted_lem :
      (id : Bytes)
      → mark_deleted id s
        ≡ (ok tt, record s { messages = update_where (c_text id) delete_row s.messages })
  unfolding mark_deleted
  mark_deleted_lem id = ground arith

  pub mark_revoked_lem :
      (id : Bytes)
      → mark_revoked id s
        ≡ (ok tt, record s { messages = update_where (c_text id) revoke_row s.messages })
  unfolding mark_revoked
  mark_revoked_lem id = ground arith

-- The get_message of an id that a store's rows give.
pub get_message_lem :
    (id : Bytes) (s : LocalStore)
    → NoFaults s
    → IsKeyed s.messages
    → get_message id s ≡ (ok (shown (find_row (c_text id) s.messages)), s)
unfolding get_message
get_message_lem id s n k = ground (arith, select_live-shown (c_text id) s.messages k)

-- A storable message that is saved under a fresh id is read back as it was, but not revoked.
pub get_message-save_message :
    (m : Message) (s : LocalStore)
    → NoFaults s
    → IsStorable m
    → IsKeyed s.messages
    → has_id m.message_id s.messages ≡ false
    → ((save_message m >> get_message m.message_id) s).0 ≡ ok (some (record m { revoked = false }))
get_message-save_message m s n h k fresh =
    let after = record s { messages = insert_or_ignore (saved_row m) s.messages } in
    rw (save_message_lem s n m) (
      rw
        (get_message_lem m.message_id after n (insert_or_ignore-IsKeyed (saved_row m) s.messages k))
        (rw (c_text-IsText m.message_id h.message_id, find_row-saved_row m s.messages h fresh)
          (ap ok (shown-saved_row m h))))

-- Saving under an id that the table already has changes nothing, deleted or revoked as its row may be.
save_message_known :
    (m : Message) (s : LocalStore)
    → NoFaults s
    → has_id (c_text m.message_id) s.messages ≡ true
    → save_message m s ≡ (ok tt, s)
unfolding save_message
save_message_known m s n known = ground arith

-- After mark_deleted of an id, get_message finds nothing under it, and all else as before.
pub get_message-mark_deleted :
    (id j : Bytes) (s : LocalStore)
    → NoFaults s
    → IsKeyed s.messages
    → ((mark_deleted id >> get_message j) s).0
      ≡ (if c_text id == c_text j then ok none else (get_message j s).0)
unfolding delete_row shown is_live
get_message-mark_deleted id j s n k = rw (mark_deleted_lem s n id) (
    rw
      (get_message_lem j (record s { messages = update_where (c_text id) delete_row s.messages }) n
        (update_where-IsKeyed (c_text id) delete_row s.messages delete_row-KeepsId k))
      (ground (
        arith,
        find_row-update_where (c_text id) (c_text j) delete_row s.messages delete_row-KeepsId,
        get_message_lem j s n k,
      )))

abbrev pub tombstone : Message → Message
tombstone m = record m { plaintext = []; revoked = true }

-- After mark_revoked of an id, get_message shows its message with no plaintext and flagged as
-- revoked, and all else as before.
pub get_message-mark_revoked :
    (id j : Bytes) (s : LocalStore)
    → NoFaults s
    → IsKeyed s.messages
    → ((mark_revoked id >> get_message j) s).0
      ≡ ok (
          if c_text id == c_text j
          then Option.map tombstone (shown (find_row (c_text j) s.messages))
          else shown (find_row (c_text j) s.messages))
unfolding revoke_row shown is_live row_to_message stored c_text
get_message-mark_revoked id j s n k = rw (mark_revoked_lem s n id) (
    rw
      (get_message_lem j (record s { messages = update_where (c_text id) revoke_row s.messages }) n
        (update_where-IsKeyed (c_text id) revoke_row s.messages revoke_row-KeepsId k))
      (ground (
        arith,
        find_row-update_where (c_text id) (c_text j) revoke_row s.messages revoke_row-KeepsId,
      )))

newest_first_trans :
    (a b c : Message) → newest_first a b ≡ true → newest_first b c ≡ true → newest_first a c ≡ true
unfolding newest_first
newest_first_trans a b c p q = lez_trans c.sent_at_ms b.sent_at_ms a.sent_at_ms q p

newest_first_total : (a b : Message) → newest_first a b ≡ false → newest_first b a ≡ true
unfolding newest_first
newest_first_total a b h = lez_total b.sent_at_ms a.sent_at_ms h

-- list_messages returns the rows that are not deleted, each once, newest first.
pub list_messages_lem :
    (s : LocalStore)
    → NoFaults s
    → (ms : List Message) × (list_messages s ≡ (ok ms, s))
      × Perm ms (map row_to_message (keep is_live s.messages))
      × IsSorted newest_first ms
unfolding list_messages
list_messages_lem s n =
    let live = map row_to_message (keep is_live s.messages) in
    (
      sort_by newest_first live,
      ground arith,
      sort_by-perm newest_first live,
      sort_by-IsSorted newest_first newest_first_trans newest_first_total live,
    )
