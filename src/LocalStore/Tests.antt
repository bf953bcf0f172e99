-- ===== src/LocalStore/Tests.antt =====
-- Runs of the store, and the theorems on it at concrete inputs.
use eternal_blue.Prelude.{
  Bytes, codes, true, false, none, some, [], ◌∷◌, ◌≡◌, refl, c_text, bytes_beq, replicate, ◌==◌,
  if◌then◌else◌, Bytes-tested, arith,
}
use eternal_blue.Prelude.Int.{pos}
use eternal_blue.Prelude.Exec.{ok, err, ◌>>◌, local_store_error}
use eternal_blue.Message.{Message}
use eternal_blue.User.{User}
use eternal_blue.LocalStore.Statement.{Row, LocalStore, opened, step_failed}
use eternal_blue.LocalStore.Defs.{
  saved_row, stored, has_id, save_message, get_message, list_messages, mark_deleted, mark_revoked,
  save_pin, get_pin, saved_pin,
}
use eternal_blue.LocalStore.Tables.{find_row, IsKeyed}
use eternal_blue.LocalStore.Messages.{IsStorable, get_message-save_message, tombstone}
use eternal_blue.LocalStore.History.{saves, revokes, History, here, next, Later, History-Later}
use eternal_blue.LocalStore.Pins.{get_pin-save_pin}

abbrev message : Bytes → Message
message id = record {
  message_id = id;
  sender_id = codes "a1";
  sender_username = codes "alice";
  recipient_id = codes "b2";
  recipient_username = codes "bob";
  encapsulated_key = 1 ∷ 2 ∷ 3 ∷ [];
  ciphertext = 170 ∷ 187 ∷ [];
  sent_at_ms = pos 1000;
  is_forwarded = false;
  original_message_id = [];
  plaintext = codes "hello";
  signature_verified = true;
  revoked = false;
}

abbrev m1 : Message
m1 = message (codes "msg-1")

abbrev m2 : Message
m2 = record (message (codes "msg-2")) { sent_at_ms = pos 3000 }

message-IsStorable : IsStorable m1
message-IsStorable = record {
  message_id = omega arith;
  sender_id = omega arith;
  sender_username = omega arith;
  recipient_id = omega arith;
  recipient_username = omega arith;
  original_message_id = tt;
  plaintext = omega arith;
  encapsulated_key = refl;
  ciphertext = refl;
}

-- A store with two messages.
abbrev two : LocalStore
two = record opened { messages = saved_row m1 ∷ saved_row m2 ∷ [] }

two_saved : (save_message m1 >> save_message m2) opened ≡ (ok tt, two)
unfolding save_message has_id bytes_beq
two_saved = refl

list_two : (list_messages two).0 ≡ ok (m2 ∷ m1 ∷ [])
unfolding list_messages saved_row
list_two = refl

-- A statement that fails says so and leaves the rows.
failed :
    (save_message m1 (record two { faults = some (step_failed (codes "disk full")) ∷ [] }))
    ≡ (err (local_store_error (codes "save_message: disk full")), two)
unfolding save_message
failed = refl

two-IsKeyed : IsKeyed two.messages
unfolding has_id saved_row stored c_text bytes_beq
two-IsKeyed = (refl, (refl, tt))

get_message-save_message_example :
    ((save_message m1 >> get_message (codes "msg-1")) opened).0
    ≡ ok (some (record m1 { revoked = false }))
unfolding has_id
get_message-save_message_example =
    get_message-save_message m1 opened refl message-IsStorable tt refl

-- msg-1 is deleted, saved again and revoked.
abbrev after_delete : LocalStore
after_delete = (mark_deleted (codes "msg-1") two).1

abbrev after_save : LocalStore
after_save = (save_message m1 after_delete).1

abbrev after_revoke : LocalStore
after_revoke = (mark_revoked (codes "msg-1") after_save).1

history : History after_delete after_revoke
history = next (next here (saves m1 refl)) (revokes (codes "msg-1") refl)

abbrev row_of : Bytes → LocalStore → Row
row_of id s = elim (find_row id s.messages) [ none ↦ saved_row m1 | some r ↦ r ]

abbrev deleted_row : Row
deleted_row = record (saved_row m1) { deleted = true }

History-Later_example :
    (b : Row) × (find_row (codes "msg-1") after_revoke.messages ≡ some b) × Later deleted_row b
unfolding mark_deleted saved_row stored find_row bytes_beq
History-Later_example = History-Later (codes "msg-1") deleted_row history refl

abbrev revoked_row : Row
revoked_row = record (saved_row m1) { message = tombstone m1 }

abbrev after_tombstone : LocalStore
after_tombstone = (mark_revoked (codes "msg-1") two).1

abbrev bob : User
bob = record {
  user_id = codes "b2";
  username = codes "bob";
  public_key = replicate 32 7;
  key_version = pos 1;
}

get_pin-save_pin_example : ((save_pin bob >> get_pin (codes "bob")) two).0 ≡ (
    if c_text (codes "bob") == c_text (codes "bob")
    then ok (some (saved_pin bob))
    else (get_pin (codes "bob") two).0)
get_pin-save_pin_example = get_pin-save_pin bob (codes "bob") two refl refl
