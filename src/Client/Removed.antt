-- ===== src/Client/Removed.antt =====
-- Client::sync, for messages that were removed before it.
use eternal_blue.Prelude.{Bytes, Bool, true, none, some, [], ◌≡◌, c_text, arith}
use eternal_blue.Prelude.Exec.{ok}
use eternal_blue.Sodium.{Sodium}
use eternal_blue.Json.{JsonLib}
use eternal_blue.Message.{Message}
use eternal_blue.Message.Wire.{Calendar}
use eternal_blue.LocalStore.{
  LocalStore, Row, get_message, save_message, list_messages, mark_deleted, mark_revoked, get_pin,
  save_pin,
}
use eternal_blue.LocalStore.Tables.{IsKeyed, find_row}
use eternal_blue.LocalStore.Messages.{NoFaults}
use eternal_blue.LocalStore.History.{
  History, here, next, Step, saves, gets, lists, deletes, revokes, pins, gets_pin, deleted_for_good,
  revoked_for_good,
}
use eternal_blue.HttpClient.{Internet}
use eternal_blue.Client.State.{Client}
use eternal_blue.Client.Inbox.{sync}
use eternal_blue.Client.Record.{sync-History}

Step-NoFaults : {s t : LocalStore} → Step s t → NoFaults s → NoFaults t
unfolding save_message get_message list_messages mark_deleted mark_revoked get_pin save_pin
Step-NoFaults (saves m e) n = ground arith
Step-NoFaults (gets id e) n = ground arith
Step-NoFaults (lists e) n = ground arith
Step-NoFaults (deletes id e) n = ground arith
Step-NoFaults (revokes id e) n = ground arith
Step-NoFaults (pins u e) n = ground arith
Step-NoFaults (gets_pin name e) n = ground arith

pub History-NoFaults : {s t : LocalStore} → History s t → NoFaults s → NoFaults t
History-NoFaults here n = n
History-NoFaults (next h e) n = Step-NoFaults e (History-NoFaults h n)

module _ ⦃internet : Internet⦄ ⦃sodium : Sodium⦄ ⦃json : JsonLib⦄ ⦃calendar : Calendar⦄ where
  module _ (announce : Bool) (c : Client) (id : Bytes) (a : Row) (n : NoFaults c.store)
      (keyed : IsKeyed c.store.messages)
      (found : find_row (c_text id) c.store.messages ≡ some a) where
    -- If no statement fails and ids are unique, then a message whose row was marked as deleted is not
    -- found after a `sync`, whatever the server answers.
    pub sync-keeps_deleted :
        a.deleted ≡ true → (get_message id (sync announce c).1.store).0 ≡ ok none
    sync-keeps_deleted =
        deleted_for_good id a (sync-History announce c) keyed
          (History-NoFaults (sync-History announce c) n) found

    -- One whose row was flagged as revoked and had no plaintext is still so, if it is found.
    pub sync-keeps_revoked :
        a.message.revoked ≡ true
        → a.message.plaintext ≡ []
        → (m : Message) → (get_message id (sync announce c).1.store).0 ≡ ok (some m)
        → (m.revoked ≡ true) × (m.plaintext ≡ [])
    sync-keeps_revoked =
        revoked_for_good id a (sync-History announce c) keyed
          (History-NoFaults (sync-History announce c) n) found
