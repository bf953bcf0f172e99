-- ===== src/Client/Messages.antt =====
-- read_message, delete_message and revoke_message.
use eternal_blue.Prelude.{
  ℕ, ◌+◌, ◌-◌, ◌/◌, Bytes, codes, ◌==◌, Bytes-tested, ℕ-tested, Option, none, some, [], ◌++◌,
  if◌then◌else◌,
}
use eternal_blue.Prelude.Int.{ℤ, pos, negsuc}
use eternal_blue.Prelude.Exec.{Exec, pure, on, ◌>>=◌, ◌>>◌}
use eternal_blue.Message.{Message}
use eternal_blue.Message.Wire.{Calendar}
use eternal_blue.LocalStore.{get_message, mark_deleted, mark_revoked}
use eternal_blue.HttpClient.{Internet, HttpResponse, del}
use eternal_blue.Client.State.{Client, http_, store_, print, has_status, failure_text}
use eternal_blue.Client.Sending.{refuse}

-- ms / 1000, towards 0
abbrev pub to_seconds : ℤ → ℤ
to_seconds (pos n) = pos (n / 1000)
to_seconds (negsuc n) = if (n + 1) / 1000 == 0 then pos 0 else negsuc ((n + 1) / 1000 - 1)

module _ ⦃calendar : Calendar⦄ where
  unfoldable pub ms_to_iso : ℤ → Bytes
  ms_to_iso ms = calendar.utc_text (to_seconds ms)

  abbrev pub shown_message : Bytes → Option Message → Exec Client ℕ
  shown_message message_id none = refuse (codes "no such message: " ++ message_id)
  shown_message message_id (some m) = do
    print (
        codes "from "
        ++ (m.sender_username
            ++ (codes " "
                ++ (ms_to_iso m.sent_at_ms
                    ++ (if m.signature_verified then codes " [signed]" else [])))))
    print m.plaintext
    pure 0

  unfoldable pub read_message : Bytes → Exec Client ℕ
  unfolding get_message ms_to_iso
  read_message message_id c =
      if c.logged_in
      then (do m ← on store_ (get_message message_id); shown_message message_id m) c
      else refuse (codes "not logged in") c

module _ ⦃internet : Internet⦄ where
  abbrev pub deleted : Bytes → HttpResponse → Exec Client ℕ
  deleted message_id resp =
      if has_status 200 resp
      then (do on store_ (mark_deleted message_id); print (codes "deleted " ++ message_id); pure 0)
      else refuse (failure_text (codes "delete failed") resp)

  unfoldable pub delete_message : Bytes → Exec Client ℕ
  unfolding del mark_deleted failure_text
  delete_message message_id c =
      if c.logged_in
      then (do
        resp ← on http_ (del (codes "/api/messages/" ++ message_id))
        deleted message_id resp)
          c
      else refuse (codes "not logged in") c

  abbrev pub revoked : Bytes → HttpResponse → Exec Client ℕ
  revoked message_id resp =
      if has_status 200 resp
      then (do on store_ (mark_revoked message_id); print (codes "revoked " ++ message_id); pure 0)
      else refuse (failure_text (codes "revoke failed") resp)

  abbrev pub revoke_found : Bytes → Option Message → Exec Client ℕ
  revoke_found message_id none c = refuse (codes "no such message: " ++ message_id) c
  revoke_found message_id (some m) c =
      if m.sender_username == c.username
      then (do
        resp ← on http_ (del (codes "/api/messages/" ++ (message_id ++ codes "/revoke")))
        revoked message_id resp)
          c
      else refuse (codes "can only revoke messages you sent") c

  unfoldable pub revoke_message : Bytes → Exec Client ℕ
  unfolding get_message del mark_revoked failure_text
  revoke_message message_id c =
      if c.logged_in
      then (do m ← on store_ (get_message message_id); revoke_found message_id m) c
      else refuse (codes "not logged in") c
