-- ===== src/Client/Sending.antt =====
-- send_message and forward_message.
use eternal_blue.Prelude.{
  ℕ, Bytes, codes, true, false, Option, none, some, [], ◌∷◌, ◌++◌, if◌then◌else◌, is_empty,
}
use eternal_blue.Prelude.Int.{ℤ}
use eternal_blue.Prelude.Decimal.{to_string_signed}
use eternal_blue.Prelude.Exec.{
  Exec, Result, ok, err, Error, key_changed_error, pure, lift, on, ◌>>=◌, ◌>>◌,
}
use eternal_blue.Sodium.{Sodium}
use eternal_blue.Json.{JsonLib}
use eternal_blue.Base64.{to_base64url}
use eternal_blue.User.{User}
use eternal_blue.Message.{Message}
use eternal_blue.Message.Wire.{to_send_json}
use eternal_blue.CryptoContext.{Sealed, seal_auth}
use eternal_blue.LocalStore.{get_message, save_message}
use eternal_blue.HttpClient.{Internet, HttpResponse, post}
use eternal_blue.Client.State.{
  Clock, Client, http_, store_, crypto_, print, complain, ask, current_ms, attempt, has_status,
  failure_text, what,
}
use eternal_blue.Client.Trust.{lookup_user}

unfoldable pub make_aad : Bytes → Bytes → ℤ → Bytes
unfolding to_string_signed
make_aad sender_id recipient_id sent_at_ms =
    sender_id ++ (codes "|" ++ (recipient_id ++ (codes "|" ++ to_string_signed sent_at_ms)))

-- kMsgInfo
abbrev pub msg_info : Bytes
msg_info = codes "eternal-blue-msg-v1"

abbrev pub refuse : Bytes → Exec Client ℕ
refuse text = do complain text; pure 1

-- The two catch clauses around lookup_user.
unfoldable pub lookup_failed : Error → Exec Client ℕ
unfolding what
lookup_failed (key_changed_error text) = refuse (codes "ABORT: " ++ text)
lookup_failed e = refuse (codes "lookup failed: " ++ what e)

-- The Message of send_message.
unfoldable pub outgoing : Client → User → Sealed → ℤ → Bytes → Message
outgoing c recipient sealed sent_at_ms plaintext = record {
  message_id = [];
  sender_id = c.user_id;
  sender_username = c.username;
  recipient_id = recipient.user_id;
  recipient_username = recipient.username;
  encapsulated_key = sealed.enc;
  ciphertext = sealed.ciphertext;
  sent_at_ms = sent_at_ms;
  is_forwarded = false;
  original_message_id = [];
  plaintext = plaintext;
  signature_verified = true;
  revoked = false;
}

module _ ⦃internet : Internet⦄ ⦃sodium : Sodium⦄ ⦃json : JsonLib⦄ ⦃clock : Clock⦄ where
  abbrev pub keep_sent : Message → HttpResponse → Exec Client ℕ
  keep_sent m resp =
      if has_status 201 resp
      then (do
        j ← lift (json.parse resp.body)
        id ← lift (json.value j (codes "message_id") [])
        on store_ (save_message (record m { message_id = id }))
        print (codes "sent to " ++ (m.recipient_username ++ (codes " [" ++ (id ++ codes "]"))))
        pure 0)
      else refuse (failure_text (codes "send failed") resp)

  abbrev pub post_message : Message → Exec Client ℕ
  post_message m = do
    body ← lift (to_send_json m)
    resp ← on http_ (post (codes "/api/messages") body)
    keep_sent m resp

  -- Sealing for a recipient at a time.
  abbrev pub sealed_for : User → Bytes → ℤ → Exec Client Sealed
  sealed_for recipient plaintext sent_at_ms c =
      on crypto_
        (seal_auth recipient.public_key c.session_sk msg_info
          (make_aad c.user_id recipient.user_id sent_at_ms) plaintext)
        c

  abbrev pub deliver : User → Bytes → ℤ → Sealed → Exec Client ℕ
  deliver recipient plaintext sent_at_ms sealed c =
      post_message (outgoing c recipient sealed sent_at_ms plaintext) c

  abbrev pub send_to : Bytes → Result User → Exec Client ℕ
  send_to plaintext (err e) = lookup_failed e
  send_to plaintext (ok recipient) = do
    sent_at_ms ← current_ms
    sealed ← sealed_for recipient plaintext sent_at_ms
    deliver recipient plaintext sent_at_ms sealed

  unfoldable pub send_message : Bytes → Bytes → Exec Client ℕ
  unfolding lookup_user lookup_failed current_ms seal_auth make_aad outgoing to_send_json post
      save_message failure_text
  send_message recipient_username plaintext c =
      if c.logged_in
      then (do recipient ← attempt (lookup_user recipient_username); send_to plaintext recipient) c
      else refuse (codes "not logged in") c

  abbrev pub tell_forwarded : User → json.Json → Exec Client ℕ
  tell_forwarded recipient j = do
    ask (codes "forwarded to " ++ (recipient.username ++ codes " ["))
    id ← lift (json.value j (codes "message_id") (codes "?"))
    print (id ++ codes "]")
    pure 0

  abbrev pub report_forwarded : User → HttpResponse → Exec Client ℕ
  report_forwarded recipient resp =
      if has_status 201 resp
      then (do j ← lift (json.parse resp.body); tell_forwarded recipient j)
      else refuse (failure_text (codes "forward failed") resp)

  abbrev pub post_forward : Bytes → User → ℤ → Sealed → Exec Client ℕ
  post_forward message_id recipient sent_at_ms sealed = do
    body ← lift (
        json.dump (
          json.object (
            (codes "forward_to_username", json.text recipient.username)
            ∷ (codes "ciphertext", json.text (to_base64url sealed.ciphertext))
            ∷ (codes "encapsulated_key", json.text (to_base64url sealed.enc))
            ∷ (codes "sent_at_ms", json.number sent_at_ms)
            ∷ [])))
    resp ← on http_ (post (codes "/api/messages/" ++ (message_id ++ codes "/forward")) body)
    report_forwarded recipient resp

  abbrev pub forward_to : Bytes → Bytes → Result User → Exec Client ℕ
  forward_to message_id plaintext (err e) = lookup_failed e
  forward_to message_id plaintext (ok recipient) = do
    sent_at_ms ← current_ms
    sealed ← sealed_for recipient plaintext sent_at_ms
    post_forward message_id recipient sent_at_ms sealed

  abbrev pub forward_found : Bytes → Bytes → Option Message → Exec Client ℕ
  forward_found message_id recipient_username none =
      refuse (codes "no such message: " ++ message_id)
  forward_found message_id recipient_username (some m) =
      if is_empty m.plaintext then refuse (codes "message has no decrypted plaintext") else (do
        recipient ← attempt (lookup_user recipient_username)
        forward_to message_id m.plaintext recipient)

  unfoldable pub forward_message : Bytes → Bytes → Exec Client ℕ
  unfolding get_message lookup_user lookup_failed current_ms seal_auth make_aad to_base64url post
      failure_text
  forward_message message_id recipient_username c =
      if c.logged_in
      then (do
        m ← on store_ (get_message message_id)
        forward_found message_id recipient_username m)
          c
      else refuse (codes "not logged in") c
