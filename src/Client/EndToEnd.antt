-- ===== src/Client/EndToEnd.antt =====
-- Client::sync, for a message that another client sealed.
use eternal_blue.Prelude.{
  ℕ, Bytes, Bool, true, false, none, some, ◌≡◌, refl, length, IsText, c_text-IsText, ℕ-tested,
}
use eternal_blue.Prelude.Exec.{ok}
use eternal_blue.Sodium.{Sodium, DhLaws, AeadLaws}
use eternal_blue.Json.{JsonLib}
use eternal_blue.User.{User}
use eternal_blue.Message.{Message}
use eternal_blue.Message.Wire.{Calendar}
use eternal_blue.CryptoContext.{Sealed, seal_auth, open_auth, pk_of}
use eternal_blue.CryptoContext.RoundTrip.{open_auth-seal_auth}
use eternal_blue.LocalStore.{get_message, save_message, has_id}
use eternal_blue.LocalStore.Tables.{IsKeyed, find_row-has_id, shown}
use eternal_blue.LocalStore.Messages.{
  NoFaults, IsStorable, get_message_lem, save_message_lem, get_message-save_message,
}
use eternal_blue.HttpClient.{Internet}
use eternal_blue.Client.State.{Client}
use eternal_blue.Client.Sending.{make_aad, msg_info}
use eternal_blue.Client.Inbox.{Tally, open_message, keep_new}

module _ ⦃internet : Internet⦄ ⦃sodium : Sodium⦄ ⦃json : JsonLib⦄ ⦃calendar : Calendar⦄ (t : Tally)
    (m : Message) (sender : User) (c : Client) (plaintext : Bytes) where
  -- The sealed text opens to the plaintext, when it was sealed for this client by that sender.
  opens :
      (dh : DhLaws sodium) (aead : AeadLaws sodium) (sk : Bytes) (i : ℕ)
      → sender.public_key ≡ pk_of sk
      → (seal_auth
          (pk_of c.session_sk)
          sk
          msg_info
          (make_aad m.sender_id m.recipient_id m.sent_at_ms)
          plaintext
          i).0
        ≡ ok (record { enc = m.encapsulated_key; ciphertext = m.ciphertext })
      → open_auth m.encapsulated_key c.session_sk sender.public_key msg_info
          (make_aad m.sender_id m.recipient_id m.sent_at_ms)
          m.ciphertext
        ≡ ok plaintext
  opens dh aead sk i own sealed =
      let aad = make_aad m.sender_id m.recipient_id m.sent_at_ms in
      let parts : Sealed = record { enc = m.encapsulated_key; ciphertext = m.ciphertext } in
      rw own (open_auth-seal_auth dh aead c.session_sk sk msg_info aad plaintext i parts sealed)

  abbrev pub opened_form : Message
  opened_form = record m { plaintext = plaintext; signature_verified = true }

  -- A message that is new to the store is saved.
  keep_new-store :
      (announce : Bool)
      → NoFaults c.store
      → (keep_new announce t opened_form none c).1.store ≡ (save_message opened_form c.store).1
  keep_new-store true n = rw (save_message_lem c.store n opened_form) refl
  keep_new-store false n = rw (save_message_lem c.store n opened_form) refl

  -- An id without a row is not found, and nothing changes.
  not_found :
      NoFaults c.store
      → IsKeyed c.store.messages
      → IsText m.message_id
      → has_id m.message_id c.store.messages ≡ false
      → get_message m.message_id c.store ≡ (ok none, c.store)
  unfolding shown
  not_found n k text fresh =
      rw
        (
          get_message_lem m.message_id c.store n k,
          c_text-IsText m.message_id text,
          find_row-has_id m.message_id c.store.messages fresh,
        )
        refl

  -- If the Diffie-Hellman and AEAD laws hold, no statement fails, ids are unique, the message has a
  -- storable form and a new id, its key has 32 bytes, and its blobs were sealed to this session's key
  -- by the secret key whose public key is the sender's, under the message's own ids and time, then
  -- after `open_message` the store returns the message under its id with the plaintext that was sealed,
  -- marked as verified and not as revoked.
  pub open_message-sealed :
      (announce : Bool) (dh : DhLaws sodium) (aead : AeadLaws sodium) (sk : Bytes) (i : ℕ)
      → sender.public_key ≡ pk_of sk
      → (seal_auth
          (pk_of c.session_sk)
          sk
          msg_info
          (make_aad m.sender_id m.recipient_id m.sent_at_ms)
          plaintext
          i).0
        ≡ ok (record { enc = m.encapsulated_key; ciphertext = m.ciphertext })
      → length m.encapsulated_key ≡ 32
      → NoFaults c.store
      → IsKeyed c.store.messages
      → IsStorable opened_form
      → has_id m.message_id c.store.messages ≡ false
      → (get_message m.message_id (open_message announce t m sender c).1.store).0
        ≡ ok (some (record opened_form { revoked = false }))
  unfolding open_message
  open_message-sealed announce dh aead sk i own sealed size n k storable fresh =
      let found = not_found n k storable.message_id fresh in
      let back = get_message-save_message opened_form c.store n storable k fresh in
      rw
        (
          size,
          opens dh aead sk i own sealed,
          found,
          keep_new-store announce n,
          save_message_lem c.store n opened_form,
        )
        (rw (save_message_lem c.store n opened_form) at back)
