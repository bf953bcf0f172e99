-- ===== src/Message/Wire.antt =====
-- Message::to_send_json and Message::from_json.
use eternal_blue.Prelude.{
  ◌*◌, ◌+◌, Bytes, codes, c_text, false, Option, none, some, List, [], ◌∷◌, ◌++◌, if◌then◌else◌,
}
use eternal_blue.Prelude.Int.{ℤ, pos, negsuc}
use eternal_blue.Prelude.Exec.{Result, ok, err, runtime_error}
use eternal_blue.Prelude.Exec.Pure.{◌>>=◌}
use eternal_blue.Sodium.{Sodium}
use eternal_blue.Json.{JsonLib}
use eternal_blue.Json.Fields.{parse_as, require_fields, string_at}
use eternal_blue.Base64.{to_base64url, from_base64url}
use eternal_blue.Message.{Message}

-- The C library's calendar: strptime and timegm of "%Y-%m-%dT%H:%M:%SZ" into seconds, and gmtime_r
-- and strftime of seconds into that form.
pub record Calendar : Type 0 where
  pub seconds : Bytes → Option ℤ
  pub utc_text : ℤ → Bytes

abbrev pub milliseconds : ℤ → ℤ
milliseconds (pos n) = pos (n * 1000)
milliseconds (negsuc n) = negsuc (n * 1000 + 999)

abbrev pub required : List Bytes
required =
    codes "message_id"
    ∷ codes "sender_id"
    ∷ codes "sender_username"
    ∷ codes "recipient_id"
    ∷ codes "recipient_username"
    ∷ codes "ciphertext"
    ∷ codes "encapsulated_key"
    ∷ codes "is_forwarded"
    ∷ []

module _ ⦃calendar : Calendar⦄ where
  unfoldable pub iso8601_to_ms : Bytes → Result ℤ
  unfolding c_text
  iso8601_to_ms s = elim (calendar.seconds (c_text s)) [
    | none ↦ err (runtime_error (codes "Message: malformed timestamp '" ++ (s ++ codes "'")))
    | some t ↦ ok (milliseconds t)
  ]

module _ ⦃sodium : Sodium⦄ ⦃json : JsonLib⦄ where
  unfoldable pub to_send_json : Message → Result Bytes
  unfolding to_base64url
  to_send_json m = json.dump (
      json.object (
        (codes "recipient_username", json.text m.recipient_username)
        ∷ (codes "ciphertext", json.text (to_base64url m.ciphertext))
        ∷ (codes "encapsulated_key", json.text (to_base64url m.encapsulated_key))
        ∷ (codes "sent_at_ms", json.number m.sent_at_ms)
        ∷ []))

  -- j.contains(key) && !j.at(key).is_null(): the value.
  unfoldable pub present : json.Json → Bytes → Result (Option json.Json)
  present j key =
      if json.contains j key
      then (do v ← json.at j key; ok (if json.is_null v then none else some v))
      else ok none

  unfoldable pub original_of : json.Json → Result Bytes
  unfolding present
  original_of j = do
    v ← present j (codes "original_message_id")
    elim v [ none ↦ ok [] | some id ↦ json.get_string id ]

  module _ ⦃calendar : Calendar⦄ where
    abbrev pub parsed_iso : Option json.Json → Result ℤ
    parsed_iso none = ok (pos 0)
    parsed_iso (some v) = do s ← json.get_string v; iso8601_to_ms s

    abbrev pub sent_at : json.Json → Option json.Json → Result ℤ
    sent_at j (some v) = json.get_long v
    sent_at j none = do iso ← present j (codes "sent_at"); parsed_iso iso

    -- The milliseconds, or else the timestamp, or else 0.
    unfoldable pub sent_at_of : json.Json → Result ℤ
    unfolding present iso8601_to_ms
    sent_at_of j = do ms ← present j (codes "sent_at_ms"); sent_at j ms

    unfoldable pub message_fields : json.Json → Result Message
    unfolding string_at from_base64url original_of sent_at_of
    message_fields j = do
      message_id ← string_at j (codes "message_id")
      sender_id ← string_at j (codes "sender_id")
      sender_username ← string_at j (codes "sender_username")
      recipient_id ← string_at j (codes "recipient_id")
      recipient_username ← string_at j (codes "recipient_username")
      encoded_text ← string_at j (codes "ciphertext")
      ciphertext ← from_base64url encoded_text
      encoded_key ← string_at j (codes "encapsulated_key")
      encapsulated_key ← from_base64url encoded_key
      forwarded ← json.at j (codes "is_forwarded")
      is_forwarded ← json.get_bool forwarded
      original ← original_of j
      sent ← sent_at_of j
      ok (record {
        message_id = message_id;
        sender_id = sender_id;
        sender_username = sender_username;
        recipient_id = recipient_id;
        recipient_username = recipient_username;
        encapsulated_key = encapsulated_key;
        ciphertext = ciphertext;
        sent_at_ms = sent;
        is_forwarded = is_forwarded;
        original_message_id = original;
        plaintext = [];
        signature_verified = false;
        revoked = false;
      })

    unfoldable pub from_json : Bytes → Result Message
    unfolding parse_as require_fields message_fields
    from_json s = do
      j ← parse_as (codes "Message") s
      u ← require_fields (codes "Message") required j
      message_fields j
