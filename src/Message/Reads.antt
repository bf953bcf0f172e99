-- ===== src/Message/Reads.antt =====
-- What Message::from_json reads, and when.
use eternal_blue.Prelude.{Bytes, codes, true, false, [], ◌≡◌, refl, All, subst}
use eternal_blue.Prelude.Exec.{ok}
use eternal_blue.Prelude.Exec.Pure.{bind-eq-ok}
use eternal_blue.Sodium.{Sodium}
use eternal_blue.Json.{JsonLib}
use eternal_blue.Json.Fields.{
  parse_as, require_fields, string_at, require_fields-eq-ok, parse_as-eq-ok,
}
use eternal_blue.Base64.{from_base64url}
use eternal_blue.Message.{Message}
use eternal_blue.Message.Wire.{
  Calendar, required, original_of, sent_at_of, message_fields, from_json,
}
use eternal_blue.Message.Optional.{Original, Sent, original_of-Original, sent_at_of-Sent, ok_inj}

module _ ⦃sodium : Sodium⦄ ⦃json : JsonLib⦄ ⦃calendar : Calendar⦄ where
  pub record IsRead (s : Bytes) (m : Message) : Type 0 where
    pub document : json.Json
    pub parses : json.parse s ≡ ok document
    pub has_required : All (λ field. json.contains document field ≡ true) required
    pub message_id : string_at document (codes "message_id") ≡ ok m.message_id
    pub sender_id : string_at document (codes "sender_id") ≡ ok m.sender_id
    pub sender_username : string_at document (codes "sender_username") ≡ ok m.sender_username
    pub recipient_id : string_at document (codes "recipient_id") ≡ ok m.recipient_id
    pub recipient_username :
        string_at document (codes "recipient_username") ≡ ok m.recipient_username
    pub encoded_text : Bytes
    pub has_text : string_at document (codes "ciphertext") ≡ ok encoded_text
    pub ciphertext : from_base64url encoded_text ≡ ok m.ciphertext
    pub encoded_key : Bytes
    pub has_key : string_at document (codes "encapsulated_key") ≡ ok encoded_key
    pub encapsulated_key : from_base64url encoded_key ≡ ok m.encapsulated_key
    pub flag : json.Json
    pub has_flag : json.at document (codes "is_forwarded") ≡ ok flag
    pub is_forwarded : json.get_bool flag ≡ ok m.is_forwarded
    pub original : Original document m.original_message_id
    pub sent : Sent document m.sent_at_ms
    pub plaintext : m.plaintext ≡ []
    pub signature_verified : m.signature_verified ≡ false
    pub revoked : m.revoked ≡ false

  -- What comes from the fields of a parsed text.
  message_fields-IsRead :
      (s : Bytes) (j : json.Json) (m : Message)
      → json.parse s ≡ ok j
      → All (λ field. json.contains j field ≡ true) required
      → message_fields j ≡ ok m
      → IsRead s m
  unfolding message_fields
  message_fields-IsRead s j m parsed all h =
      let (id, e1, h1) = bind-eq-ok (string_at j (codes "message_id")) _ m h in
      let (from, e2, h2) = bind-eq-ok (string_at j (codes "sender_id")) _ m h1 in
      let (from_name, e3, h3) = bind-eq-ok (string_at j (codes "sender_username")) _ m h2 in
      let (to, e4, h4) = bind-eq-ok (string_at j (codes "recipient_id")) _ m h3 in
      let (to_name, e5, h5) = bind-eq-ok (string_at j (codes "recipient_username")) _ m h4 in
      let (text, e6, h6) = bind-eq-ok (string_at j (codes "ciphertext")) _ m h5 in
      let (ciphertext, e7, h7) = bind-eq-ok (from_base64url text) _ m h6 in
      let (key, e8, h8) = bind-eq-ok (string_at j (codes "encapsulated_key")) _ m h7 in
      let (enc, e9, h9) = bind-eq-ok (from_base64url key) _ m h8 in
      let (flag, e10, h10) = bind-eq-ok (json.at j (codes "is_forwarded")) _ m h9 in
      let (is_forwarded, e11, h11) = bind-eq-ok (json.get_bool flag) _ m h10 in
      let (original, e12, h12) = bind-eq-ok (original_of j) _ m h11 in
      let (sent, e13, h13) = bind-eq-ok (sent_at_of j) _ m h12 in
      let same = ok_inj _ m h13 in
      subst (IsRead s) same (record {
        document = j;
        parses = parsed;
        has_required = all;
        message_id = e1;
        sender_id = e2;
        sender_username = e3;
        recipient_id = e4;
        recipient_username = e5;
        encoded_text = text;
        has_text = e6;
        ciphertext = e7;
        encoded_key = key;
        has_key = e8;
        encapsulated_key = e9;
        flag = flag;
        has_flag = e10;
        is_forwarded = e11;
        original = original_of-Original j original e12;
        sent = sent_at_of-Sent j sent e13;
        plaintext = refl;
        signature_verified = refl;
        revoked = refl;
      })

  -- If a message is read from a text, then the text is a JSON object with all required fields, and the
  -- message has their values, with the ciphertext and the key decoded; the original's id if that is
  -- there and not null; the time in milliseconds if that is there, or else the one of the timestamp,
  -- or else 0; and neither a plaintext nor a flag that it was verified or revoked.
  pub from_json-IsRead : (s : Bytes) (m : Message) → from_json s ≡ ok m → IsRead s m
  unfolding from_json
  from_json-IsRead s m h =
      let (j, parsed, h1) = bind-eq-ok (parse_as (codes "Message") s) _ m h in
      let (_, all, h2) = bind-eq-ok (require_fields (codes "Message") required j) _ m h1 in
      message_fields-IsRead s j m (parse_as-eq-ok (codes "Message") s j parsed)
        (require_fields-eq-ok (codes "Message") required j all) h2
