-- ===== src/Message/Tests.antt =====
-- A message that a server could send.
use eternal_blue.Prelude.{codes, false, bytes_beq, none, [], ◌∷◌, ◌≡◌, refl, replicate}
use eternal_blue.Prelude.Int.{pos}
use eternal_blue.Prelude.Exec.{ok}
use eternal_blue.Sodium.Toy.{toy}
use eternal_blue.Json.{JsonLib}
use eternal_blue.Json.Fields.{parse_as, require_fields, string_at}
use eternal_blue.Json.Doc.{Doc, null, boolean, integer, string, fields, field, no_fields, doc_lib}
use eternal_blue.Base64.{from_base64url}
use eternal_blue.Message.{Message}
use eternal_blue.Message.Wire.{
  Calendar, from_json, message_fields, original_of, sent_at_of, present,
}
use eternal_blue.Message.Reads.{IsRead, from_json-IsRead}

instance abbrev calendar : Calendar
calendar = record { seconds = λ s. none; utc_text = λ t. codes "now" }

abbrev document : Doc
document = fields (
    field (codes "message_id") (string (codes "m1")) (
      field (codes "sender_id") (string (codes "1")) (
        field (codes "sender_username") (string (codes "ann")) (
          field (codes "recipient_id") (string (codes "2")) (
            field (codes "recipient_username") (string (codes "bob")) (
              field (codes "ciphertext") (string (3 ∷ 4 ∷ [])) (
                field (codes "encapsulated_key") (string (replicate 32 8)) (
                  field (codes "is_forwarded") (boolean false) (
                    field (codes "original_message_id") null
                      (field (codes "sent_at_ms") (integer (pos 5)) no_fields))))))))))

instance abbrev documents : JsonLib
documents = doc_lib ((codes "d", document) ∷ [])

abbrev received : Message
received = record {
  message_id = codes "m1";
  sender_id = codes "1";
  sender_username = codes "ann";
  recipient_id = codes "2";
  recipient_username = codes "bob";
  encapsulated_key = replicate 32 7;
  ciphertext = 2 ∷ 3 ∷ [];
  sent_at_ms = pos 5;
  is_forwarded = false;
  original_message_id = [];
  plaintext = [];
  signature_verified = false;
  revoked = false;
}

reads : from_json (codes "d") ≡ ok received
unfolding from_json parse_as require_fields message_fields string_at from_base64url original_of
    sent_at_of present bytes_beq
reads = refl

from_json-IsRead_example : IsRead (codes "d") received
from_json-IsRead_example = from_json-IsRead (codes "d") received reads
