-- ===== src/Main/SendingTests.antt =====
-- A session that sends one message.
use eternal_blue.Prelude.{Bytes, codes, true, false, List, [], ◌∷◌, ◌++◌, replicate}
use eternal_blue.Prelude.Int.{pos}
use eternal_blue.Sodium.Toy.{toy}
use eternal_blue.Json.{JsonLib}
use eternal_blue.Json.Doc.{string, integer, fields, field, no_fields, doc_lib}
use eternal_blue.LocalStore.{Row, opened}
use eternal_blue.HttpClient.{Internet}
use eternal_blue.TlsConnection.{Network, received}
use eternal_blue.TlsConnection.Tests.{working}
use eternal_blue.Client.Tests.{ann, test_clock, test_calendar}
use eternal_blue.Main.Terminal.{Console}

abbrev answering : Bytes → Network
answering text = record working { events = λ wire. received b'H' (codes "TTP/1.1 " ++ (text)) ∷ [] }

abbrev blank_line : Bytes
blank_line = 13 ∷ 10 ∷ 13 ∷ 10 ∷ []

-- The server answers the first request with the user, and the next with the id of the new message.
abbrev answer : List Bytes → Network
answer [] = answering (codes "200 OK" ++ (blank_line ++ codes "bob"))
answer (_ ∷ _) = answering (codes "201 Created" ++ (blank_line ++ codes "new"))

instance abbrev server : Internet
server = record { session = answer }

instance abbrev documents : JsonLib
documents = doc_lib (
    (
      codes "bob",
      fields (
          field (codes "username") (string (codes "bob")) (
            field (codes "user_id") (string (codes "2")) (
              field (codes "public_key") (string (replicate 32 10))
                (field (codes "key_version") (integer (pos 1)) no_fields)))),
    )
    ∷ (codes "new", fields (field (codes "message_id") (string (codes "m9")) no_fields))
    ∷ [])

-- Ann sends a text to bob.
abbrev sending : Console
sending = record {
  client = record ann { store = opened; input = codes "send bob hi" ∷ [] };
  terminal = record {
    is_tty = true;
    settings = record { icanon = true; echo = true; vmin = 1; vtime = 0 };
  };
  polls = [];
}

-- The row that is saved for it.
abbrev sent_row : Row
sent_row = record {
  message = record {
    message_id = codes "m9";
    sender_id = codes "1";
    sender_username = codes "ann";
    recipient_id = codes "2";
    recipient_username = codes "bob";
    encapsulated_key = replicate 32 0;
    ciphertext = 93 ∷ codes "hi";
    sent_at_ms = pos 0;
    is_forwarded = false;
    original_message_id = [];
    plaintext = codes "hi";
    signature_verified = true;
    revoked = false;
  };
  deleted = false;
}
