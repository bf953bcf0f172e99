-- ===== src/Client/Tests.antt =====
-- Commands of concrete clients.
use eternal_blue.Prelude.{
  Bytes, codes, true, false, none, some, List, [], ◌∷◌, ◌++◌, ◌≡◌, ◌⊎◌, refl, replicate,
}
use eternal_blue.Prelude.Int.{pos}
use eternal_blue.Prelude.Exec.{ok}
use eternal_blue.Sodium.Toy.{toy, toy-AeadLaws, toy-DhLaws}
use eternal_blue.Json.{JsonLib}
use eternal_blue.Json.Doc.{doc_lib}
use eternal_blue.Message.{Message}
use eternal_blue.Message.Wire.{Calendar}
use eternal_blue.CryptoContext.{
  KeyPair, generate_keypair, derive_kek, unwrap_key, extract_and_expand, key_schedule_auth,
  seal_auth, auth_encap, dh, pk_of,
}
use eternal_blue.Prelude.{◌+◌, arith}
use eternal_blue.User.{User}
use eternal_blue.LocalStore.Messages.{IsStorable}
use eternal_blue.Client.EndToEnd.{opened_form, open_message-sealed}
use eternal_blue.LocalStore.{has_id}
use eternal_blue.Keystore.{KeystoreData}
use eternal_blue.LocalStore.{opened, get_message, mark_deleted, mark_revoked}
use eternal_blue.HttpClient.{Internet, HttpResponse, del}
use eternal_blue.HttpClient.Tests.{client}
use eternal_blue.TlsConnection.{Network, received}
use eternal_blue.TlsConnection.Tests.{working}
use eternal_blue.Client.State.{Clock, Client, has_status}
use eternal_blue.Client.Session.{signup}
use eternal_blue.Client.Sending.{make_aad, msg_info}
use eternal_blue.Client.Messages.{delete_message, revoke_message}
use eternal_blue.Client.Inbox.{Tally, open_message}
use eternal_blue.Client.Removal.{delete_message-accepted, revoke_message-accepted}
use eternal_blue.Client.Signup.{SavedFirst, signup-SavedFirst}

-- A server that answers every request with 200.
abbrev answering : Network
answering = record working {
  events = λ wire. received b'H' (codes "TTP/1.1 200 OK" ++ 13 ∷ 10 ∷ 13 ∷ 10 ∷ codes "{}") ∷ [];
}

instance abbrev pub test_internet : Internet
test_internet = record { session = λ log. answering }

instance abbrev pub test_json : JsonLib
test_json = doc_lib []

instance abbrev pub test_calendar : Calendar
test_calendar = record { seconds = λ s. none; utc_text = λ t. codes "now" }

instance abbrev pub test_clock : Clock
test_clock = record { now = λ i. pos i }

abbrev pub hello : Message
hello = record {
  message_id = codes "m1";
  sender_id = codes "1";
  sender_username = codes "ann";
  recipient_id = codes "2";
  recipient_username = codes "bob";
  encapsulated_key = 1 ∷ [];
  ciphertext = 2 ∷ [];
  sent_at_ms = pos 5;
  is_forwarded = false;
  original_message_id = [];
  plaintext = codes "hi";
  signature_verified = true;
  revoked = false;
}

-- A session of ann, whose store has one message.
abbrev pub ann : Client
ann = record {
  http = client;
  keystore = record { path = codes "k"; file = none; ios = [] };
  store = record opened { messages = record { message = hello; deleted = false } ∷ [] };
  drawn = 0;
  readings = 0;
  input = [];
  output = [];
  logged_in = true;
  user_id = codes "1";
  username = codes "ann";
  session_sk = replicate 32 7;
}

abbrev pub nobody : Client
nobody = record ann { logged_in = false }

delete_message-accepted_example :
    ((delete_message (codes "m1") ann).1.store ≡ ann.store)
    ⊎ ((ann.logged_in ≡ true)
        × (resp : HttpResponse) × ((del (codes "/api/messages/" ++ codes "m1") ann.http).0
            ≡ ok resp)
        × (has_status 200 resp ≡ true)
        × ((delete_message (codes "m1") ann).1.store ≡ (mark_deleted (codes "m1") ann.store).1))
delete_message-accepted_example = delete_message-accepted (codes "m1") ann

revoke_message-accepted_example :
    ((revoke_message (codes "m1") ann).1.store ≡ (get_message (codes "m1") ann.store).1)
    ⊎ ((revoke_message (codes "m1") ann).1.store ≡ ann.store)
    ⊎ ((ann.logged_in ≡ true)
        × (m : Message) × ((get_message (codes "m1") ann.store).0 ≡ ok (some m))
        × (m.sender_username ≡ ann.username)
        × (resp : HttpResponse) × ((del
              (codes "/api/messages/" ++ (codes "m1" ++ codes "/revoke"))
              ann.http).0
            ≡ ok resp)
        × (has_status 200 resp ≡ true)
        × ((revoke_message (codes "m1") ann).1.store
            ≡ (mark_revoked (codes "m1") (get_message (codes "m1") ann.store).1).1))
revoke_message-accepted_example = revoke_message-accepted (codes "m1") ann

signup-SavedFirst_example :
    ((signup (codes "bob") (codes "pw") nobody).1.http ≡ client)
    ⊎ ((kp : KeyPair) × (stored : KeystoreData) × (kek : Bytes) × ((generate_keypair 0).0 ≡ ok kp)
        × (derive_kek (codes "pw") stored.salt ≡ ok kek)
        × (unwrap_key stored.wrapped kek ≡ ok kp.secret_key)
        × SavedFirst
            (codes "bob")
            (codes "pw")
            kp
            stored
            nobody
            (signup (codes "bob") (codes "pw") nobody).1)
signup-SavedFirst_example = signup-SavedFirst (codes "bob") (codes "pw") toy-AeadLaws nobody

-- A message that the key pair 5 seals for the key pair 3.
abbrev secret : Bytes
secret = extract_and_expand ((0 + 3) ∷ (5 + 3) ∷ []) (replicate 32 0 ++ (3 ∷ [] ++ 5 ∷ []))

abbrev delivered : Message
delivered = record hello {
  encapsulated_key = replicate 32 0;
  ciphertext =
      toy.chacha_encrypt (key_schedule_auth secret msg_info).key
        (key_schedule_auth secret msg_info).base_nonce (make_aad (codes "1") (codes "2") (pos 5))
        (codes "hi");
  plaintext = [];
  signature_verified = false;
}

abbrev sender : User
sender = record {
  user_id = codes "1";
  username = codes "ann";
  public_key = 5 ∷ [];
  key_version = pos 1;
}

abbrev bob : Client
bob = record ann { store = opened; session_sk = 3 ∷ []; username = codes "bob" }

abbrev tally : Tally
tally = record { senders = []; saved = 0; skipped = 0 }

delivered-IsStorable : IsStorable (opened_form tally delivered sender bob (codes "hi"))
delivered-IsStorable = record {
  message_id = omega arith;
  sender_id = omega arith;
  sender_username = omega arith;
  recipient_id = omega arith;
  recipient_username = omega arith;
  original_message_id = tt;
  plaintext = omega arith;
  encapsulated_key = refl;
  ciphertext = refl;
}

open_message-sealed_example :
    (get_message (codes "m1") (open_message true tally delivered sender bob).1.store).0
    ≡ ok (some (record (opened_form tally delivered sender bob (codes "hi")) { revoked = false }))
unfolding seal_auth auth_encap dh pk_of has_id
open_message-sealed_example =
    open_message-sealed tally delivered sender bob (codes "hi") true toy-DhLaws toy-AeadLaws
      (5 ∷ []) 0 refl refl refl refl tt delivered-IsStorable refl

-- A session whose one message was deleted.
abbrev pub forgetful : Client
forgetful = record ann {
  store = record opened { messages = record { message = hello; deleted = true } ∷ [] };
}
