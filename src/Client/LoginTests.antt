-- ===== src/Client/LoginTests.antt =====
-- A signup, and a login after it.
use eternal_blue.Prelude.{
  Bytes, codes, true, bytes_beq, some, length-replicate, ap, ◌++◌, List, [], ◌∷◌, ◌≡◌, ◌≢◌, refl,
  length, replicate, drop, arith,
}
use eternal_blue.Prelude.Exec.{ok}
use eternal_blue.Prelude.Int.{pos}
use eternal_blue.Sodium.{Sodium, AeadLaws, SizeLaws}
use eternal_blue.Sodium.Toy.{
  digest, length-digest, digest_bytes, shared, to_base64, from_base64, encrypt, decrypt,
  decrypt-encrypt,
}
use eternal_blue.Json.{JsonLib}
use eternal_blue.Json.Fields.{string_at}
use eternal_blue.Keystore.{write_loop, encode}
use eternal_blue.Json.Doc.{string, fields, field, no_fields, doc_lib}
use eternal_blue.CryptoContext.{KeyPair, generate_keypair}
use eternal_blue.HttpClient.{Internet, post}
use eternal_blue.TlsConnection.{Network, received}
use eternal_blue.TlsConnection.Tests.{working}
use eternal_blue.Client.State.{Client}
use eternal_blue.Client.Session.{signup, login}
use eternal_blue.Client.Signup.{registration}
use eternal_blue.Client.Login.{Accepts, login-signup}
use eternal_blue.Client.Tests.{nobody}

-- A cipher that adds 16 bytes.
instance abbrev sized : Sodium
sized = record {
  sha256 = digest;
  sha256_length = length-digest;
  sha256_bytes = digest_bytes;
  hmac_sha256 = λ key msg. digest msg;
  hmac_length = λ key msg. length-digest msg;
  scalarmult = shared;
  scalarmult_base = λ sk. sk;
  kx_keypair = λ r. (r, r);
  pwhash = λ password salt ops mem. some (digest (password ++ salt));
  xchacha_encrypt = λ key nonce aad text. replicate 15 0 ++ encrypt key nonce aad text;
  xchacha_decrypt = λ key nonce aad c. decrypt key nonce aad (drop 15 c);
  chacha_encrypt = encrypt;
  chacha_decrypt = decrypt;
  bin2base64 = to_base64;
  base642bin = from_base64;
  random = λ i n. replicate n i;
  random_length = λ i n. length-replicate n i;
}

sized-AeadLaws : AeadLaws sized
sized-AeadLaws = record { chacha = decrypt-encrypt; xchacha = decrypt-encrypt }

sized-SizeLaws : SizeLaws sized
sized-SizeLaws = record { xchacha = λ key nonce aad text. omega arith; secret_key = λ r h. h }

abbrev blank_line : Bytes
blank_line = 13 ∷ 10 ∷ 13 ∷ 10 ∷ []

abbrev answering : Bytes → Network
answering text = record working { events = λ wire. received b'H' (codes "TTP/1.1 " ++ text) ∷ [] }

-- The server registers the first user, and answers with a session then.
abbrev answer : List Bytes → Network
answer [] = answering (codes "201 Created" ++ blank_line)
answer (_ ∷ _) = answering (codes "200 OK" ++ (blank_line ++ codes "session"))

instance abbrev server : Internet
server = record { session = answer }

instance abbrev documents : JsonLib
documents = doc_lib (
    (
      codes "session",
      fields (
          field (codes "token") (string (codes "t"))
            (field (codes "user_id") (string (codes "7")) no_fields)),
    )
    ∷ [])

abbrev signed_up : Client
signed_up = (signup (codes "ann") (codes "pw") nobody).1

-- Another session of the program on the same machine.
abbrev later : Client
later = record nobody {
  http = signed_up.http;
  keystore = record { path = codes "k"; file = signed_up.keystore.file; ios = [] };
}

one_request : length signed_up.http.log ≡ 1
unfolding signup write_loop encode
one_request = refl

sends : signed_up.http ≢ nobody.http
sends e = let none_sent = ap (λ h. length h.log) e in omega (arith, one_request, none_sent)

welcome_back : Accepts (codes "ann") (codes "pw") later
unfolding signup post write_loop encode bytes_beq string_at
welcome_back = record {
  body = codes "{}";
  dumped = refl;
  resp = record { status_code = pos 200; body = codes "session" };
  answers = refl;
  status = refl;
  document = fields (
      field (codes "token") (string (codes "t"))
        (field (codes "user_id") (string (codes "7")) no_fields));
  parses = refl;
  token = codes "t";
  has_token = refl;
  user_id = codes "7";
  has_user_id = refl;
}

login-signup_example :
    (kp : KeyPair) × (body : Bytes) × ((generate_keypair nobody.drawn).0 ≡ ok kp)
    × (registration (codes "ann") (codes "pw") kp.public_key ≡ ok body)
    × (signed_up.http ≡ (post (codes "/api/auth/register") body nobody.http).1)
    × ((login (codes "ann") (codes "pw") later).1.session_sk ≡ kp.secret_key)
    × ((login (codes "ann") (codes "pw") later).1.logged_in ≡ true)
    × ((login (codes "ann") (codes "pw") later).1.user_id ≡ welcome_back.user_id)
login-signup_example =
    login-signup (codes "ann") (codes "pw") sized-AeadLaws sized-SizeLaws nobody later sends refl tt
      welcome_back
