-- ===== src/Client/Session.antt =====
-- health, signup, login and logout.
use eternal_blue.Prelude.{ℕ, Bytes, codes, true, false, [], ◌∷◌, ◌++◌, if◌then◌else◌, replicate}
use eternal_blue.Prelude.Decimal.{to_string_signed}
use eternal_blue.Prelude.Exec.{Exec, ok, pure, lift, on, ◌>>=◌, ◌>>◌}
use eternal_blue.Sodium.{Sodium}
use eternal_blue.Json.{JsonLib}
use eternal_blue.Json.Fields.{string_at}
use eternal_blue.Base64.{to_base64url}
use eternal_blue.CryptoContext.{
  KeyPair, WrappedKey, generate_keypair, random_salt, derive_kek, wrap_key, unwrap_key,
}
use eternal_blue.Keystore.{KeystoreData, exists, save, load}
use eternal_blue.HttpClient.{Internet, HttpResponse, get, post, set_bearer_token}
use eternal_blue.Client.State.{
  Client, http_, keystore_, crypto_, print, complain, ask, has_status, failure_text, dash,
}

module _ ⦃internet : Internet⦄ where
  unfoldable pub health : Exec Client ℕ
  unfolding get to_string_signed
  health = do
    resp ← on http_ (get (codes "/health"))
    print (codes "status " ++ to_string_signed resp.status_code)
    print resp.body
    pure (if has_status 200 resp then 0 else 1)

module _ ⦃internet : Internet⦄ ⦃sodium : Sodium⦄ ⦃json : JsonLib⦄ where
  abbrev pub registered : Bytes → HttpResponse → Exec Client ℕ
  registered username resp =
      if has_status 201 resp
      then (do print (codes "registered " ++ username); pure 0)
      else (do complain (failure_text (codes "signup failed") resp); pure 1)

  -- The public key goes to the server.
  abbrev pub publish : Bytes → Bytes → KeyPair → Exec Client ℕ
  publish username password kp = do
    body ← lift (
        json.dump (
          json.object (
            (codes "username", json.text username)
            ∷ (codes "password", json.text password)
            ∷ (codes "public_key", json.text (to_base64url kp.public_key))
            ∷ [])))
    resp ← on http_ (post (codes "/api/auth/register") body)
    registered username resp

  abbrev pub keep_key : Bytes → Bytes → KeyPair → Bytes → WrappedKey → Exec Client ℕ
  keep_key username password kp salt wrapped = do
    on keystore_ (save (record { salt = salt; wrapped = wrapped }))
    publish username password kp

  abbrev pub wrap_with : Bytes → Bytes → KeyPair → Bytes → Bytes → Exec Client ℕ
  wrap_with username password kp salt kek = do
    wrapped ← on crypto_ (wrap_key kp.secret_key kek)
    keep_key username password kp salt wrapped

  unfoldable pub signup : Bytes → Bytes → Exec Client ℕ
  unfolding generate_keypair random_salt derive_kek wrap_key save to_base64url post failure_text
  signup username password = do
    kp ← on crypto_ generate_keypair
    salt ← on crypto_ random_salt
    kek ← lift (derive_kek password salt)
    wrap_with username password kp salt kek

  abbrev pub take_token : Bytes → Exec Client (Unit {0})
  take_token token c = (ok tt, record c { http = set_bearer_token token c.http })

  abbrev pub take_user_id : Bytes → Exec Client (Unit {0})
  take_user_id id c = (ok tt, record c { user_id = id })

  abbrev pub take_key : Bytes → Exec Client (Unit {0})
  take_key sk c = (ok tt, record c { session_sk = sk })

  abbrev pub start_session : Bytes → Exec Client (Unit {0})
  start_session username c = (ok tt, record c { username = username; logged_in = true })

  abbrev pub welcome : Bytes → json.Json → Exec Client ℕ
  welcome username j = do
    ask (codes "logged in as " ++ (username ++ codes " (token expires "))
    expires ← lift (json.value j (codes "expires_at") (codes "?"))
    print (expires ++ codes ")")
    pure 0

  abbrev pub begin_with : Bytes → json.Json → Bytes → Exec Client ℕ
  begin_with username j sk = do take_key sk; start_session username; welcome username j

  abbrev pub unlock : Bytes → Bytes → json.Json → KeystoreData → Exec Client ℕ
  unlock username password j ks = do
    kek ← lift (derive_kek password ks.salt)
    sk ← lift (unwrap_key ks.wrapped kek)
    begin_with username j sk

  abbrev pub identified : Bytes → Bytes → json.Json → Exec Client ℕ
  identified username password j = do
    id ← lift (string_at j (codes "user_id"))
    take_user_id id
    ks ← on keystore_ load
    unlock username password j ks

  -- What follows an accepted login.
  unfoldable pub accepted : Bytes → Bytes → Bytes → Exec Client ℕ
  unfolding string_at load derive_kek unwrap_key set_bearer_token
  accepted username password body = do
    j ← lift (json.parse body)
    token ← lift (string_at j (codes "token"))
    take_token token
    identified username password j

  abbrev pub answered : Bytes → Bytes → HttpResponse → Exec Client ℕ
  answered username password resp =
      if has_status 200 resp
      then accepted username password resp.body
      else (do complain (failure_text (codes "login failed") resp); pure 1)

  unfoldable pub request_login : Bytes → Bytes → Exec Client ℕ
  unfolding accepted post failure_text
  request_login username password = do
    body ← lift (
        json.dump (
          json.object
            ((codes "username", json.text username) ∷ (codes "password", json.text password) ∷ [])))
    resp ← on http_ (post (codes "/api/auth/login") body)
    answered username password resp

  unfoldable pub login : Bytes → Bytes → Exec Client ℕ
  unfolding exists request_login
  login username password c =
      if exists c.keystore
      then request_login username password c
      else (do
        complain (codes "no local keystore " ++ (dash ++ codes " run signup on this machine first"))
        pure 1)
          c

-- The members after a logout; a SecretKey has 32 bytes.
unfoldable pub ended : Client → Client
unfolding set_bearer_token
ended c = record c {
  session_sk = replicate 32 0;
  http = set_bearer_token [] c.http;
  logged_in = false;
  user_id = [];
  username = [];
}

unfoldable pub logout : Exec Client ℕ
unfolding ended
logout c =
    if c.logged_in
    then (do print (codes "logged out " ++ c.username); pure 0) (ended c)
    else (do complain (codes "not logged in"); pure 1) c
