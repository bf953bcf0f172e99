-- ===== src/Client/Login.antt =====
-- Client::login after Client::signup.
use eternal_blue.Prelude.{
  ℕ, suc, Bytes, codes, true, some, [], ◌∷◌, ◌≡◌, inl, inr, refl, ◌∙◌, arith, ◌≢◌,
}
use eternal_blue.Prelude.Exec.{ok}
use eternal_blue.Prelude.Exec.Pure.{Result-cases}
use eternal_blue.Sodium.{Sodium, AeadLaws, SizeLaws}
use eternal_blue.Json.{JsonLib}
use eternal_blue.Json.Fields.{string_at}
use eternal_blue.CryptoContext.{
  KeyPair, generate_keypair, random_salt, derive_kek, wrap_key, unwrap_key,
}
use eternal_blue.Keystore.{KeystoreData, exists, load, encode}
use eternal_blue.HttpClient.{Internet, HttpResponse, post, set_bearer_token}
use eternal_blue.Client.State.{Client, has_status}
use eternal_blue.CryptoContext.RoundTrip.{unwrap_key-wrap_key}
use eternal_blue.CryptoContext.{draw, kek_aad}
use eternal_blue.Keystore.{Disk}
use eternal_blue.Keystore.Format.{IsSized}
use eternal_blue.Keystore.Loading.{load-encode}
use eternal_blue.Keystore.Saving.{NoFailure}
use eternal_blue.Client.Signup.{registration, signup-Stores}
use eternal_blue.Client.Session.{signup, login, request_login, accepted, welcome}

module _ ⦃internet : Internet⦄ ⦃sodium : Sodium⦄ ⦃json : JsonLib⦄ (username password : Bytes) where
  -- The server answers the request for a session of `d` with a token and the user's id.
  pub record Accepts (d : Client) : Type 0 where
    pub body : Bytes
    pub dumped :
        json.dump (
          json.object
            ((codes "username", json.text username) ∷ (codes "password", json.text password) ∷ []))
        ≡ ok body
    pub resp : HttpResponse
    pub answers : (post (codes "/api/auth/login") body d.http).0 ≡ ok resp
    pub status : has_status 200 resp ≡ true
    pub document : json.Json
    pub parses : json.parse resp.body ≡ ok document
    pub token : Bytes
    pub has_token : string_at document (codes "token") ≡ ok token
    pub user_id : Bytes
    pub has_user_id : string_at document (codes "user_id") ≡ ok user_id

  -- The members when the user is told of the login.
  abbrev begun : (d : Client) → Accepts d → Bytes → Client
  begun d a sk = record d {
    http = set_bearer_token a.token (post (codes "/api/auth/login") a.body d.http).1;
    keystore = (load d.keystore).1;
    session_sk = sk;
    logged_in = true;
    user_id = a.user_id;
    username = username;
  }

  login-begun :
      (d : Client) (a : Accepts d) (ks : KeystoreData) (kek sk : Bytes)
      → exists d.keystore ≡ true
      → (load d.keystore).0 ≡ ok ks
      → derive_kek password ks.salt ≡ ok kek
      → unwrap_key ks.wrapped kek ≡ ok sk
      → login username password d ≡ welcome username a.document (begun d a sk)
  unfolding login request_login accepted
  login-begun d a ks kek sk there loads derived unwraps =
      rw
        (
          there, a.dumped, a.answers, a.status, a.parses, a.has_token, a.has_user_id, loads,
          derived, unwraps,
        )
        refl

  -- Telling the user changes no member.
  welcome-keeps :
      (j : json.Json) (c : Client)
      → ((welcome username j c).1.session_sk ≡ c.session_sk)
        × ((welcome username j c).1.logged_in ≡ c.logged_in)
        × ((welcome username j c).1.user_id ≡ c.user_id)
  welcome-keeps j c = elim (Result-cases (json.value j (codes "expires_at") (codes "?"))) [
    | inl (expires, e) ↦ rw e (refl, refl, refl)
    | inr (x, e) ↦ rw e (refl, refl, refl)
  ]

  -- The data that signup stores has the sizes of the file format.
  stored-IsSized :
      SizeLaws sodium
      → (kp : KeyPair) (stored : KeystoreData) (kek : Bytes) (i : ℕ)
      → (generate_keypair i).0 ≡ ok kp
      → (random_salt (suc i)).0 ≡ ok stored.salt
      → (wrap_key kp.secret_key kek (suc (suc i))).0 ≡ ok stored.wrapped
      → IsSized stored
  unfolding generate_keypair random_salt draw wrap_key
  stored-IsSized sizes kp stored kek i generated salted wrapped =
      let n = suc (suc i) in
      let secret = sizes.secret_key (sodium.random i 32) (sodium.random_length i 32) in
      record {
        salt = ground (arith, salted, sodium.random_length (suc i) 16);
        nonce = ground (arith, wrapped, sodium.random_length n 24);
        ciphertext = ground (
          arith,
          wrapped,
          generated,
          secret,
          sizes.xchacha kek (sodium.random n 24) kek_aad kp.secret_key,
        );
      }

  exists-file : (k : Disk) (content : Bytes) → k.file ≡ some content → exists k ≡ true
  unfolding exists
  exists-file k content there = rw there refl

  -- The key of a session that is begun with the stored data.
  login-stored :
      AeadLaws sodium
      → (d : Client) (a : Accepts d) (stored : KeystoreData) (kek sk : Bytes) (i : ℕ)
      → IsSized stored
      → d.keystore.file ≡ some (encode stored)
      → NoFailure d.keystore.ios
      → derive_kek password stored.salt ≡ ok kek
      → (wrap_key sk kek i).0 ≡ ok stored.wrapped
      → ((login username password d).1.session_sk ≡ sk)
        × ((login username password d).1.logged_in ≡ true)
        × ((login username password d).1.user_id ≡ a.user_id)
  login-stored aead d a stored kek sk i sized there n derived wrapped =
      let goes =
        login-begun d a stored kek sk (exists-file d.keystore (encode stored) there)
          (load-encode stored d.keystore sized there n) derived
          (unwrap_key-wrap_key aead sk kek i stored.wrapped wrapped) in
      rw goes (welcome-keeps a.document (begun d a sk))

  -- If signup sends anything, it registers the public key of the pair that it generated; and a later
  -- login of any client that finds the file as signup left it, with the same name and password, if the
  -- server accepts it and no system call on the file fails, begins a session with the secret key of that
  -- pair. The sizes and the decryption of what was encrypted are those of libsodium.
  pub login-signup :
      AeadLaws sodium
      → SizeLaws sodium
      → (c d : Client) → (signup username password c).1.http ≢ c.http
      → d.keystore.file ≡ (signup username password c).1.keystore.file
      → NoFailure d.keystore.ios
      → (a : Accepts d)
      → (kp : KeyPair) × (body : Bytes) × ((generate_keypair c.drawn).0 ≡ ok kp)
        × (registration username password kp.public_key ≡ ok body)
        × ((signup username password c).1.http ≡ (post (codes "/api/auth/register") body c.http).1)
        × ((login username password d).1.session_sk ≡ kp.secret_key)
        × ((login username password d).1.logged_in ≡ true)
        × ((login username password d).1.user_id ≡ a.user_id)
  login-signup aead sizes c d sends same_file n a = elim (signup-Stores username password c) [
    | inl nothing ↦ absurd (sends nothing)
    | inr (kp, stored, kek, generated, salted, derived, wrapped, inl nothing) ↦
        absurd (sends nothing)
    | inr
          (
            kp,
            stored,
            kek,
            generated,
            salted,
            derived,
            wrapped,
            inr (body, registers, saved, file, sent),
          ) ↦
        let sized = stored-IsSized sizes kp stored kek c.drawn generated salted wrapped in
        let (key, inside, id) =
          login-stored aead d a stored kek kp.secret_key (suc (suc c.drawn)) sized
            (same_file ∙ file) n derived wrapped in
        (kp, body, generated, registers, sent, key, inside, id)
  ]
