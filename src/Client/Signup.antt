-- ===== src/Client/Signup.antt =====
-- Client::signup: what it stores and what it sends, in which order.
use eternal_blue.Prelude.{
  ℕ, suc, Bytes, codes, some, [], ◌∷◌, ◌≡◌, ◌⊎◌, inl, inr, refl, ap, ◌∙◌, Bool-cases, subst, sym,
}
use eternal_blue.Prelude.Exec.{Exec, Result, ok, on, lift, ◌>>=◌, ◌>>◌, bind_ok, bind_err}
use eternal_blue.Prelude.Exec.Pure.{Result-cases}
use eternal_blue.Sodium.{Sodium, AeadLaws}
use eternal_blue.Json.{JsonLib}
use eternal_blue.Base64.{to_base64url}
use eternal_blue.CryptoContext.{
  KeyPair, draw, generate_keypair, random_salt, derive_kek, wrap_key, unwrap_key, kek_aad,
}
use eternal_blue.CryptoContext.RoundTrip.{unwrap_key-wrap_key}
use eternal_blue.Keystore.{KeystoreData, encode, save}
use eternal_blue.Keystore.Saving.{save-file}
use eternal_blue.HttpClient.{Internet, HttpResponse, post}
use eternal_blue.Client.State.{Client, http_, keystore_, crypto_, has_status}
use eternal_blue.Client.Session.{signup, registered}
use eternal_blue.Client.Steps.{on-cases}

module _ ⦃internet : Internet⦄ ⦃sodium : Sodium⦄ ⦃json : JsonLib⦄ (username password : Bytes) where
  -- What is sent for a public key.
  abbrev pub registration : Bytes → Result Bytes
  registration public_key = json.dump (
      json.object (
        (codes "username", json.text username)
        ∷ (codes "password", json.text password)
        ∷ (codes "public_key", json.text (to_base64url public_key))
        ∷ []))

  -- Announcing the result changes neither the file nor what was sent.
  registered-keeps :
      (resp : HttpResponse) (c : Client)
      → ((registered username resp c).1.http ≡ c.http)
        × ((registered username resp c).1.keystore ≡ c.keystore)
  registered-keeps resp c = elim (Bool-cases (has_status 201 resp)) [
    | inl accepted ↦ (rw accepted refl, rw accepted refl)
    | inr refused ↦ (rw refused refl, rw refused refl)
  ]

  -- From `save` on.
  abbrev publish : KeyPair → KeystoreData → Exec Client ℕ
  publish kp stored = do
    on keystore_ (save stored)
    body ← lift (registration kp.public_key)
    resp ← on http_ (post (codes "/api/auth/register") body)
    registered username resp

  -- Nothing was sent, or the file held the wrapped key before the public key was sent.
  abbrev pub SavedFirst : KeyPair → KeystoreData → Client → Client → Type 0
  SavedFirst kp stored c c' =
      (c'.http ≡ c.http)
      ⊎ ((body : Bytes) × (registration kp.public_key ≡ ok body)
          × ((save stored c.keystore).0 ≡ ok tt)
          × (c'.keystore.file ≡ some (encode stored))
          × (c'.http ≡ (post (codes "/api/auth/register") body c.http).1))

  publish-SavedFirst :
      (kp : KeyPair) (stored : KeystoreData) (c : Client)
      → SavedFirst kp stored c (publish kp stored c).1
  publish-SavedFirst kp stored c = elim (on-cases keystore_ (save stored) after_save c) [
    | inr (e, thrown, ends) ↦ inl (ap (λ p. p.1.http) ends)
    | inl (_, saves, goes) ↦ elim (Result-cases (registration kp.public_key)) [
      | inr (e, thrown) ↦ inl (
          ap (λ p. p.1.http)
            (goes ∙ bind_err (lift (registration kp.public_key)) send saved e thrown))
      | inl (body, dumped) ↦
          let to_post = goes ∙ bind_ok (lift (registration kp.public_key)) send saved body dumped in
          let request = post (codes "/api/auth/register") body in
          elim (on-cases http_ request (registered username) saved) [
            | inr (e, thrown, ends) ↦ inr (
              body,
              dumped,
              saves,
              ap (λ p. p.1.keystore.file) (to_post ∙ ends) ∙ save-file stored c.keystore saves,
              ap (λ p. p.1.http) (to_post ∙ ends),
            )
            | inl (resp, answered, ends) ↦
                let (http, keystore) =
                  registered-keeps resp (record saved { http = (request c.http).1 }) in
                inr (
                  body,
                  dumped,
                  saves,
                  ap (λ p. p.1.keystore.file) (to_post ∙ ends)
                      ∙ ap (λ k. k.file) keystore
                      ∙ save-file stored c.keystore saves,
                  ap (λ p. p.1.http) (to_post ∙ ends) ∙ http,
                )
          ]
    ]
  ]
    where
      saved : Client
      saved = record c { keystore = (save stored c.keystore).1 }

      send : Bytes → Exec Client ℕ
      send body = on http_ (post (codes "/api/auth/register") body) >>= registered username

      after_save : Unit {0} → Exec Client ℕ
      after_save _ = lift (registration kp.public_key) >>= send

  -- From the key-encryption key on.
  abbrev wrap_and_publish : KeyPair → Bytes → Bytes → Exec Client ℕ
  wrap_and_publish kp salt kek = do
    wrapped ← on crypto_ (wrap_key kp.secret_key kek)
    publish kp (record { salt = salt; wrapped = wrapped })

  -- `signup` sends nothing; or it stored a salt and the wrapping of the secret key of the generated pair
  -- under the key of the password and the salt, before it registered the public key of that pair.
  pub signup-Stores :
      (c : Client)
      → ((signup username password c).1.http ≡ c.http)
        ⊎ ((kp : KeyPair) × (stored : KeystoreData) × (kek : Bytes) × ((generate_keypair c.drawn).0
              ≡ ok kp)
            × ((random_salt (suc c.drawn)).0 ≡ ok stored.salt)
            × (derive_kek password stored.salt ≡ ok kek)
            × ((wrap_key kp.secret_key kek (suc (suc c.drawn))).0 ≡ ok stored.wrapped)
            × SavedFirst kp stored c (signup username password c).1)
  unfolding signup generate_keypair random_salt draw wrap_key
  signup-Stores c =
      let pair = sodium.kx_keypair (sodium.random c.drawn 32) in
      let kp : KeyPair = record { public_key = pair.0; secret_key = pair.1 } in
      let salt = sodium.random (suc c.drawn) 16 in
      let drawn = record c { drawn = suc (suc c.drawn) } in
      elim (Result-cases (derive_kek password salt)) [
        | inr (e, thrown) ↦ inl (
            ap (λ p. p.1.http)
              (bind_err (lift (derive_kek password salt)) (wrap_and_publish kp salt) drawn e
                thrown))
        | inl (kek, derived) ↦
            let i = suc (suc c.drawn) in
            let stored : KeystoreData = record {
              salt = salt;
              wrapped = record {
                nonce = sodium.random i 24;
                ciphertext = sodium.xchacha_encrypt kek (sodium.random i 24) kek_aad kp.secret_key;
              };
            } in
            let goes =
              bind_ok (lift (derive_kek password salt)) (wrap_and_publish kp salt) drawn kek
                derived in
            inr (
              kp,
              stored,
              kek,
              refl,
              refl,
              derived,
              refl,
              subst (λ p. SavedFirst kp stored c p.1) (sym goes)
                  (publish-SavedFirst kp stored (record c { drawn = suc i })),
            )
      ]

  -- `signup` sends nothing; or the keystore's file holds a wrapped key and a salt, the key-encryption
  -- key of the password and that salt unwraps the secret key of the generated pair, and the one request
  -- sent registers the public key of that pair.
  pub signup-SavedFirst :
      AeadLaws sodium
      → (c : Client)
      → ((signup username password c).1.http ≡ c.http)
        ⊎ ((kp : KeyPair) × (stored : KeystoreData) × (kek : Bytes) × ((generate_keypair c.drawn).0
              ≡ ok kp)
            × (derive_kek password stored.salt ≡ ok kek)
            × (unwrap_key stored.wrapped kek ≡ ok kp.secret_key)
            × SavedFirst kp stored c (signup username password c).1)
  signup-SavedFirst aead c = elim (signup-Stores c) [
    | inl nothing ↦ inl nothing
    | inr (kp, stored, kek, generated, salted, derived, wrapped, first) ↦
        let unwraps =
          unwrap_key-wrap_key aead kp.secret_key kek (suc (suc c.drawn)) stored.wrapped wrapped in
        inr (kp, stored, kek, generated, derived, unwraps, first)
  ]
