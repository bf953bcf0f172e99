-- ===== src/Client/Evolves/Session.antt =====
-- The effects of health, signup, login and logout.
use eternal_blue.Prelude.{ℕ, Bytes, codes, true, [], ◌++◌, refl, inl, inr, Bool-cases}
use eternal_blue.Prelude.Exec.{Exec, pure, lift, on, ◌>>=◌, ◌>>◌}
use eternal_blue.Sodium.{Sodium}
use eternal_blue.Json.{JsonLib}
use eternal_blue.Json.Fields.{string_at}
use eternal_blue.CryptoContext.{
  KeyPair, generate_keypair, random_salt, derive_kek, wrap_key, unwrap_key,
}
use eternal_blue.Keystore.{KeystoreData, exists, save, load}
use eternal_blue.HttpClient.{Internet, HttpResponse, get, post}
use eternal_blue.Client.State.{Client, http_, keystore_, crypto_, print, ask, has_status}
use eternal_blue.Client.Session.{
  health, registered, publish, keep_key, wrap_with, welcome, begin_with, unlock, identified, signup,
  take_token, take_user_id, take_key, start_session, accepted, answered, request_login, login,
  ended, logout,
}
use eternal_blue.Client.Evolves.{
  Evolving, draws, keeps_key, same, more, once, writes, takes_token, sets_session, bind-Evolving,
  then-Evolving, if-Evolving, if_at-Evolving, get-Evolving, post-Evolving,
}

module _ ⦃internet : Internet⦄ ⦃sodium : Sodium⦄ where
  pub health-Evolving : Evolving health
  unfolding health
  health-Evolving =
      bind-Evolving (on http_ (get (codes "/health"))) _ (get-Evolving (codes "/health"))
        λ resp c. more (once (writes _ refl)) (writes _ refl)

  pub logout-Evolving : Evolving logout
  unfolding logout ended
  logout-Evolving c = elim (Bool-cases c.logged_in) [
    | inl inside ↦
        rw inside
          (more (more (once (takes_token [] refl)) (sets_session _ _ _ _ refl)) (writes _ refl))
    | inr outside ↦ rw outside (once (writes _ refl))
  ]

module _ ⦃internet : Internet⦄ ⦃sodium : Sodium⦄ ⦃json : JsonLib⦄ where
  registered-Evolving : (name : Bytes) (resp : HttpResponse) → Evolving (registered name resp)
  registered-Evolving name resp =
      if-Evolving (has_status 201 resp) _ _ (λ c. once (writes _ refl)) λ c. once (writes _ refl)

  publish-Evolving : (name password : Bytes) (kp : KeyPair) → Evolving (publish name password kp)
  publish-Evolving name password kp =
      let path = codes "/api/auth/register" in
      let send : Bytes → Exec Client ℕ = λ body. on http_ (post path body) >>= registered name in
      bind-Evolving (lift _) send (λ c. same)
        λ body.
          bind-Evolving (on http_ (post path body)) (registered name) (post-Evolving path body)
            (registered-Evolving name)

  wrap_with-Evolving :
      (name password : Bytes) (kp : KeyPair) (salt kek : Bytes)
      → Evolving (wrap_with name password kp salt kek)
  wrap_with-Evolving name password kp salt kek =
      bind-Evolving (on crypto_ (wrap_key kp.secret_key kek)) (keep_key name password kp salt)
        (λ c. once (draws _ refl))
        λ wrapped.
          then-Evolving (on keystore_ (save (record { salt = salt; wrapped = wrapped })))
            (publish name password kp) (λ c. once (keeps_key _ refl))
            (publish-Evolving name password kp)

  pub signup-Evolving : (name password : Bytes) → Evolving (signup name password)
  unfolding signup
  signup-Evolving name password =
      let wrap : KeyPair → Bytes → Exec Client ℕ =
        λ kp salt. lift (derive_kek password salt) >>= wrap_with name password kp salt in
      bind-Evolving (on crypto_ generate_keypair) (λ kp. on crypto_ random_salt >>= wrap kp)
        (λ c. once (draws _ refl))
        λ kp.
          bind-Evolving (on crypto_ random_salt) (wrap kp) (λ c. once (draws _ refl))
            λ salt.
              bind-Evolving (lift (derive_kek password salt)) (wrap_with name password kp salt)
                (λ c. same) (wrap_with-Evolving name password kp salt)

  welcome-Evolving : (name : Bytes) (j : json.Json) → Evolving (welcome name j)
  welcome-Evolving name j =
      let finish : Bytes → Exec Client ℕ = λ expires. print (expires ++ codes ")") >> pure 0 in
      then-Evolving (ask (codes "logged in as " ++ (name ++ codes " (token expires ")))
        (lift (json.value j (codes "expires_at") (codes "?")) >>= finish)
        (λ c. once (writes _ refl))
        (bind-Evolving (lift _) finish (λ c. same) λ expires c. once (writes _ refl))

  begin_with-Evolving :
      (name : Bytes) (j : json.Json) (sk : Bytes) → Evolving (begin_with name j sk)
  begin_with-Evolving name j sk =
      then-Evolving (take_key sk >> start_session name) (welcome name j)
        (λ c. once (sets_session true c.user_id name sk refl)) (welcome-Evolving name j)

  unlock-Evolving :
      (name password : Bytes) (j : json.Json) (ks : KeystoreData)
      → Evolving (unlock name password j ks)
  unlock-Evolving name password j ks =
      let open_with : Bytes → Exec Client ℕ =
        λ kek. lift (unwrap_key ks.wrapped kek) >>= begin_with name j in
      bind-Evolving (lift (derive_kek password ks.salt)) open_with (λ c. same)
        λ kek.
          bind-Evolving (lift (unwrap_key ks.wrapped kek)) (begin_with name j) (λ c. same)
            (begin_with-Evolving name j)

  identified-Evolving :
      (name password : Bytes) (j : json.Json) → Evolving (identified name password j)
  identified-Evolving name password j =
      let find : Exec Client ℕ = on keystore_ load >>= unlock name password j in
      bind-Evolving (lift (string_at j (codes "user_id"))) (λ id. take_user_id id >> find)
        (λ c. same)
        λ id.
          then-Evolving (take_user_id id) find (λ c. once (sets_session _ id _ _ refl))
            (bind-Evolving (on keystore_ load) (unlock name password j)
              (λ c. once (keeps_key _ refl)) (unlock-Evolving name password j))

  accepted-Evolving : (name password body : Bytes) → Evolving (accepted name password body)
  unfolding accepted
  accepted-Evolving name password body =
      let token_of : json.Json → Exec Client Bytes = λ j. lift (string_at j (codes "token")) in
      let next : json.Json → Bytes → Exec Client ℕ =
        λ j token. take_token token >> identified name password j in
      bind-Evolving (lift (json.parse body)) (λ j. token_of j >>= next j) (λ c. same)
        λ j.
          bind-Evolving (token_of j) (next j) (λ c. same)
            λ token.
              then-Evolving (take_token token) (identified name password j)
                (λ c. once (takes_token token refl)) (identified-Evolving name password j)

  answered-Evolving :
      (name password : Bytes) (resp : HttpResponse) → Evolving (answered name password resp)
  answered-Evolving name password resp =
      if-Evolving (has_status 200 resp) _ _ (accepted-Evolving name password resp.body)
        λ c. once (writes _ refl)

  request_login-Evolving : (name password : Bytes) → Evolving (request_login name password)
  unfolding request_login
  request_login-Evolving name password =
      let send : Bytes → Exec Client ℕ =
        λ body. on http_ (post (codes "/api/auth/login") body) >>= answered name password in
      bind-Evolving (lift _) send (λ c. same)
        λ body.
          bind-Evolving (on http_ (post (codes "/api/auth/login") body)) (answered name password)
            (post-Evolving (codes "/api/auth/login") body) (answered-Evolving name password)

  pub login-Evolving : (name password : Bytes) → Evolving (login name password)
  unfolding login
  login-Evolving name password c =
      if_at-Evolving (exists c.keystore) (request_login name password) _
        (request_login-Evolving name password) (λ c. once (writes _ refl)) c
