-- ===== src/Client/Evolves/Sending.antt =====
-- The effects of send_message and forward_message.
use eternal_blue.Prelude.{
  ℕ, Bytes, codes, Option, none, some, [], ◌++◌, refl, is_empty, Bool-cases, inl, inr, ◌≡◌,
}
use eternal_blue.Prelude.Int.{ℤ}
use eternal_blue.Prelude.Exec.{
  Exec, Result, ok, err, Error, key_changed_error, pure, lift, on, ◌>>=◌, ◌>>◌,
}
use eternal_blue.Sodium.{Sodium}
use eternal_blue.Json.{JsonLib}
use eternal_blue.User.{User}
use eternal_blue.Message.{Message}
use eternal_blue.Message.Wire.{to_send_json}
use eternal_blue.CryptoContext.{Sealed}
use eternal_blue.LocalStore.{get_message, save_message}
use eternal_blue.HttpClient.{Internet, HttpResponse, post}
use eternal_blue.Client.State.{
  Clock, Client, http_, store_, print, ask, current_ms, attempt, has_status,
}
use eternal_blue.Client.Trust.{lookup_user}
use eternal_blue.Client.Sending.{
  refuse, lookup_failed, outgoing, keep_sent, post_message, sealed_for, deliver, send_to,
  tell_forwarded, post_forward, send_message, report_forwarded, forward_to, forward_found,
  forward_message,
}
use eternal_blue.Client.Evolves.{
  Evolving, same, once, writes, draws, bind-Evolving, then-Evolving, if-Evolving, if_at-Evolving,
  get_message-Evolving, Evolves, IsSealed, saves_message, bind-Evolves, post-Evolving,
  current_ms-Evolving,
}
use eternal_blue.Client.Evolves.Trust.{lookup_user-Evolving}
use eternal_blue.Prelude.{subst, sym}
use eternal_blue.Client.Evolves.{IsPinned}
use eternal_blue.Client.Evolves.Pinned.{lookup_user-IsPinned, attempt-eq-ok}
use eternal_blue.Client.Evolves.Messages.{refuse-Evolving}

module _ ⦃internet : Internet⦄ ⦃sodium : Sodium⦄ where
  lookup_failed-Evolving : (e : Error) → Evolving (lookup_failed e)
  unfolding lookup_failed
  lookup_failed-Evolving (key_changed_error text) c = once (writes _ refl)
  lookup_failed-Evolving _ c = once (writes _ refl)

module _ ⦃internet : Internet⦄ ⦃sodium : Sodium⦄ ⦃json : JsonLib⦄ ⦃clock : Clock⦄ where
  keep_sent-Evolves :
      (m : Message) (resp : HttpResponse) (c : Client)
      → IsSealed c m
      → Evolves c (keep_sent m resp c).1
  keep_sent-Evolves m resp c genuine =
      let tell : Bytes → Exec Client ℕ = λ id.
        print (codes "sent to " ++ (m.recipient_username ++ (codes " [" ++ (id ++ codes "]"))))
        >> pure 0 in
      let save : Bytes → Exec Client (Unit {0}) =
        λ id. on store_ (save_message (record m { message_id = id })) in
      let id_of : json.Json → Exec Client Bytes =
        λ j. lift (json.value j (codes "message_id") []) in
      let keep : Bytes → Exec Client ℕ = λ id. save id >> tell id in
      elim (Bool-cases (has_status 201 resp)) [
        | inl accepted ↦ rw accepted (
            bind-Evolves (lift (json.parse resp.body)) (λ j. id_of j >>= keep) c same
              λ j _. bind-Evolves (id_of j) keep c same λ id _.
                bind-Evolves (save id) (λ _. tell id) c
                  (once (saves_message (record m { message_id = id }) (inr genuine) refl))
                  λ _ _. once (writes _ refl))
        | inr refused ↦ rw refused (once (writes _ refl))
      ]

  post_message-Evolves : (m : Message) (c : Client) → IsSealed c m → Evolves c (post_message m c).1
  post_message-Evolves m c genuine =
      let path = codes "/api/messages" in
      let send : Bytes → Exec Client ℕ = λ body. on http_ (post path body) >>= keep_sent m in
      bind-Evolves (lift (to_send_json m)) send c same λ body _.
        bind-Evolves (on http_ (post path body)) (keep_sent m) c (post-Evolving path body c)
          λ resp _. keep_sent-Evolves m resp (on http_ (post path body) c).1 genuine

  current_ms-store : (c : Client) → (current_ms c).1.store ≡ c.store
  unfolding current_ms
  current_ms-store c = refl

  -- The clock is read, and something is done with what was sealed at that time.
  sealing-Evolves :
      (recipient : User) (text : Bytes) (use_it : ℤ → Sealed → Exec Client ℕ) (c : Client)
      → ((t : ℤ) (sealed : Sealed) (d : Client)
          → d.store ≡ c.store
          → (sealed_for recipient text t d).0 ≡ ok sealed
          → Evolves
              (sealed_for recipient text t d).1
              (use_it t sealed (sealed_for recipient text t d).1).1)
      → Evolves c ((current_ms >>= λ t. sealed_for recipient text t >>= use_it t) c).1
  sealing-Evolves recipient text use_it c h =
      let d = (current_ms c).1 in
      bind-Evolves current_ms (λ t. sealed_for recipient text t >>= use_it t) c
        (current_ms-Evolving c)
        λ t _.
          bind-Evolves (sealed_for recipient text t) (use_it t) d (once (draws _ refl))
            λ sealed e. h t sealed d (current_ms-store c) e

  send_to-Evolves :
      (text : Bytes) (r : Result User) (c : Client)
      → ((u : User) → r ≡ ok u → IsPinned u.public_key c.store)
      → Evolves c (send_to text r c).1
  unfolding outgoing
  send_to-Evolves text (err e) c its = lookup_failed-Evolving e c
  send_to-Evolves text (ok recipient) c its =
      sealing-Evolves recipient text (deliver recipient text) c λ t sealed d kept e.
        let after = (sealed_for recipient text t d).1 in
        let pinned = subst (IsPinned recipient.public_key) (sym kept) (its recipient refl) in
        post_message-Evolves (outgoing after recipient sealed t text) after
          (recipient.public_key, pinned, d.drawn, e)

  pub send_message-Evolving : (name text : Bytes) → Evolving (send_message name text)
  unfolding send_message
  send_message-Evolving name text c =
      if_at-Evolving c.logged_in (attempt (lookup_user name) >>= send_to text)
        (refuse (codes "not logged in"))
        (λ d.
          bind-Evolves (attempt (lookup_user name)) (send_to text) d (lookup_user-Evolving name d)
            λ r e. send_to-Evolves text r (lookup_user name d).1 λ u is_ok.
              lookup_user-IsPinned name d u (attempt-eq-ok (lookup_user name) d r u e is_ok))
        (refuse-Evolving (codes "not logged in")) c

  tell_forwarded-Evolving :
      (recipient : User) (j : json.Json) → Evolving (tell_forwarded recipient j)
  tell_forwarded-Evolving recipient j =
      let finish : Bytes → Exec Client ℕ = λ id. print (id ++ codes "]") >> pure 0 in
      then-Evolving (ask (codes "forwarded to " ++ (recipient.username ++ codes " [")))
        (lift (json.value j (codes "message_id") (codes "?")) >>= finish)
        (λ c. once (writes _ refl))
        (bind-Evolving (lift _) finish (λ c. same) λ id c. once (writes _ refl))

  report_forwarded-Evolving :
      (recipient : User) (resp : HttpResponse) → Evolving (report_forwarded recipient resp)
  report_forwarded-Evolving recipient resp =
      if-Evolving (has_status 201 resp) _ _
        (bind-Evolving (lift (json.parse resp.body)) (tell_forwarded recipient) (λ c. same)
          (tell_forwarded-Evolving recipient))
        λ c. once (writes _ refl)

  post_forward-Evolving :
      (id : Bytes) (recipient : User) (t : ℤ) (sealed : Sealed)
      → Evolving (post_forward id recipient t sealed)
  post_forward-Evolving id recipient t sealed =
      let path = codes "/api/messages/" ++ (id ++ codes "/forward") in
      let send : Bytes → Exec Client ℕ =
        λ body. on http_ (post path body) >>= report_forwarded recipient in
      bind-Evolving (lift _) send (λ c. same)
        λ body.
          bind-Evolving (on http_ (post path body)) (report_forwarded recipient)
            (post-Evolving path body) (report_forwarded-Evolving recipient)

  forward_to-Evolving : (id text : Bytes) (r : Result User) → Evolving (forward_to id text r)
  forward_to-Evolving id text (err e) = lookup_failed-Evolving e
  forward_to-Evolving id text (ok recipient) = λ c.
      sealing-Evolves recipient text (post_forward id recipient) c λ t sealed d _ e.
        post_forward-Evolving id recipient t sealed (sealed_for recipient text t d).1

  forward_found-Evolving :
      (id name : Bytes) (m : Option Message) → Evolving (forward_found id name m)
  forward_found-Evolving id name none = refuse-Evolving _
  forward_found-Evolving id name (some m) =
      if-Evolving (is_empty m.plaintext) (refuse (codes "message has no decrypted plaintext"))
        (attempt (lookup_user name) >>= forward_to id m.plaintext)
        (refuse-Evolving (codes "message has no decrypted plaintext"))
        (bind-Evolving (attempt (lookup_user name)) (forward_to id m.plaintext)
          (lookup_user-Evolving name) (forward_to-Evolving id m.plaintext))

  pub forward_message-Evolving : (id name : Bytes) → Evolving (forward_message id name)
  unfolding forward_message
  forward_message-Evolving id name c =
      if_at-Evolving c.logged_in (on store_ (get_message id) >>= forward_found id name)
        (refuse (codes "not logged in"))
        (bind-Evolving (on store_ (get_message id)) (forward_found id name)
          (get_message-Evolving id) (forward_found-Evolving id name))
        (refuse-Evolving (codes "not logged in")) c
