-- ===== src/Client/Removal.antt =====
-- When the client removes a message from its store.
use eternal_blue.Prelude.{
  ℕ, Bytes, codes, ◌==◌, Bytes-tested, bytes_beq_iff, true, false, Option, none, some, ◌++◌, ◌≡◌,
  ◌⊎◌, inl, inr, refl, ap, ◌∙◌, Bool-cases,
}
use eternal_blue.Prelude.Exec.{Exec, ok, on, pure, ◌>>=◌, ◌>>◌, bind-keeps}
use eternal_blue.Message.{Message}
use eternal_blue.LocalStore.{LocalStore, get_message, mark_deleted, mark_revoked}
use eternal_blue.HttpClient.{Internet, HttpResponse, del}
use eternal_blue.Client.State.{Client, http_, store_, print, has_status}
use eternal_blue.Client.Messages.{delete_message, revoke_message, deleted, revoked, revoke_found}
use eternal_blue.Client.Steps.{on-cases}

-- The database after `remove` is the one before, or the answer was 200 and it is `after`.
abbrev pub Removed : HttpResponse → LocalStore → LocalStore → LocalStore → Type 0
Removed resp before after now = (now ≡ before) ⊎ ((has_status 200 resp ≡ true) × (now ≡ after))

module _ ⦃internet : Internet⦄ (id : Bytes) where
  deleted-Removed :
      (resp : HttpResponse) (c : Client)
      → Removed resp c.store (mark_deleted id c.store).1 (deleted id resp c).1.store
  deleted-Removed resp c =
      let Done : Client → Type 0 = λ c'. c'.store ≡ (mark_deleted id c.store).1 in
      let rest : Unit {0} → Exec Client ℕ = λ _. print (codes "deleted " ++ id) >> pure 0 in
      elim (Bool-cases (has_status 200 resp)) [
        | inl accepted ↦ inr (
          accepted,
          rw accepted (bind-keeps Done (on store_ (mark_deleted id)) rest c refl λ _ _. refl),
        )
        | inr refused ↦ inl (rw refused refl)
      ]

  revoked-Removed :
      (resp : HttpResponse) (c : Client)
      → Removed resp c.store (mark_revoked id c.store).1 (revoked id resp c).1.store
  revoked-Removed resp c =
      let Done : Client → Type 0 = λ c'. c'.store ≡ (mark_revoked id c.store).1 in
      let rest : Unit {0} → Exec Client ℕ = λ _. print (codes "revoked " ++ id) >> pure 0 in
      elim (Bool-cases (has_status 200 resp)) [
        | inl accepted ↦ inr (
          accepted,
          rw accepted (bind-keeps Done (on store_ (mark_revoked id)) rest c refl λ _ _. refl),
        )
        | inr refused ↦ inl (rw refused refl)
      ]

  delete_message-inside :
      (c : Client)
      → c.logged_in ≡ true
      → delete_message id c ≡ (on http_ (del (codes "/api/messages/" ++ id)) >>= deleted id) c
  unfolding delete_message
  delete_message-inside c inside = rw inside refl

  delete_message-outside :
      (c : Client) → c.logged_in ≡ false → (delete_message id c).1.store ≡ c.store
  unfolding delete_message
  delete_message-outside c outside = rw outside refl

  -- `delete_message` leaves the database as it is, or there is a session, the server has answered the
  -- request to delete that message with 200, and the database is the one after `mark_deleted`.
  pub delete_message-accepted :
      (c : Client)
      → ((delete_message id c).1.store ≡ c.store)
        ⊎ ((c.logged_in ≡ true)
            × (resp : HttpResponse) × ((del (codes "/api/messages/" ++ id) c.http).0 ≡ ok resp)
            × (has_status 200 resp ≡ true)
            × ((delete_message id c).1.store ≡ (mark_deleted id c.store).1))
  delete_message-accepted c =
      let request = del (codes "/api/messages/" ++ id) in
      let sent = record c { http = (request c.http).1 } in
      elim (Bool-cases c.logged_in) [
        | inr outside ↦ inl (delete_message-outside c outside)
        | inl inside ↦ elim (on-cases http_ request (deleted id) c) [
          | inr (e, thrown, ends) ↦
              inl (ap (λ p. p.1.store) (delete_message-inside c inside ∙ ends))
          | inl (resp, answered, goes) ↦
              let same = ap (λ p. p.1.store) (delete_message-inside c inside ∙ goes) in
              elim (deleted-Removed resp sent) [
                | inl kept ↦ inl (same ∙ kept)
                | inr (accepted, gone) ↦ inr (inside, resp, answered, accepted, same ∙ gone)
              ]
        ]
      ]

  revoke_message-inside :
      (c : Client)
      → c.logged_in ≡ true
      → revoke_message id c ≡ (on store_ (get_message id) >>= revoke_found id) c
  unfolding revoke_message
  revoke_message-inside c inside = rw inside refl

  revoke_message-outside :
      (c : Client) → c.logged_in ≡ false → (revoke_message id c).1.store ≡ c.store
  unfolding revoke_message
  revoke_message-outside c outside = rw outside refl

  -- What follows a found message.
  revoke_found-cases :
      (found : Option Message) (c : Client)
      → ((revoke_found id found c).1.store ≡ c.store)
        ⊎ ((m : Message) × (found ≡ some m)
            × (m.sender_username ≡ c.username)
            × (resp : HttpResponse) × ((del
                  (codes "/api/messages/" ++ (id ++ codes "/revoke"))
                  c.http).0
                ≡ ok resp)
            × (has_status 200 resp ≡ true)
            × ((revoke_found id found c).1.store ≡ (mark_revoked id c.store).1))
  revoke_found-cases none c = inl refl
  revoke_found-cases (some m) c =
      let request = del (codes "/api/messages/" ++ (id ++ codes "/revoke")) in
      let sent = record c { http = (request c.http).1 } in
      elim (Bool-cases (m.sender_username == c.username)) [
        | inr other ↦ inl (rw other refl)
        | inl own ↦ elim (on-cases http_ request (revoked id) c) [
          | inr (e, thrown, ends) ↦ inl (rw own (ap (λ p. p.1.store) ends))
          | inl (resp, answered, goes) ↦
              let same = ap (λ p. p.1.store) goes in
              elim (revoked-Removed resp sent) [
                | inl kept ↦ inl (rw own (same ∙ kept))
                | inr (accepted, gone) ↦ inr (
                  m,
                  refl,
                  (bytes_beq_iff m.sender_username c.username).0 own,
                  resp,
                  answered,
                  accepted,
                  rw own (same ∙ gone),
                )
              ]
        ]
      ]

  -- `revoke_message` changes no table, or there is a session, the store has a live message of that id whose
  -- sender is the user of the session, the server has answered the request to revoke it with 200, and
  -- the database is the one after `mark_revoked`.
  pub revoke_message-accepted :
      (c : Client)
      → ((revoke_message id c).1.store ≡ (get_message id c.store).1)
        ⊎ ((revoke_message id c).1.store ≡ c.store)
        ⊎ ((c.logged_in ≡ true)
            × (m : Message) × ((get_message id c.store).0 ≡ ok (some m))
            × (m.sender_username ≡ c.username)
            × (resp : HttpResponse) × ((del
                  (codes "/api/messages/" ++ (id ++ codes "/revoke"))
                  c.http).0
                ≡ ok resp)
            × (has_status 200 resp ≡ true)
            × ((revoke_message id c).1.store ≡ (mark_revoked id (get_message id c.store).1).1))
  revoke_message-accepted c =
      let looked = record c { store = (get_message id c.store).1 } in
      elim (Bool-cases c.logged_in) [
        | inr outside ↦ inr (inl (revoke_message-outside c outside))
        | inl inside ↦ elim (on-cases store_ (get_message id) (revoke_found id) c) [
          | inr (e, thrown, ends) ↦
              inl (ap (λ p. p.1.store) (revoke_message-inside c inside ∙ ends))
          | inl (found, got, goes) ↦
              let same = ap (λ p. p.1.store) (revoke_message-inside c inside ∙ goes) in
              elim (revoke_found-cases found looked) [
                | inl kept ↦ inl (same ∙ kept)
                | inr (m, is, own, resp, answered, accepted, gone) ↦
                    inr
                      (inr (inside, m, got ∙ ap ok is, own, resp, answered, accepted, same ∙ gone))
              ]
        ]
      ]
