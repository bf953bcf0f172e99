-- ===== src/Client/Evolves/Messages.antt =====
-- The effects of read_message, delete_message and revoke_message.
use eternal_blue.Sodium.{Sodium}
use eternal_blue.Prelude.{Bytes, codes, ◌==◌, Bytes-tested, Option, none, some, ◌++◌, refl}
use eternal_blue.Prelude.Exec.{pure, on, ◌>>=◌, ◌>>◌}
use eternal_blue.Message.{Message}
use eternal_blue.Message.Wire.{Calendar}
use eternal_blue.LocalStore.{get_message, mark_deleted, mark_revoked}
use eternal_blue.HttpClient.{Internet, HttpResponse, del}
use eternal_blue.Client.State.{http_, store_, print, has_status}
use eternal_blue.Client.Sending.{refuse}
use eternal_blue.Client.Messages.{
  shown_message, read_message, deleted, delete_message, revoked, revoke_found, revoke_message,
}
use eternal_blue.Client.Evolves.{
  Evolving, more, once, writes, bind-Evolving, then-Evolving, if-Evolving, if_at-Evolving,
  get_message-Evolving, mark_deleted-Evolving, mark_revoked-Evolving, del-Evolving,
}

module _ ⦃internet : Internet⦄ ⦃sodium : Sodium⦄ where
  pub refuse-Evolving : (text : Bytes) → Evolving (refuse text)
  refuse-Evolving text c = once (writes _ refl)

  module _ ⦃calendar : Calendar⦄ where
    shown_message-Evolving : (id : Bytes) (m : Option Message) → Evolving (shown_message id m)
    shown_message-Evolving id none c = once (writes _ refl)
    shown_message-Evolving id (some m) c = more (once (writes _ refl)) (writes _ refl)

    pub read_message-Evolving : (id : Bytes) → Evolving (read_message id)
    unfolding read_message
    read_message-Evolving id c =
        if_at-Evolving c.logged_in (on store_ (get_message id) >>= shown_message id)
          (refuse (codes "not logged in"))
          (bind-Evolving (on store_ (get_message id)) (shown_message id) (get_message-Evolving id)
            (shown_message-Evolving id))
          (refuse-Evolving (codes "not logged in")) c

  deleted-Evolving : (id : Bytes) (resp : HttpResponse) → Evolving (deleted id resp)
  deleted-Evolving id resp =
      if-Evolving (has_status 200 resp) _ _
        (then-Evolving (on store_ (mark_deleted id)) (print (codes "deleted " ++ id) >> pure 0)
          (mark_deleted-Evolving id) λ c. once (writes _ refl))
        λ c. once (writes _ refl)

  pub delete_message-Evolving : (id : Bytes) → Evolving (delete_message id)
  unfolding delete_message
  delete_message-Evolving id c =
      let path = codes "/api/messages/" ++ id in
      if_at-Evolving c.logged_in (on http_ (del path) >>= deleted id)
        (refuse (codes "not logged in"))
        (bind-Evolving (on http_ (del path)) (deleted id) (del-Evolving path) (deleted-Evolving id))
        (refuse-Evolving (codes "not logged in")) c

  revoked-Evolving : (id : Bytes) (resp : HttpResponse) → Evolving (revoked id resp)
  revoked-Evolving id resp =
      if-Evolving (has_status 200 resp) _ _
        (then-Evolving (on store_ (mark_revoked id)) (print (codes "revoked " ++ id) >> pure 0)
          (mark_revoked-Evolving id) λ c. once (writes _ refl))
        λ c. once (writes _ refl)

  revoke_found-Evolving : (id : Bytes) (m : Option Message) → Evolving (revoke_found id m)
  revoke_found-Evolving id none c = once (writes _ refl)
  revoke_found-Evolving id (some m) c =
      let path = codes "/api/messages/" ++ (id ++ codes "/revoke") in
      let refusal = refuse (codes "can only revoke messages you sent") in
      if_at-Evolving (m.sender_username == c.username) (on http_ (del path) >>= revoked id) refusal
        (bind-Evolving (on http_ (del path)) (revoked id) (del-Evolving path) (revoked-Evolving id))
        (refuse-Evolving _) c

  pub revoke_message-Evolving : (id : Bytes) → Evolving (revoke_message id)
  unfolding revoke_message
  revoke_message-Evolving id c =
      if_at-Evolving c.logged_in (on store_ (get_message id) >>= revoke_found id)
        (refuse (codes "not logged in"))
        (bind-Evolving (on store_ (get_message id)) (revoke_found id) (get_message-Evolving id)
          (revoke_found-Evolving id))
        (refuse-Evolving (codes "not logged in")) c
