-- ===== src/Client/Evolves/Inbox.antt =====
-- The effects of the loop over the inbox, which hands pinned senders on from message to message.
use eternal_blue.Prelude.{
  ◌+◌, Bytes, codes, Bool, true, false, Option, none, some, List, [], ◌∷◌, ◌++◌, refl, ◌==◌,
  ℕ-tested, length, Bool-cases, inl, inr, ◌≡◌,
}
use eternal_blue.Prelude.Exec.{Exec, Result, ok, err, on, pure, ◌>>◌}
use eternal_blue.Sodium.{Sodium}
use eternal_blue.Json.{JsonLib}
use eternal_blue.User.{User}
use eternal_blue.Message.{Message}
use eternal_blue.Message.Wire.{Calendar}
use eternal_blue.LocalStore.{get_message, save_message}
use eternal_blue.CryptoContext.{open_auth}
use eternal_blue.Client.Sending.{make_aad, msg_info}
use eternal_blue.HttpClient.{Internet}
use eternal_blue.Client.State.{Client, store_, attempt}
use eternal_blue.Client.Trust.{lookup_user}
use eternal_blue.Client.Messages.{ms_to_iso}
use eternal_blue.Client.Inbox.{
  Tally, announce_error, announce_line, skip, keep_new, opened_message, open_message, with_sender,
  find_sender, with_message, read_item, inbox_loop,
}
use eternal_blue.Client.Evolves.{
  Evolving, same, once, writes, then-Evolving, IsOpened, saves_message, get_message-Evolving,
}
use eternal_blue.Client.Evolves.Trust.{lookup_user-Evolving}
use eternal_blue.Client.Evolves.{IsPinned}
use eternal_blue.Client.Inbox.{cached}
use eternal_blue.Client.Evolves.Pinned.{
  attempt-eq-ok, ArePinned, kept-IsPinned, kept-ArePinned, cached-IsPinned, save_message-KeepsPins,
  get_message-KeepsPins, lookup_user-KeepsPins, lookup_user-IsPinned, OutcomeOf, bind-Outcome,
  pure-Outcome,
}

module _ ⦃internet : Internet⦄ ⦃sodium : Sodium⦄ where
  pub announce_error-Evolving :
      (announce : Bool) (text : Bytes) → Evolving (announce_error announce text)
  announce_error-Evolving true text c = once (writes _ refl)
  announce_error-Evolving false text c = same

  pub announce_line-Evolving :
      (announce : Bool) (text : Bytes) → Evolving (announce_line announce text)
  announce_line-Evolving true text c = once (writes _ refl)
  announce_line-Evolving false text c = same

  announce_error-store :
      (announce : Bool) (text : Bytes) (c : Client)
      → (announce_error announce text c).1.store ≡ c.store
  announce_error-store true text c = refl
  announce_error-store false text c = refl

  announce_line-store :
      (announce : Bool) (text : Bytes) (c : Client)
      → (announce_line announce text c).1.store ≡ c.store
  announce_line-store true text c = refl
  announce_line-store false text c = refl

  -- An announcement in front of a value.
  pub error_then-Evolving :
      {A : Type 0} (announce : Bool) (text : Bytes) (a : A)
      → Evolving (announce_error announce text >> pure a)
  error_then-Evolving announce text a =
      then-Evolving (announce_error announce text) (pure a) (announce_error-Evolving announce text)
        λ c. same

  pub line_then-Evolving :
      {A : Type 0} (announce : Bool) (text : Bytes) (a : A)
      → Evolving (announce_line announce text >> pure a)
  line_then-Evolving announce text a =
      then-Evolving (announce_line announce text) (pure a) (announce_line-Evolving announce text)
        λ c. same

module _ ⦃internet : Internet⦄ ⦃sodium : Sodium⦄ ⦃json : JsonLib⦄ ⦃calendar : Calendar⦄
    (announce : Bool) where
  skip-Outcome :
      (text : Bytes) (t : Tally) (c : Client)
      → ArePinned t.senders c.store
      → OutcomeOf c (skip announce text t c)
  skip-Outcome text t c pinned =
      bind-Outcome (announce_error announce text) (λ _. pure counted) c
        (announce_error-Evolving announce text c)
        λ _ _.
          pure-Outcome counted (announce_error announce text c).1 (announce_error announce text c).1
            same (rw (announce_error-store announce text c) pinned)
    where
      counted : Tally
      counted = record t { skipped = t.skipped + 1 }

  keep_new-Outcome :
      (t : Tally) (m : Message) (known : Option Message) (c : Client)
      → ArePinned t.senders c.store
      → IsOpened c m
      → OutcomeOf c (keep_new announce t m known c)
  keep_new-Outcome t m (some known) c pinned genuine = pure-Outcome t c c same pinned
  keep_new-Outcome t m none c pinned genuine =
      let text =
        codes "  ["
        ++ (m.message_id
            ++ (codes "] from " ++ (m.sender_username ++ (codes " " ++ ms_to_iso m.sent_at_ms)))) in
      let counted = record t { saved = t.saved + 1 } in
      let save : Exec Client (Unit {0}) = on store_ (save_message m) in
      let d = (save c).1 in
      let kept =
        kept-ArePinned c.store d.store t.senders (save_message-KeepsPins m c.store) pinned in
      bind-Outcome save (λ _. announce_line announce text >> pure counted) c
        (once (saves_message m (inl genuine) refl))
        λ _ _.
          bind-Outcome (announce_line announce text) (λ _. pure counted) d
            (announce_line-Evolving announce text d)
            λ _ _.
              pure-Outcome counted (announce_line announce text d).1
                (announce_line announce text d).1 same
                (rw (announce_line-store announce text d) kept)

  opened_message-Outcome :
      (t : Tally) (m : Message) (key : Bytes) (pt : Result Bytes) (c : Client)
      → ArePinned t.senders c.store
      → IsPinned key c.store
      → open_auth m.encapsulated_key c.session_sk key msg_info
          (make_aad m.sender_id m.recipient_id m.sent_at_ms)
          m.ciphertext
        ≡ pt
      → OutcomeOf c (opened_message announce t m pt c)
  opened_message-Outcome t m key (err e) c pinned its h = skip-Outcome _ t c pinned
  opened_message-Outcome t m key (ok pt) c pinned its h =
      let opened = record m { plaintext = pt; signature_verified = true } in
      let d = (on store_ (get_message m.message_id) c).1 in
      let keeps = get_message-KeepsPins m.message_id c.store in
      bind-Outcome (on store_ (get_message m.message_id)) (keep_new announce t opened) c
        (get_message-Evolving m.message_id c)
        λ known _.
          keep_new-Outcome t opened known d (kept-ArePinned c.store d.store t.senders keeps pinned)
            (key, kept-IsPinned c.store d.store key keeps its, h)

  open_message-Outcome :
      (t : Tally) (m : Message) (sender : User) (c : Client)
      → ArePinned t.senders c.store
      → IsPinned sender.public_key c.store
      → OutcomeOf c (open_message announce t m sender c)
  unfolding open_message
  open_message-Outcome t m sender c pinned its =
      elim (Bool-cases (length m.encapsulated_key == 32)) [
        | inl fits ↦ rw fits (opened_message-Outcome t m sender.public_key _ c pinned its refl)
        | inr other ↦ rw other (skip-Outcome _ t c pinned)
      ]

  with_sender-Outcome :
      (t : Tally) (m : Message) (sender : Result User) (c : Client)
      → ArePinned t.senders c.store
      → ((u : User) → sender ≡ ok u → IsPinned u.public_key c.store)
      → OutcomeOf c (with_sender announce t m sender c)
  with_sender-Outcome t m (err e) c pinned its = skip-Outcome _ t c pinned
  with_sender-Outcome t m (ok sender) c pinned its =
      open_message-Outcome (record t { senders = (m.sender_username, sender) ∷ t.senders }) m sender
        c (its sender refl, pinned) (its sender refl)

  find_sender-Outcome :
      (t : Tally) (m : Message) (known : Option User) (c : Client)
      → ArePinned t.senders c.store
      → cached m.sender_username t.senders ≡ known
      → OutcomeOf c (find_sender announce t m known c)
  unfolding find_sender
  find_sender-Outcome t m (some sender) c pinned hit =
      open_message-Outcome t m sender c pinned
        (cached-IsPinned m.sender_username t.senders sender c.store pinned hit)
  find_sender-Outcome t m none c pinned miss =
      let name = m.sender_username in
      let d = (lookup_user name c).1 in
      bind-Outcome (attempt (lookup_user name)) (with_sender announce t m) c
        (lookup_user-Evolving name c)
        λ sender e.
          with_sender-Outcome t m sender d
            (kept-ArePinned c.store d.store t.senders (lookup_user-KeepsPins name c) pinned)
            λ u is_ok.
              lookup_user-IsPinned name c u (attempt-eq-ok (lookup_user name) c sender u e is_ok)

  with_message-Outcome :
      (t : Tally) (m : Result Message) (c : Client)
      → ArePinned t.senders c.store
      → OutcomeOf c (with_message announce t m c)
  with_message-Outcome t (err e) c pinned = skip-Outcome _ t c pinned
  with_message-Outcome t (ok m) c pinned = find_sender-Outcome t m _ c pinned refl

  pub inbox_loop-Outcome :
      (items : List json.Json) (t : Tally) (c : Client)
      → ArePinned t.senders c.store
      → OutcomeOf c (inbox_loop announce items t c)
  unfolding inbox_loop
  inbox_loop-Outcome [] t c pinned = pure-Outcome t c c same pinned
  inbox_loop-Outcome (j ∷ items) t c pinned =
      let (evolves, next) = with_message-Outcome t (read_item j) c pinned in
      bind-Outcome (with_message announce t (read_item j)) (inbox_loop announce items) c evolves
        λ t' e. inbox_loop-Outcome items t' (with_message announce t (read_item j) c).1 (next t' e)
