-- ===== src/Client/Inbox.antt =====
-- sync: new messages, then revocations.
use eternal_blue.Prelude.{
  ℕ, ◌+◌, Bytes, codes, ◌==◌, Bytes-tested, ℕ-tested, Bool, true, false, Option, none, some, List,
  [], ◌∷◌, ◌++◌, if◌then◌else◌, length,
}
use eternal_blue.Prelude.Decimal.{to_string, to_string_signed}
use eternal_blue.Prelude.Exec.{Exec, Part, Result, ok, err, pure, lift, on, ◌>>=◌, ◌>>◌}
use eternal_blue.Sodium.{Sodium}
use eternal_blue.Json.{JsonLib}
use eternal_blue.User.{User}
use eternal_blue.Message.{Message}
use eternal_blue.Message.Wire
use eternal_blue.Message.Wire.{Calendar}
use eternal_blue.CryptoContext.{open_auth}
use eternal_blue.LocalStore.{get_message, save_message, mark_revoked}
use eternal_blue.HttpClient.{Internet, HttpResponse, get}
use eternal_blue.Client.State.{
  Client, http_, store_, print, complain, attempt, has_status, failure_text, what,
}
use eternal_blue.Client.Trust.{lookup_user}
use eternal_blue.Client.Sending.{make_aad, msg_info}
use eternal_blue.Client.Messages.{ms_to_iso}

-- What the first loop carries: sender_cache, saved and skipped.
pub record Tally : Type 0 where
  pub senders : List (Bytes × User)
  pub saved : ℕ
  pub skipped : ℕ

unfoldable pub cached : Bytes → List (Bytes × User) → Option User
cached name [] = none
cached name ((key, user) ∷ senders) =
    let rest = cached name senders in if key == name then some user else rest

-- A line on std::cerr if the caller wants to hear of it.
abbrev pub announce_error : Bool → Bytes → Exec Client (Unit {0})
announce_error true text = complain text
announce_error false text = pure tt

abbrev pub announce_line : Bool → Bytes → Exec Client (Unit {0})
announce_line true text = print text
announce_line false text = pure tt

abbrev pub skip : Bool → Bytes → Tally → Exec Client Tally
skip announce text t = do announce_error announce text; pure (record t { skipped = t.skipped + 1 })

unfoldable pub skip_text : Message → Bytes → Bytes
skip_text m why = codes "skip " ++ (m.message_id ++ why)

-- What the try block of the revocations changes: the client, and the count outside of the block.
pub record Reconciling : Type 0 where
  pub client : Client
  pub revocations : ℕ

abbrev pub client_ : Part Reconciling Client
client_ = record { get = λ s. s.client; put = λ s client. record s { client = client } }

abbrev pub count_up : Exec Reconciling (Unit {0})
count_up s = (ok tt, record s { revocations = s.revocations + 1 })

module _ ⦃internet : Internet⦄ ⦃sodium : Sodium⦄ ⦃json : JsonLib⦄ ⦃calendar : Calendar⦄ where
  -- A message that was opened: it is saved unless the store has it.
  abbrev pub keep_new : Bool → Tally → Message → Option Message → Exec Client Tally
  keep_new announce t m (some known) = pure t
  keep_new announce t m none = do
    on store_ (save_message m)
    announce_line announce (
        codes "  ["
        ++ (m.message_id
            ++ (codes "] from " ++ (m.sender_username ++ (codes " " ++ ms_to_iso m.sent_at_ms)))))
    pure (record t { saved = t.saved + 1 })

  abbrev pub opened_message : Bool → Tally → Message → Result Bytes → Exec Client Tally
  opened_message announce t m (err e) =
      skip announce (skip_text m (codes " (open failed): " ++ what e)) t
  opened_message announce t m (ok pt) = do
    known ← on store_ (get_message m.message_id)
    keep_new announce t (record m { plaintext = pt; signature_verified = true }) known

  -- From the check of the key's size on.
  unfoldable pub open_message : Bool → Tally → Message → User → Exec Client Tally
  unfolding open_auth make_aad get_message save_message ms_to_iso skip_text what
  open_message announce t m sender c =
      if length m.encapsulated_key == 32
      then opened_message announce t m
          (open_auth m.encapsulated_key c.session_sk sender.public_key msg_info
            (make_aad m.sender_id m.recipient_id m.sent_at_ms) m.ciphertext)
          c
      else skip announce (skip_text m (codes " (bad enc size)")) t c

  abbrev pub with_sender : Bool → Tally → Message → Result User → Exec Client Tally
  with_sender announce t m (err e) =
      skip announce (skip_text m (codes " (sender lookup): " ++ what e)) t
  with_sender announce t m (ok sender) =
      open_message announce (record t { senders = (m.sender_username, sender) ∷ t.senders }) m
        sender

  unfoldable pub find_sender : Bool → Tally → Message → Option User → Exec Client Tally
  unfolding lookup_user open_message skip_text what
  find_sender announce t m (some sender) = open_message announce t m sender
  find_sender announce t m none = do
    sender ← attempt (lookup_user m.sender_username)
    with_sender announce t m sender

  abbrev pub with_message : Bool → Tally → Result Message → Exec Client Tally
  with_message announce t (err e) = skip announce (codes "skip (bad json): " ++ what e) t
  with_message announce t (ok m) = find_sender announce t m (cached m.sender_username t.senders)

  abbrev pub read_item : json.Json → Result Message
  read_item msg_j = elim (json.dump msg_j) [ err e ↦ err e | ok s ↦ Wire.from_json s ]

  -- for (const auto& msg_j : …)
  unfoldable pub inbox_loop : Bool → List json.Json → Tally → Exec Client Tally
  unfolding find_sender cached Wire.from_json what
  inbox_loop announce [] t = pure t
  inbox_loop announce (msg_j ∷ items) t = do
    t' ← with_message announce t (read_item msg_j)
    inbox_loop announce items t'

  abbrev pub revoke_known : Bytes → Option Message → Exec Reconciling (Unit {0})
  revoke_known id none = pure tt
  revoke_known id (some m) =
      if m.revoked then pure tt else (do on client_ (on store_ (mark_revoked id)); count_up)

  -- for (const auto& id_j : …)
  unfoldable pub revocation_loop : List json.Json → Exec Reconciling (Unit {0})
  unfolding get_message mark_revoked
  revocation_loop [] = pure tt
  revocation_loop (id_j ∷ items) = do
    id ← lift (json.get_string id_j)
    existing ← on client_ (on store_ (get_message id))
    revoke_known id existing
    revocation_loop items

  -- The try block.
  unfoldable pub revoke_listed : Bytes → Exec Reconciling (Unit {0})
  unfolding revocation_loop
  revoke_listed body = do
    rj ← lift (json.parse body)
    list ← lift (json.at rj (codes "revoked_ids"))
    revocation_loop (json.items list)

  abbrev pub report_revoking : Bool → Result (Unit {0}) × Reconciling → Result ℕ × Client
  report_revoking announce (ok _, s) = (ok s.revocations, s.client)
  report_revoking announce (err e, s) =
      (do announce_error announce (codes "revocation sync skipped: " ++ what e); pure s.revocations)
        s.client

  abbrev pub reconcile_with : Bool → HttpResponse → Exec Client ℕ
  reconcile_with announce resp c =
      if has_status 200 resp
      then report_revoking announce
          (revoke_listed resp.body (record { client = c; revocations = 0 }))
      else (do
        announce_error announce
            (codes "revocation sync failed (" ++ (to_string_signed resp.status_code ++ codes ")"))
        pure 0)
          c

  -- From the second request on: how many messages were revoked.
  unfoldable pub reconcile : Bool → Exec Client ℕ
  unfolding get revoke_listed what to_string_signed
  reconcile announce = do
    resp ← on http_ (get (codes "/api/messages/revoked"))
    reconcile_with announce resp

  unfoldable pub sync_inbox : Bool → Bytes → Exec Client ℕ
  unfolding inbox_loop reconcile to_string
  sync_inbox announce body = do
    j ← lift (json.parse body)
    list ← lift (json.at j (codes "messages"))
    t ← inbox_loop announce (json.items list) (record { senders = []; saved = 0; skipped = 0 })
    n ← reconcile announce
    announce_line announce (
        codes "inbox: "
        ++ (to_string t.saved
            ++ (codes " new, "
                ++ (to_string n
                    ++ (codes " revoked, " ++ (to_string t.skipped ++ codes " skipped"))))))
    pure 0

  abbrev pub sync_answered : Bool → HttpResponse → Exec Client ℕ
  sync_answered announce resp =
      if has_status 200 resp
      then sync_inbox announce resp.body
      else (do announce_error announce (failure_text (codes "inbox failed") resp); pure 1)

  unfoldable pub sync : Bool → Exec Client ℕ
  unfolding get sync_inbox failure_text
  sync announce c =
      if c.logged_in
      then (do resp ← on http_ (get (codes "/api/messages?box=inbox")); sync_answered announce resp)
          c
      else (do announce_error announce (codes "not logged in"); pure 1) c
