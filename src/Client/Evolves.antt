-- ===== src/Client/Evolves.antt =====
-- What a method may do to a client, one effect after another. The children show that every command does
-- no more.
pub mod Trust
pub mod Session
pub mod Sending
pub mod Messages
pub mod Threads
pub mod Revoking
pub mod Pinned
pub mod Inbox
pub mod Sync
use eternal_blue.Sodium.{Sodium}
use eternal_blue.Prelude.{
  ℕ, Bytes, codes, some, Bool, true, false, List, [], ◌∷◌, ◌++◌, ◌≡◌, ◌⊎◌, refl, if◌then◌else◌,
}
use eternal_blue.Prelude.Exec.{
  Exec, Result, ok, err, pure, throw, lift, on, ◌>>=◌, ◌>>◌, bind-keeps, Error,
}
use eternal_blue.LocalStore.{
  LocalStore, save_message, get_message, list_messages, mark_deleted, mark_revoked, save_pin,
  get_pin,
}
use eternal_blue.LocalStore.History.{Step, saves, gets, lists, deletes, revokes, pins, gets_pin}
use eternal_blue.LocalStore.Earlier.{is_save}
use eternal_blue.TrustStore.Tofu.{pinned_key}
use eternal_blue.CryptoContext.{open_auth, seal_auth, Sealed}
use eternal_blue.Client.Sending.{make_aad, msg_info}
use eternal_blue.Message.{Message}
use eternal_blue.User.{User}
use eternal_blue.Keystore.{Disk}
use eternal_blue.HttpClient.{
  Internet, HttpClient, HttpResponse, request, get, post, del, set_bearer_token,
}
use eternal_blue.Client.State.{
  Client, Output, out, prompt, error, http_, keystore_, store_, crypto_, print, complain, ask,
  members, attempt, current_ms, Clock,
}

-- A key that is pinned for some user.
abbrev pub IsPinned : Bytes → LocalStore → Type 0
IsPinned key s = (name : Bytes) × (p : User) × (pinned_key name s ≡ some p) × (p.public_key ≡ key)

-- A message that was opened: the user's key and a pinned one of a sender open the ciphertext to the text.
abbrev pub IsOpened : ⦃sodium : Sodium⦄ → Client → Message → Type 0
IsOpened c m =
    (key : Bytes) × IsPinned key c.store
    × (open_auth m.encapsulated_key c.session_sk key msg_info
          (make_aad m.sender_id m.recipient_id m.sent_at_ms) m.ciphertext
        ≡ ok m.plaintext)

-- A message that was sealed with the user's key for a pinned one.
abbrev pub IsSealed : ⦃sodium : Sodium⦄ → Client → Message → Type 0
IsSealed c m =
    (key : Bytes) × IsPinned key c.store
    × (n : ℕ) × ((seal_auth key c.session_sk msg_info
          (make_aad m.sender_id m.recipient_id m.sent_at_ms) m.plaintext n).0
        ≡ ok (record { enc = m.encapsulated_key; ciphertext = m.ciphertext }))

-- A message whose ciphertext the user's key opened or sealed.
abbrev pub IsGenuine : ⦃sodium : Sodium⦄ → Client → Message → Type 0
IsGenuine c m = IsOpened c m ⊎ IsSealed c m

-- One effect: a request, a new token, the saving of a genuine message, another call of LocalStore, a use
-- of the keystore, of random numbers or of the clock, an output, a line of input, or new members of the
-- session.
pub data Effect ⦃internet : Internet⦄ ⦃sodium : Sodium⦄ (c d : Client) : Type 0 where
  requests :
      (method path body : Bytes)
      → d ≡ record c { http = (request method path body c.http).1 }
      → Effect c d
  takes_token : (token : Bytes) → d ≡ record c { http = set_bearer_token token c.http } → Effect c d
  saves_message :
      (m : Message)
      → IsGenuine c m
      → d ≡ record c { store = (save_message m c.store).1 }
      → Effect c d
  stores :
      {t : LocalStore} (st : Step c.store t)
      → is_save st ≡ false
      → d ≡ record c { store = t }
      → Effect c d
  keeps_key : (disk : Disk) → d ≡ record c { keystore = disk } → Effect c d
  draws : (n : ℕ) → d ≡ record c { drawn = n } → Effect c d
  reads_clock : (n : ℕ) → d ≡ record c { readings = n } → Effect c d
  writes : (o : Output) → d ≡ record c { output = c.output ++ o ∷ [] } → Effect c d
  reads_line :
      (line : Bytes) (rest : List Bytes)
      → c.input ≡ line ∷ rest
      → d ≡ record c { input = rest }
      → Effect c d
  reads_end : c.input ≡ [] → d ≡ record c { input = [] } → Effect c d
  sets_session :
      (inside : Bool) (id name sk : Bytes)
      → d ≡ record c { logged_in = inside; user_id = id; username = name; session_sk = sk }
      → Effect c d

-- A sequence of effects.
pub data Evolves ⦃internet : Internet⦄ ⦃sodium : Sodium⦄ (c : Client) : Client → Type 0 where
  same : Evolves c c
  more : {d e : Client} → Evolves c d → Effect d e → Evolves c e

module _ ⦃internet : Internet⦄ ⦃sodium : Sodium⦄ where
  pub Evolves-trans : {c d e : Client} → Evolves c d → Evolves d e → Evolves c e
  Evolves-trans p same = p
  Evolves-trans p (more q e) = more (Evolves-trans p q) e

  -- A method that only has such effects, whether it returns or throws.
  abbrev pub Evolving : {A : Type 0} → Exec Client A → Type 0
  Evolving m = (c : Client) → Evolves c (m c).1

  module _ {A B : Type 0} (m : Exec Client A) (k : A → Exec Client B) where
    pub bind-Evolving : Evolving m → ((a : A) → Evolving (k a)) → Evolving (m >>= k)
    bind-Evolving h g c =
        bind-keeps (Evolves c) m k c (h c) λ a _. Evolves-trans (h c) (g a (m c).1)

  -- The same at one client.
  pub bind-Evolves :
      {A B : Type 0} (m : Exec Client A) (k : A → Exec Client B) (c : Client)
      → Evolves c (m c).1
      → ((a : A) → (m c).0 ≡ ok a → Evolves (m c).1 (k a (m c).1).1)
      → Evolves c ((m >>= k) c).1
  bind-Evolves m k c h g = bind-keeps (Evolves c) m k c h λ a e. Evolves-trans h (g a e)

  -- One effect.
  pub once : {c d : Client} → Effect c d → Evolves c d
  once e = more same e

  pub get_message-Evolving : (id : Bytes) → Evolving (on store_ (get_message id))
  get_message-Evolving id c = once (stores (gets id refl) refl refl)

  pub list_messages-Evolving : Evolving (on store_ list_messages)
  list_messages-Evolving c = once (stores (lists refl) refl refl)

  pub mark_deleted-Evolving : (id : Bytes) → Evolving (on store_ (mark_deleted id))
  mark_deleted-Evolving id c = once (stores (deletes id refl) refl refl)

  pub mark_revoked-Evolving : (id : Bytes) → Evolving (on store_ (mark_revoked id))
  mark_revoked-Evolving id c = once (stores (revokes id refl) refl refl)

  pub save_pin-Evolving : (u : User) → Evolving (on store_ (save_pin u))
  save_pin-Evolving u c = once (stores (pins u refl) refl refl)

  pub get_pin-Evolving : (name : Bytes) → Evolving (on store_ (get_pin name))
  get_pin-Evolving name c = once (stores (gets_pin name refl) refl refl)

  pub get-Evolving : (path : Bytes) → Evolving (on http_ (get path))
  unfolding get
  get-Evolving path c = once (requests (codes "GET") path [] refl)

  pub post-Evolving : (path body : Bytes) → Evolving (on http_ (post path body))
  unfolding post
  post-Evolving path body c = once (requests (codes "POST") path body refl)

  pub del-Evolving : (path : Bytes) → Evolving (on http_ (del path))
  unfolding del
  del-Evolving path c = once (requests (codes "DELETE") path [] refl)

  pub on_crypto-Evolving : {A : Type 0} (m : Exec ℕ A) → Evolving (on crypto_ m)
  on_crypto-Evolving m c = once (draws _ refl)

  pub on_keystore-Evolving : {A : Type 0} (m : Exec Disk A) → Evolving (on keystore_ m)
  on_keystore-Evolving m c = once (keeps_key _ refl)

  pub print-Evolving : (text : Bytes) → Evolving (print text)
  print-Evolving text c = once (writes (out text) refl)

  pub ask-Evolving : (text : Bytes) → Evolving (ask text)
  ask-Evolving text c = once (writes (prompt text) refl)

  pub complain-Evolving : (text : Bytes) → Evolving (complain text)
  complain-Evolving text c = once (writes (error text) refl)

  pub current_ms-Evolving : ⦃clock : Clock⦄ → Evolving current_ms
  unfolding current_ms
  current_ms-Evolving c = once (reads_clock _ refl)

  -- A step that has no effect.
  pub lift-Evolving : {A : Type 0} (r : Result A) → Evolving (lift r)
  lift-Evolving r c = same

  pub if-Evolving :
      {A : Type 0} (b : Bool) (m n : Exec Client A)
      → Evolving m
      → Evolving n
      → Evolving (if b then m else n)
  if-Evolving true m n h g = h
  if-Evolving false m n h g = g

  pub if_at-Evolving :
      {A : Type 0} (b : Bool) (m n : Exec Client A)
      → Evolving m
      → Evolving n
      → (c : Client) → Evolves c (if b then m c else n c).1
  if_at-Evolving true m n h g = h
  if_at-Evolving false m n h g = g

  -- A state-changing action, and what follows it whatever it returned.
  pub then-Evolving :
      {A B : Type 0} (m : Exec Client A) (n : Exec Client B)
      → Evolving m
      → Evolving n
      → Evolving (m >> n)
  then-Evolving m n h g = bind-Evolving m (λ _. n) h (λ _. g)

  pub attempt-Evolving : {A : Type 0} (m : Exec Client A) → Evolving m → Evolving (attempt m)
  attempt-Evolving m h = h
