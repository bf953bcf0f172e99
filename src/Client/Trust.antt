-- ===== src/Client/Trust.antt =====
-- lookup_user, print_fingerprint and confirm_rotation.
use eternal_blue.Prelude.{
  ℕ, Bytes, codes, ◌==◌, Bytes-tested, Bool, true, false, ◌||◌, Option, none, some, List, [], ◌∷◌,
  ◌++◌, if◌then◌else◌,
}
use eternal_blue.Prelude.Exec.{Exec, ok, pure, throw, lift, on, ◌>>=◌, ◌>>◌, runtime_error}
use eternal_blue.Sodium.{Sodium}
use eternal_blue.Json.{JsonLib}
use eternal_blue.User.{User}
use eternal_blue.User.FromJson
use eternal_blue.LocalStore.{get_pin, save_pin}
use eternal_blue.TrustStore.{fingerprint, lookup_or_pin}
use eternal_blue.HttpClient.{Internet, HttpResponse, get}
use eternal_blue.Client.State.{
  Client, http_, store_, print, complain, ask, has_status, failure_text, dash,
}

-- std::getline, and whether the answer is yes.
abbrev pub is_yes : List Bytes → Bool × List Bytes
is_yes [] = (false, [])
is_yes (answer ∷ input) = (
  answer == codes "y" || answer == codes "Y" || answer == codes "yes" || answer == codes "Yes",
  input,
)

abbrev pub read_answer : Exec Client Bool
read_answer c = let (agreed, input) = is_yes c.input in (ok agreed, record c { input = input })

abbrev pub quoted : Bytes → Bytes
quoted name = codes "lookup '" ++ (name ++ codes "' failed")

module _ ⦃internet : Internet⦄ ⦃sodium : Sodium⦄ ⦃json : JsonLib⦄ where
  abbrev pub found : Bytes → HttpResponse → Exec Client User
  found name resp =
      if has_status 200 resp
      then (do fetched ← lift (FromJson.from_json resp.body); on store_ (lookup_or_pin fetched))
      else throw (runtime_error (failure_text (quoted name) resp))

  unfoldable pub lookup_user : Bytes → Exec Client User
  unfolding get FromJson.from_json lookup_or_pin failure_text
  lookup_user name = do resp ← on http_ (get (codes "/api/keys/" ++ name)); found name resp

  abbrev pub shown : Bytes → Option User → Exec Client ℕ
  shown name none = do
    print (
        codes "no pinned key for "
        ++ (name ++ (codes " yet " ++ (dash ++ codes " exchange a message first, then re-check"))))
    pure 1
  shown name (some pin) = do
    print (codes "pinned key fingerprint for " ++ (name ++ codes ":"))
    print (codes "  " ++ fingerprint pin.public_key)
    print (
        codes "compare this out-of-band (call / in person) against "
        ++ (name ++ codes "'s own copy"))
    pure 0

  unfoldable pub print_fingerprint : Bytes → Exec Client ℕ
  unfolding get_pin fingerprint
  print_fingerprint name = do pin ← on store_ (get_pin name); shown name pin

  abbrev pub overwrite : Bytes → User → Bool → Exec Client ℕ
  overwrite name fetched true = do
    on store_ (save_pin fetched)
    print (codes "pin overwritten for " ++ name)
    pure 0
  overwrite name fetched false = do
    print (codes "rotation cancelled " ++ (dash ++ codes " pin unchanged"))
    pure 1

  abbrev pub ask_rotation : Bytes → User → User → Exec Client (Unit {0})
  ask_rotation name pin fetched = do
    print (codes "rotating pinned key for " ++ (name ++ codes ":"))
    print (codes "  old: " ++ fingerprint pin.public_key)
    print (codes "  new: " ++ fingerprint fetched.public_key)
    print (codes "only proceed if you have verified the new fingerprint out-of-band.")
    ask (codes "overwrite the pin? [y/N]: ")

  -- The question about a key that differs.
  unfoldable pub offer_rotation : Bytes → User → User → Exec Client ℕ
  unfolding save_pin fingerprint
  offer_rotation name pin fetched = do
    ask_rotation name pin fetched
    agreed ← read_answer
    overwrite name fetched agreed

  abbrev pub compared : Bytes → User → Option User → Exec Client ℕ
  compared name fetched none = do
    on store_ (save_pin fetched)
    print (codes "pinned " ++ (name ++ codes " (no previous pin):"))
    print (codes "  " ++ fingerprint fetched.public_key)
    pure 0
  compared name fetched (some pin) =
      if pin.public_key == fetched.public_key
      then (do
        print (
            codes "no rotation needed "
            ++ (dash ++ codes " the pinned key already matches the server"))
        pure 0)
      else offer_rotation name pin fetched

  abbrev pub rotated : Bytes → HttpResponse → Exec Client ℕ
  rotated name resp =
      if has_status 200 resp
      then (do
        fetched ← lift (FromJson.from_json resp.body)
        pin ← on store_ (get_pin name)
        compared name fetched pin)
      else (do complain (failure_text (quoted name) resp); pure 1)

  unfoldable pub confirm_rotation : Bytes → Exec Client ℕ
  unfolding get FromJson.from_json get_pin save_pin offer_rotation fingerprint failure_text
  confirm_rotation name = do resp ← on http_ (get (codes "/api/keys/" ++ name)); rotated name resp
