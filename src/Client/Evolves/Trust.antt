-- ===== src/Client/Evolves/Trust.antt =====
-- The effects of lookup_user, print_fingerprint and confirm_rotation.
use eternal_blue.Prelude.{
  ℕ, Bytes, codes, ◌==◌, Bytes-tested, Bool, true, false, Option, none, some, List, [], ◌∷◌, ◌++◌,
  ◌≡◌, refl, Bool-cases, inl, inr,
}
use eternal_blue.Prelude.Exec.{Exec, pure, lift, on, ◌>>=◌, ◌>>◌, bind-keeps}
use eternal_blue.Sodium.{Sodium}
use eternal_blue.Json.{JsonLib}
use eternal_blue.User.{User}
use eternal_blue.User.FromJson
use eternal_blue.LocalStore.{LocalStore, get_pin, save_pin}
use eternal_blue.LocalStore.History.{pins, gets_pin}
use eternal_blue.TrustStore.{decide_pin, lookup_or_pin}
use eternal_blue.HttpClient.{Internet, HttpResponse, get}
use eternal_blue.Client.State.{Client, http_, store_, print, has_status}
use eternal_blue.Client.Trust.{
  read_answer, found, lookup_user, shown, print_fingerprint, overwrite, offer_rotation,
  ask_rotation, compared, rotated, confirm_rotation,
}
use eternal_blue.Client.Evolves.{
  Evolves, Evolving, same, once, writes, more, reads_line, reads_end, bind-Evolving, then-Evolving,
  if-Evolving, stores, save_pin-Evolving, get_pin-Evolving, get-Evolving,
}

-- Calls for pins.
data PinCalls (s : LocalStore) : LocalStore → Type 0 where
  no_calls : PinCalls s s
  looks : {t : LocalStore} → PinCalls s t → (name : Bytes) → PinCalls s (get_pin name t).1
  keeps : {t : LocalStore} → PinCalls s t → (u : User) → PinCalls s (save_pin u t).1

decide_pin-PinCalls :
    ⦃sodium : Sodium⦄ {s t : LocalStore} (u : User) (o : Option User)
    → PinCalls s t
    → PinCalls s (decide_pin u o t).1
unfolding decide_pin
decide_pin-PinCalls {s} {t} u none h =
    bind-keeps (PinCalls s) (save_pin u) (λ _. pure u) t (keeps h u) λ _ _. keeps h u
decide_pin-PinCalls u (some p) h = elim (Bool-cases (p.public_key == u.public_key)) [
  | inl kept ↦ rw kept h
  | inr other ↦ rw other h
]

lookup_or_pin-PinCalls :
    ⦃sodium : Sodium⦄ (u : User) (s : LocalStore) → PinCalls s (lookup_or_pin u s).1
unfolding lookup_or_pin
lookup_or_pin-PinCalls u s =
    let looked : PinCalls s (get_pin u.username s).1 = looks no_calls u.username in
    bind-keeps (PinCalls s) (get_pin u.username) (decide_pin u) s looked
      λ o _. decide_pin-PinCalls u o looked

module _ ⦃internet : Internet⦄ ⦃sodium : Sodium⦄ where
  PinCalls-Evolves :
      {c : Client} {t : LocalStore} → PinCalls c.store t → Evolves c (record c { store = t })
  PinCalls-Evolves no_calls = same
  PinCalls-Evolves (looks h name) =
      more (PinCalls-Evolves h) (stores (gets_pin name refl) refl refl)
  PinCalls-Evolves (keeps h u) = more (PinCalls-Evolves h) (stores (pins u refl) refl refl)

  read_answer-Evolving : Evolving read_answer
  read_answer-Evolving c = cases c.input refl
    where
      cases : (input : List Bytes) → c.input ≡ input → Evolves c (read_answer c).1
      cases [] e = once (reads_end e (rw e refl))
      cases (line ∷ rest) e = once (reads_line line rest e (rw e refl))

module _ ⦃internet : Internet⦄ ⦃sodium : Sodium⦄ ⦃json : JsonLib⦄ where
  found-Evolving : (name : Bytes) (resp : HttpResponse) → Evolving (found name resp)
  found-Evolving name resp =
      if-Evolving (has_status 200 resp) _ _
        (bind-Evolving (lift (FromJson.from_json resp.body)) (λ u. on store_ (lookup_or_pin u))
          (λ c. same) λ u c. PinCalls-Evolves (lookup_or_pin-PinCalls u c.store))
        λ c. same

  pub lookup_user-Evolving : (name : Bytes) → Evolving (lookup_user name)
  unfolding lookup_user
  lookup_user-Evolving name =
      bind-Evolving (on http_ (get (codes "/api/keys/" ++ name))) (found name)
        (get-Evolving (codes "/api/keys/" ++ name)) (found-Evolving name)

  shown-Evolving : (name : Bytes) (pin : Option User) → Evolving (shown name pin)
  shown-Evolving name none c = once (writes _ refl)
  shown-Evolving name (some pin) c =
      more (more (once (writes _ refl)) (writes _ refl)) (writes _ refl)

  pub print_fingerprint-Evolving : (name : Bytes) → Evolving (print_fingerprint name)
  unfolding print_fingerprint
  print_fingerprint-Evolving name =
      bind-Evolving (on store_ (get_pin name)) (shown name) (get_pin-Evolving name)
        (shown-Evolving name)

  overwrite-Evolving :
      (name : Bytes) (fetched : User) (agreed : Bool) → Evolving (overwrite name fetched agreed)
  overwrite-Evolving name fetched true =
      then-Evolving (on store_ (save_pin fetched))
        (print (codes "pin overwritten for " ++ name) >> pure 0) (save_pin-Evolving fetched)
        λ c. once (writes _ refl)
  overwrite-Evolving name fetched false = λ c. once (writes _ refl)

  ask_rotation-Evolving :
      (name : Bytes) (pin fetched : User) → Evolving (ask_rotation name pin fetched)
  ask_rotation-Evolving name pin fetched c =
      more
        (more (more (more (once (writes _ refl)) (writes _ refl)) (writes _ refl)) (writes _ refl))
        (writes _ refl)

  offer_rotation-Evolving :
      (name : Bytes) (pin fetched : User) → Evolving (offer_rotation name pin fetched)
  unfolding offer_rotation
  offer_rotation-Evolving name pin fetched =
      then-Evolving (ask_rotation name pin fetched) (read_answer >>= overwrite name fetched)
        (ask_rotation-Evolving name pin fetched)
        (bind-Evolving read_answer (overwrite name fetched) read_answer-Evolving
          (overwrite-Evolving name fetched))

  compared-Evolving :
      (name : Bytes) (fetched : User) (pin : Option User) → Evolving (compared name fetched pin)
  compared-Evolving name fetched none =
      then-Evolving (on store_ (save_pin fetched)) _ (save_pin-Evolving fetched)
        λ c. more (once (writes _ refl)) (writes _ refl)
  compared-Evolving name fetched (some pin) =
      if-Evolving (pin.public_key == fetched.public_key) _ _ (λ c. once (writes _ refl))
        (offer_rotation-Evolving name pin fetched)

  rotated-Evolving : (name : Bytes) (resp : HttpResponse) → Evolving (rotated name resp)
  rotated-Evolving name resp =
      let look : User → Exec Client ℕ = λ u. on store_ (get_pin name) >>= compared name u in
      if-Evolving (has_status 200 resp) _ _
        (bind-Evolving (lift (FromJson.from_json resp.body)) look (λ c. same)
          λ u.
            bind-Evolving (on store_ (get_pin name)) (compared name u) (get_pin-Evolving name)
              (compared-Evolving name u))
        λ c. once (writes _ refl)

  pub confirm_rotation-Evolving : (name : Bytes) → Evolving (confirm_rotation name)
  unfolding confirm_rotation
  confirm_rotation-Evolving name =
      bind-Evolving (on http_ (get (codes "/api/keys/" ++ name))) (rotated name)
        (get-Evolving (codes "/api/keys/" ++ name)) (rotated-Evolving name)
