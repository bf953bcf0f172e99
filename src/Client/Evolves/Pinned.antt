-- ===== src/Client/Evolves/Pinned.antt =====
-- The keys that sync opens messages with, and send_message seals them for, are pinned.
use eternal_blue.Prelude.{
  Bytes, codes, ◌==◌, Bytes-tested, some, List, [], ◌∷◌, ◌++◌, ◌≡◌, subst, sym, ◌∙◌, All,
  Bool-cases, inl, inr, arith,
}
use eternal_blue.Prelude.Exec.{
  Exec, Result, ok, on, ◌>>=◌, bind_ok, bind_err, bind-eq-ok, bind-keeps,
}
use eternal_blue.Prelude.Exec.Pure.{Result-cases}
use eternal_blue.Sodium.{Sodium}
use eternal_blue.Json.{JsonLib}
use eternal_blue.User.{User}
use eternal_blue.User.FromJson
use eternal_blue.Message.{Message}
use eternal_blue.LocalStore.{LocalStore, save_message, get_message}
use eternal_blue.TrustStore.Tofu.{pinned_key, lookup_or_pin-keeps, lookup_or_pin_accepted}
use eternal_blue.HttpClient.{Internet, HttpResponse, get}
use eternal_blue.Client.State.{attempt, Client, http_, has_status}
use eternal_blue.Client.Trust.{lookup_user, found}
use eternal_blue.Client.Inbox.{Tally, cached}
use eternal_blue.Client.Evolves.{IsPinned, Evolves, Evolves-trans}

-- The keys of all cached senders are pinned.
abbrev pub ArePinned : List (Bytes × User) → LocalStore → Type 0
ArePinned senders s = All (λ e. IsPinned e.1.public_key s) senders

-- Every pin stays.
abbrev pub KeepsPins : LocalStore → LocalStore → Type 0
KeepsPins s t = (name : Bytes) (p : User) → pinned_key name s ≡ some p → pinned_key name t ≡ some p

pub kept-IsPinned :
    (s t : LocalStore) (key : Bytes) → KeepsPins s t → IsPinned key s → IsPinned key t
kept-IsPinned s t key keeps (name, p, pinned, e) = (name, p, keeps name p pinned, e)

pub kept-ArePinned :
    (s t : LocalStore) (senders : List (Bytes × User))
    → KeepsPins s t
    → ArePinned senders s
    → ArePinned senders t
kept-ArePinned s t [] keeps all = tt
kept-ArePinned s t (e ∷ senders) keeps (first, all) =
    (kept-IsPinned s t e.1.public_key keeps first, kept-ArePinned s t senders keeps all)

pub cached-IsPinned :
    (name : Bytes) (senders : List (Bytes × User)) (u : User) (s : LocalStore)
    → ArePinned senders s
    → cached name senders ≡ some u
    → IsPinned u.public_key s
unfolding cached
cached-IsPinned name [] u s all h = cc
cached-IsPinned name ((key, user) ∷ senders) u s (first, all) h = elim (Bool-cases (key == name)) [
  | inl hit ↦ let e : user ≡ u = ground arith in subst (λ v. IsPinned v.public_key s) e first
  | inr other ↦ cached-IsPinned name senders u s all (rw other at h)
]

-- What a try block returned is what its body returned.
pub attempt-eq-ok :
    {A : Type 0} (m : Exec Client A) (c : Client) (r : Result A) (a : A)
    → (attempt m c).0 ≡ ok r
    → r ≡ ok a
    → (m c).0 ≡ ok a
attempt-eq-ok m c r a e is_ok = cc

pub save_message-KeepsPins : (m : Message) (s : LocalStore) → KeepsPins s (save_message m s).1
unfolding save_message
save_message-KeepsPins m s name p h = ground arith

pub get_message-KeepsPins : (id : Bytes) (s : LocalStore) → KeepsPins s (get_message id s).1
unfolding get_message
get_message-KeepsPins id s name p h = ground arith

module _ ⦃internet : Internet⦄ ⦃sodium : Sodium⦄ ⦃json : JsonLib⦄ where
  found-KeepsPins :
      (name : Bytes) (resp : HttpResponse) (c : Client)
      → KeepsPins c.store (found name resp c).1.store
  found-KeepsPins name resp c n p h = elim (Bool-cases (has_status 200 resp)) [
    | inl accepted ↦ elim (Result-cases (FromJson.from_json resp.body)) [
      | inl (u, e) ↦ rw (accepted, e) (lookup_or_pin-keeps u c.store n p h)
      | inr (x, e) ↦ rw (accepted, e) h
    ]
    | inr refused ↦ rw refused h
  ]

  found-IsPinned :
      (name : Bytes) (resp : HttpResponse) (c : Client) (u : User)
      → (found name resp c).0 ≡ ok u
      → IsPinned u.public_key (found name resp c).1.store
  found-IsPinned name resp c u h = elim (Bool-cases (has_status 200 resp)) [
    | inl accepted ↦ elim (Result-cases (FromJson.from_json resp.body)) [
      | inl (v, e) ↦
          let (same, (p, pinned, key)) =
            lookup_or_pin_accepted v u c.store (rw (accepted, e) at h) in
          rw (accepted, e) (v.username, p, pinned, key ∙ sym same)
      | inr (x, e) ↦ let bad = rw (accepted, e) at h in cc bad
    ]
    | inr refused ↦ let bad = rw refused at h in cc
  ]

  pub lookup_user-KeepsPins :
      (name : Bytes) (c : Client) → KeepsPins c.store (lookup_user name c).1.store
  unfolding lookup_user
  lookup_user-KeepsPins name c n p h =
      let path = codes "/api/keys/" ++ name in
      bind-keeps (λ d. pinned_key n d.store ≡ some p) (on http_ (get path)) (found name) c h
        λ resp _. found-KeepsPins name resp (on http_ (get path) c).1 n p h

  -- The key that a lookup accepts is pinned afterwards.
  pub lookup_user-IsPinned :
      (name : Bytes) (c : Client) (u : User)
      → (lookup_user name c).0 ≡ ok u
      → IsPinned u.public_key (lookup_user name c).1.store
  unfolding lookup_user
  lookup_user-IsPinned name c u h =
      let path = codes "/api/keys/" ++ name in
      let (resp, e, h1) = bind-eq-ok (on http_ (get path)) (found name) c u h in
      rw (bind_ok (on http_ (get path)) (found name) c resp e)
        (found-IsPinned name resp (on http_ (get path) c).1 u h1)

  -- A step of the loop over the inbox: its effects, and that the senders that it hands on are pinned.
  abbrev pub OutcomeOf : Client → Result Tally × Client → Type 0
  OutcomeOf c r = Evolves c r.1 × ((t : Tally) → r.0 ≡ ok t → ArePinned t.senders r.1.store)

  pub bind-Outcome :
      {A : Type 0} (m : Exec Client A) (k : A → Exec Client Tally) (c : Client)
      → Evolves c (m c).1
      → ((a : A) → (m c).0 ≡ ok a → OutcomeOf (m c).1 (k a (m c).1))
      → OutcomeOf c ((m >>= k) c)
  bind-Outcome m k c h g = elim (Result-cases (m c).0) [
    | inl (a, e) ↦
        let (after, pinned) = g a e in
        subst (OutcomeOf c) (sym (bind_ok m k c a e)) (Evolves-trans h after, pinned)
    | inr (x, e) ↦ subst (OutcomeOf c) (sym (bind_err m k c x e)) (h, λ t bad. cc bad)
  ]

  pub pure-Outcome :
      (t : Tally) (c d : Client) → Evolves c d → ArePinned t.senders d.store → OutcomeOf c (ok t, d)
  pure-Outcome t c d h pinned =
      (h, λ t' e. let same : t ≡ t' = cc e in subst (λ q. ArePinned q.senders d.store) same pinned)
