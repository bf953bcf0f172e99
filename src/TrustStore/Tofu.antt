-- ===== src/TrustStore/Tofu.antt =====
-- Trust on first use: the key that was pinned first is the only one that is ever accepted.
use eternal_blue.Prelude.{
  Bytes, ◌==◌, Option, none, some, List, [], ◌∷◌, ◌≡◌, inl, inr, refl, ap, sym, ◌∙◌, Bytes-tested,
  ℕ-tested, arith, c_text, bytes_beq_iff, bytes_beq_refl, Bool-cases,
}
use eternal_blue.Prelude.Exec.{ok, err, pure, bind-keeps, bind-eq-ok, bind_ok, bind_err}
use eternal_blue.Sodium.{Sodium}
use eternal_blue.User.{User}
use eternal_blue.LocalStore.{LocalStore, get_pin, save_pin, select_pin, check_pin, saved_pin}
use eternal_blue.LocalStore.Pins.{save_pin-cases, get_pin-cases, select_pin-insert_or_replace}
use eternal_blue.TrustStore.Defs.{decide_pin, lookup_or_pin}

-- The key pinned under a username, as a lookup sees it.
abbrev pub pinned_key : Bytes → LocalStore → Option User
pinned_key name s = select_pin (c_text name) s.pinned_keys

check_pin-eq_some :
    (o : Option User) (p : User)
    → check_pin o ≡ ok (some p)
    → (q : User) × (o ≡ some q) × (p.public_key ≡ q.public_key)
unfolding check_pin saved_pin
check_pin-eq_some none p h = cc
check_pin-eq_some (some q) p h = (q, refl, ground arith)

check_pin-eq_none : (o : Option User) → check_pin o ≡ ok none → o ≡ none
unfolding check_pin
check_pin-eq_none none h = refl
check_pin-eq_none (some q) h = ground arith

-- save_pin of a user whose name has no pin keeps every other pin.
save_pin-keeps :
    (u : User) (s : LocalStore) (name : Bytes) (p : User)
    → pinned_key u.username s ≡ none
    → pinned_key name s ≡ some p
    → pinned_key name (save_pin u s).1 ≡ some p
unfolding saved_pin
save_pin-keeps u s name p free h = elim (save_pin-cases u s) [
  | inl (_, saved) ↦
      rw (saved, select_pin-insert_or_replace (c_text name) (saved_pin u) s.pinned_keys)
        (ground (arith, bytes_beq_iff (c_text u.username) (c_text name)))
  | inr (e, _, same) ↦ rw same h
]

module _ ⦃sodium : Sodium⦄ where
  decide_pin-keeps :
      (u : User) (o : Option User) (s : LocalStore) (name : Bytes) (p : User)
      → (o ≡ none → pinned_key u.username s ≡ none)
      → pinned_key name s ≡ some p
      → pinned_key name (decide_pin u o s).1 ≡ some p
  unfolding decide_pin
  decide_pin-keeps u none s name p free h =
      bind-keeps (λ t. pinned_key name t ≡ some p) (save_pin u) (λ _. pure u) s
        (save_pin-keeps u s name p (free refl) h) (λ a e. save_pin-keeps u s name p (free refl) h)
  decide_pin-keeps u (some q) s name p free h = ground arith

  got_none :
      (u : User) (s : LocalStore)
      → (get_pin u.username s).0 ≡ ok none
      → pinned_key u.username s ≡ none
  got_none u s got = elim (get_pin-cases u.username s).1 [
    | inl e ↦ check_pin-eq_none (pinned_key u.username s) (sym e ∙ got)
    | inr (e, failed) ↦ cc
  ]

  got_some :
      (u q : User) (s : LocalStore)
      → (get_pin u.username s).0 ≡ ok (some q)
      → (p : User) × (pinned_key u.username s ≡ some p) × (q.public_key ≡ p.public_key)
  got_some u q s got = elim (get_pin-cases u.username s).1 [
    | inl e ↦ check_pin-eq_some (pinned_key u.username s) q (sym e ∙ got)
    | inr (e, failed) ↦ cc
  ]

  -- A lookup, accepted or not, and whichever statements fail, changes no pin that is there.
  pub lookup_or_pin-keeps :
      (u : User) (s : LocalStore) (name : Bytes) (p : User)
      → pinned_key name s ≡ some p
      → pinned_key name (lookup_or_pin u s).1 ≡ some p
  unfolding lookup_or_pin
  lookup_or_pin-keeps u s name p h =
      let (same, end) = get_pin-cases u.username s in
      bind-keeps (λ t. pinned_key name t ≡ some p) (get_pin u.username) (decide_pin u) s (rw same h)
        λ o got.
          decide_pin-keeps u o (get_pin u.username s).1 name p
            (λ e. rw same (got_none u s (rw e at got))) (rw same h)

  -- The store after a sequence of lookups, of whatever users.
  abbrev pub after_lookups : List User → LocalStore → LocalStore
  after_lookups [] s = s
  after_lookups (u ∷ us) s = after_lookups us (lookup_or_pin u s).1

  after_lookups-keeps :
      (us : List User) (s : LocalStore) (name : Bytes) (p : User)
      → pinned_key name s ≡ some p
      → pinned_key name (after_lookups us s) ≡ some p
  after_lookups-keeps [] s name p h = h
  after_lookups-keeps (u ∷ us) s name p h =
      after_lookups-keeps us (lookup_or_pin u s).1 name p (lookup_or_pin-keeps u s name p h)

  abbrev Accepts : User → User → LocalStore → Type 0
  Accepts u a t =
      (a.public_key ≡ u.public_key)
      × ((p : User) × (pinned_key u.username t ≡ some p) × (p.public_key ≡ u.public_key))

  decide_pin-Accepts :
      (u a : User) (o : Option User) (s : LocalStore)
      → ((q : User)
          → o ≡ some q
          → (p : User) × (pinned_key u.username s ≡ some p) × (q.public_key ≡ p.public_key))
      → (decide_pin u o s).0 ≡ ok a
      → Accepts u a (decide_pin u o s).1
  unfolding decide_pin saved_pin
  decide_pin-Accepts u a none s there h = elim (save_pin-cases u s) [
    | inl (done, saved) ↦
        let same : ok u ≡ ok a =
          sym (ap (λ r. r.0) (bind_ok (save_pin u) (λ _. pure u) s tt done)) ∙ h in
        rw
          (
            bind_ok (save_pin u) (λ _. pure u) s tt done,
            saved,
            select_pin-insert_or_replace (c_text u.username) (saved_pin u) s.pinned_keys,
          )
          (ground (arith, same), (saved_pin u, rw (bytes_beq_refl (c_text u.username)), refl))
    | inr (e, failed, _) ↦
        let no : err e ≡ ok a =
          sym (ap (λ r. r.0) (bind_err (save_pin u) (λ _. pure u) s e failed)) ∙ h in
        cc no
  ]
  decide_pin-Accepts u a (some q) s there h =
      let (p, pinned, same) = there q refl in
      elim (Bool-cases (q.public_key == u.public_key)) [
        | inl eq ↦ rw eq (
          ground (arith, bytes_beq_iff q.public_key u.public_key),
          (p, pinned, ground (arith, bytes_beq_iff q.public_key u.public_key)),
        )
        | inr ne ↦ ground arith
      ]

  -- An accepted user has the key that was fetched, and that key is pinned under the name.
  pub lookup_or_pin_accepted :
      (u a : User) (s : LocalStore)
      → (lookup_or_pin u s).0 ≡ ok a
      → Accepts u a (lookup_or_pin u s).1
  unfolding lookup_or_pin
  lookup_or_pin_accepted u a s h =
      let (o, got, decided) = bind-eq-ok (get_pin u.username) (decide_pin u) s a h in
      let (same, _) = get_pin-cases u.username s in
      rw (bind_ok (get_pin u.username) (decide_pin u) s o got) (
        decide_pin-Accepts u a o (get_pin u.username s).1
          (λ q e. rw same (got_some u q s (rw e at got))) decided)

  -- The first key that was accepted under a username is the only one that any later lookup under
  -- that username accepts, whatever lookups came between and whichever statements failed.
  pub one_key_per_name :
      (u v a b : User) (us : List User) (s : LocalStore)
      → (lookup_or_pin u s).0 ≡ ok a
      → (lookup_or_pin v (after_lookups us (lookup_or_pin u s).1)).0 ≡ ok b
      → u.username ≡ v.username
      → a.public_key ≡ b.public_key
  one_key_per_name u v a b us s first later same =
      let mid = after_lookups us (lookup_or_pin u s).1 in
      let (ka, (p, pinned, kp)) = lookup_or_pin_accepted u a s first in
      let (kb, (q, pinned', kq)) = lookup_or_pin_accepted v b mid later in
      let kept =
        lookup_or_pin-keeps v mid u.username p
          (after_lookups-keeps us (lookup_or_pin u s).1 u.username p pinned) in
      cc (ka, kp, kb, kq, kept, pinned', ap (λ n. pinned_key n (lookup_or_pin v mid).1) same)
