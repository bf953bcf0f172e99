-- ===== src/LocalStore/Pins.antt =====
-- The pinned keys: what get_pin returns after save_pin, and what the other methods leave alone.
use eternal_blue.Prelude.{
  Bytes, codes, ap, inl, inr, ◌==◌, not, Option, none, some, List, [], ◌∷◌, ◌++◌, ◌≡◌, refl,
  if◌then◌else◌, Bytes-tested, ℕ-tested, bytes_beq_iff, arith, c_text, keep, length, c_text-c_text,
  ◌⊎◌,
}
use eternal_blue.Prelude.Exec.{Error, ok, err, ◌>>◌}
use eternal_blue.User.{User}
use eternal_blue.Message.{Message}
use eternal_blue.LocalStore.Statement.{LocalStore}
use eternal_blue.LocalStore.Defs.{
  insert_or_replace, select_pin, check_pin, saved_pin, save_pin, get_pin, save_message, get_message,
  mark_deleted, mark_revoked,
}
use eternal_blue.LocalStore.Messages.{NoFaults}
use eternal_blue.LocalStore.Statement.{statement-cases}

select_pin-append :
    (name : Bytes) (u : User) (pins : List User)
    → select_pin name (pins ++ u ∷ []) ≡ (elim (select_pin name pins) [
      | none ↦ if u.username == name then some u else none
      | some p ↦ some p
    ])
unfolding select_pin
select_pin-append name u [] = refl
select_pin-append name u (p ∷ pins) = ground (arith, select_pin-append name u pins)

select_pin-keep :
    (name : Bytes) (u : User) (pins : List User)
    → select_pin name (keep (λ p. not (p.username == u.username)) pins)
      ≡ (if u.username == name then none else select_pin name pins)
unfolding select_pin
select_pin-keep name u [] = ground arith
select_pin-keep name u (p ∷ pins) = ground (
  arith,
  select_pin-keep name u pins,
  bytes_beq_iff p.username u.username,
  bytes_beq_iff p.username name,
  bytes_beq_iff u.username name,
)

pub select_pin-insert_or_replace :
    (name : Bytes) (u : User) (pins : List User)
    → select_pin name (insert_or_replace u pins)
      ≡ (if u.username == name then some u else select_pin name pins)
unfolding insert_or_replace
select_pin-insert_or_replace name u pins = ground (
  arith,
  select_pin-append name u (keep (λ p. not (p.username == u.username)) pins),
  select_pin-keep name u pins,
)

module _ (s : LocalStore) (n : NoFaults s) where
  pub save_pin_lem :
      (u : User)
      → save_pin u s
        ≡ (ok tt, record s { pinned_keys = insert_or_replace (saved_pin u) s.pinned_keys })
  unfolding save_pin
  save_pin_lem u = ground arith

  pub get_pin_lem :
      (name : Bytes) → get_pin name s ≡ (check_pin (select_pin (c_text name) s.pinned_keys), s)
  unfolding get_pin
  get_pin_lem name = ground arith

found :
    (u : User) (name : Bytes) (other : Option User)
    → length u.public_key ≡ 32
    → check_pin (if (saved_pin u).username == c_text name then some (saved_pin u) else other)
      ≡ (if c_text u.username == c_text name then ok (some (saved_pin u)) else check_pin other)
unfolding check_pin saved_pin
found u name other sized = ground (arith, c_text-c_text u.username, c_text-c_text u.user_id)

-- After save_pin of a user with a 32-byte key, get_pin of that username returns the user, and of
-- any other what it returned before.
pub get_pin-save_pin :
    (u : User) (name : Bytes) (s : LocalStore)
    → NoFaults s
    → length u.public_key ≡ 32
    → ((save_pin u >> get_pin name) s).0
      ≡ (if c_text u.username == c_text name then ok (some (saved_pin u)) else (get_pin name s).0)
get_pin-save_pin u name s n sized =
    let after = record s { pinned_keys = insert_or_replace (saved_pin u) s.pinned_keys } in
    rw (save_pin_lem s n u) (
      rw
        (
          get_pin_lem after n name,
          select_pin-insert_or_replace (c_text name) (saved_pin u) s.pinned_keys,
        )
        (rw (get_pin_lem s n name) (found u name (select_pin (c_text name) s.pinned_keys) sized)))

-- How save_pin and get_pin may end, failing statements included.
pub save_pin-cases :
    (u : User) (s : LocalStore)
    → ((save_pin u s).0 ≡ ok tt)
        × ((save_pin u s).1.pinned_keys ≡ insert_or_replace (saved_pin u) s.pinned_keys)
      ⊎ ((e : Error) × ((save_pin u s).0 ≡ err e) × ((save_pin u s).1.pinned_keys ≡ s.pinned_keys))
unfolding save_pin
save_pin-cases u s =
    let (rest, end) = statement-cases (codes "save_pin") _ s in
    elim end [
      | inl ran ↦ inl (ap (λ r. r.0) ran, ap (λ r. r.1.pinned_keys) ran)
      | inr (e, failed) ↦ inr (e, ap (λ r. r.0) failed, ap (λ r. r.1.pinned_keys) failed)
    ]

pub get_pin-cases :
    (name : Bytes) (s : LocalStore)
    → ((get_pin name s).1.pinned_keys ≡ s.pinned_keys)
      × (((get_pin name s).0 ≡ check_pin (select_pin (c_text name) s.pinned_keys))
          ⊎ ((e : Error) × ((get_pin name s).0 ≡ err e)))
unfolding get_pin
get_pin-cases name s =
    let (rest, end) = statement-cases (codes "get_pin") _ s in
    elim end [
      | inl ran ↦ (ap (λ r. r.1.pinned_keys) ran, inl (ap (λ r. r.0) ran))
      | inr (e, failed) ↦ (ap (λ r. r.1.pinned_keys) failed, inr (e, ap (λ r. r.0) failed))
    ]

-- The methods on messages, failing or not, leave the pins alone.
module _ (s : LocalStore) where
  pub save_message-pins : (m : Message) → (save_message m s).1.pinned_keys ≡ s.pinned_keys
  unfolding save_message
  save_message-pins m = ground arith

  pub get_message-pins : (id : Bytes) → (get_message id s).1.pinned_keys ≡ s.pinned_keys
  unfolding get_message
  get_message-pins id = ground arith

  pub mark_deleted-pins : (id : Bytes) → (mark_deleted id s).1.pinned_keys ≡ s.pinned_keys
  unfolding mark_deleted
  mark_deleted-pins id = ground arith

  pub mark_revoked-pins : (id : Bytes) → (mark_revoked id s).1.pinned_keys ≡ s.pinned_keys
  unfolding mark_revoked
  mark_revoked-pins id = ground arith
