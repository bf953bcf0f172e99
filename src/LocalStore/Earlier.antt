-- ===== src/LocalStore/Earlier.antt =====
-- Where a row of the messages table comes from.
use eternal_blue.Prelude.{
  Bytes, ◌==◌, Bool, true, false, Option, none, some, List, [], ◌∷◌, ◌++◌, ◌≡◌, ◌⊎◌, inl, inr, refl,
  Bytes-tested, arith, c_text, if◌then◌else◌, subst,
}
use mathlib.Core.Option
use eternal_blue.Prelude.Text.{bytes_beq_iff}
use eternal_blue.Message.{Message}
use eternal_blue.LocalStore.Statement.{Row, LocalStore}
use eternal_blue.LocalStore.Defs.{
  stored, saved_row, insert_or_ignore, update_where, delete_row, revoke_row, save_message,
  get_message, list_messages, save_pin, get_pin,
}
use eternal_blue.LocalStore.Tables.{
  find_row, find_row-update_where, delete_row-KeepsId, revoke_row-KeepsId, KeepsId,
}
use eternal_blue.LocalStore.History.{
  Step, saves, gets, lists, deletes, revokes, pins, gets_pin, Later, Later-refl, delete_row-Later,
  revoke_row-Later, save_message_rows, mark_deleted_rows, mark_revoked_rows,
}

-- Whether a call saves a message.
abbrev pub is_save : {s t : LocalStore} → Step s t → Bool
is_save (saves m e) = true
is_save _ = false

-- The row of an id was among the old ones, and became b.
abbrev pub Earlier : Bytes → Row → List Row → Type 0
Earlier id b old = (a : Row) × (find_row id old ≡ some a) × Later a b

find_row-append-none :
    (id : Bytes) (r b : Row) (rows : List Row)
    → find_row id (rows ++ r ∷ []) ≡ some b
    → (find_row id rows ≡ some b) ⊎ ((r.message.message_id ≡ id) × (b ≡ r))
unfolding find_row
find_row-append-none id r b [] h = ground (arith, h, bytes_beq_iff r.message.message_id id)
find_row-append-none id r b (q ∷ rows) h = ground (arith, h, find_row-append-none id r b rows)

find_row-inserted :
    (id : Bytes) (r b : Row) (rows : List Row)
    → find_row id (insert_or_ignore r rows) ≡ some b
    → (find_row id rows ≡ some b) ⊎ ((r.message.message_id ≡ id) × (b ≡ r))
unfolding insert_or_ignore
find_row-inserted id r b rows h = ground (arith, h, find_row-append-none id r b rows)

-- A row that is found after save_message was there, or is the row of the message.
pub save_message-Earlier :
    (id : Bytes) (m : Message) (b : Row) (s : LocalStore)
    → find_row id (save_message m s).1.messages ≡ some b
    → (find_row id s.messages ≡ some b) ⊎ ((c_text m.message_id ≡ id) × (b ≡ saved_row m))
unfolding saved_row stored
save_message-Earlier id m b s h = elim (save_message_rows m s) [
  | inl same ↦ inl (rw same at h)
  | inr new ↦ find_row-inserted id (saved_row m) b s.messages (rw new at h)
]

updated-Earlier :
    (id : Bytes) (f : Row → Row) (b : Row) (r : Option Row) (hit : Bool)
    → ((a : Row) → Later a (f a))
    → (if hit then Option.map f r else r) ≡ some b
    → (a : Row) × (r ≡ some a) × Later a b
updated-Earlier id f b (some a) true later h =
    let became : f a ≡ b = cc in (a, refl, subst (Later a) became (later a))
updated-Earlier id f b (some a) false later h = (b, h, Later-refl b)
updated-Earlier id f b none true later h = cc
updated-Earlier id f b none false later h = cc

update_where-Earlier :
    (id j : Bytes) (f : Row → Row) (b : Row) (rows : List Row)
    → KeepsId f
    → ((a : Row) → Later a (f a))
    → find_row id (update_where j f rows) ≡ some b
    → Earlier id b rows
update_where-Earlier id j f b rows keeps later h =
    updated-Earlier id f b (find_row id rows) (j == id) later
      (rw (find_row-update_where j id f rows keeps) at h)

-- After any other call, a row that is found was there, as it is now or before its change.
pub Step-Earlier :
    {s t : LocalStore} (id : Bytes) (b : Row) (st : Step s t)
    → is_save st ≡ false
    → find_row id t.messages ≡ some b
    → Earlier id b s.messages
unfolding get_message list_messages save_pin get_pin
Step-Earlier id b (saves m e) no_save h = cc
Step-Earlier id b (gets i e) no_save h = (b, ground (arith, e, h), Later-refl b)
Step-Earlier id b (lists e) no_save h = (b, ground (arith, e, h), Later-refl b)
Step-Earlier {s} id b (deletes i e) no_save h = elim (mark_deleted_rows i s) [
  | inl same ↦ (b, (rw (e, same) at h), Later-refl b)
  | inr new ↦
      update_where-Earlier id (c_text i) delete_row b s.messages delete_row-KeepsId delete_row-Later
        (rw (e, new) at h)
]
Step-Earlier {s} id b (revokes i e) no_save h = elim (mark_revoked_rows i s) [
  | inl same ↦ (b, (rw (e, same) at h), Later-refl b)
  | inr new ↦
      update_where-Earlier id (c_text i) revoke_row b s.messages revoke_row-KeepsId revoke_row-Later
        (rw (e, new) at h)
]
Step-Earlier id b (pins u e) no_save h = (b, ground (arith, e, h), Later-refl b)
Step-Earlier id b (gets_pin name e) no_save h = (b, ground (arith, e, h), Later-refl b)
