-- ===== src/LocalStore/History.antt =====
-- Any sequence of calls of the methods of LocalStore, whichever of their statements fail.
use eternal_blue.Prelude.{
  Bytes, ◌==◌, true, none, some, List, [], ◌≡◌, ◌⊎◌, inl, inr, refl, Bytes-tested, Bool-cases,
  arith, c_text,
}
use eternal_blue.Prelude.Exec.{ok}
use eternal_blue.Message.{Message}
use eternal_blue.User.{User}
use eternal_blue.LocalStore.Statement.{Row, LocalStore}
use eternal_blue.LocalStore.Defs.{
  saved_row, insert_or_ignore, update_where, delete_row, revoke_row, save_message, get_message,
  list_messages, mark_deleted, is_live, row_to_message, stored, mark_revoked, save_pin, get_pin,
}
use eternal_blue.LocalStore.Tables.{
  IsKeyed, find_row, shown, find_row-update_where, delete_row-KeepsId, revoke_row-KeepsId, KeepsId,
  update_where-IsKeyed, insert_or_ignore-IsKeyed, find_row-insert_or_ignore,
}
use eternal_blue.LocalStore.Messages.{NoFaults, get_message_lem, tombstone}

-- One call of a method, failing or not.
pub data Step (s t : LocalStore) : Type 0 where
  saves : (m : Message) → t ≡ (save_message m s).1 → Step s t
  gets : (id : Bytes) → t ≡ (get_message id s).1 → Step s t
  lists : t ≡ (list_messages s).1 → Step s t
  deletes : (id : Bytes) → t ≡ (mark_deleted id s).1 → Step s t
  revokes : (id : Bytes) → t ≡ (mark_revoked id s).1 → Step s t
  pins : (u : User) → t ≡ (save_pin u s).1 → Step s t
  gets_pin : (name : Bytes) → t ≡ (get_pin name s).1 → Step s t

pub data History (s : LocalStore) : LocalStore → Type 0 where
  here : History s s
  next : {t u : LocalStore} → History s t → Step t u → History s u

pub History-trans : {s t u : LocalStore} → History s t → History t u → History s u
History-trans h here = h
History-trans h (next k e) = next (History-trans h k) e

-- What a call may do to the rows: nothing, an INSERT OR IGNORE, or one of the two UPDATEs.
data RowChange (old new : List Row) : Type 0 where
  unchanged : new ≡ old → RowChange old new
  inserted : (m : Message) → new ≡ insert_or_ignore (saved_row m) old → RowChange old new
  deleted : (id : Bytes) → new ≡ update_where id delete_row old → RowChange old new
  revoked : (id : Bytes) → new ≡ update_where id revoke_row old → RowChange old new

-- A failing statement leaves every table as it was.
pub save_message_rows :
    (m : Message) (s : LocalStore)
    → ((save_message m s).1.messages ≡ s.messages)
      ⊎ ((save_message m s).1.messages ≡ insert_or_ignore (saved_row m) s.messages)
unfolding save_message
save_message_rows m s = ground arith

pub mark_deleted_rows :
    (id : Bytes) (s : LocalStore)
    → ((mark_deleted id s).1.messages ≡ s.messages)
      ⊎ ((mark_deleted id s).1.messages ≡ update_where (c_text id) delete_row s.messages)
unfolding mark_deleted
mark_deleted_rows id s = ground arith

pub mark_revoked_rows :
    (id : Bytes) (s : LocalStore)
    → ((mark_revoked id s).1.messages ≡ s.messages)
      ⊎ ((mark_revoked id s).1.messages ≡ update_where (c_text id) revoke_row s.messages)
unfolding mark_revoked
mark_revoked_rows id s = ground arith

Step-RowChange : {s t : LocalStore} → Step s t → RowChange s.messages t.messages
unfolding get_message list_messages save_pin get_pin
Step-RowChange {s} (saves m e) =
    rw e (elim (save_message_rows m s) [ inl same ↦ unchanged same | inr new ↦ inserted m new ])
Step-RowChange (gets id e) = unchanged (ground arith)
Step-RowChange (lists e) = unchanged (ground arith)
Step-RowChange {s} (deletes id e) = rw e (elim (mark_deleted_rows id s) [
  | inl same ↦ unchanged same
  | inr new ↦ deleted (c_text id) new
])
Step-RowChange {s} (revokes id e) = rw e (elim (mark_revoked_rows id s) [
  | inl same ↦ unchanged same
  | inr new ↦ revoked (c_text id) new
])
Step-RowChange (pins u e) = unchanged (ground arith)
Step-RowChange (gets_pin name e) = unchanged (ground arith)

RowChange-IsKeyed : {old new : List Row} → RowChange old new → IsKeyed old → IsKeyed new
RowChange-IsKeyed (unchanged e) k = rw e k
RowChange-IsKeyed {old} (inserted m e) k = rw e (insert_or_ignore-IsKeyed (saved_row m) old k)
RowChange-IsKeyed {old} (deleted id e) k =
    rw e (update_where-IsKeyed id delete_row old delete_row-KeepsId k)
RowChange-IsKeyed {old} (revoked id e) k =
    rw e (update_where-IsKeyed id revoke_row old revoke_row-KeepsId k)

-- No sequence of calls ever puts two rows under one id.
pub History-IsKeyed : {s t : LocalStore} → History s t → IsKeyed s.messages → IsKeyed t.messages
History-IsKeyed here k = k
History-IsKeyed (next h st) k = RowChange-IsKeyed (Step-RowChange st) (History-IsKeyed h k)

-- How a row may have changed: its message is the same, or its tombstone, and it stays deleted.
pub record Later (a b : Row) : Type 0 where
  pub message : (b.message ≡ a.message) ⊎ (b.message ≡ tombstone a.message)
  pub deleted : a.deleted ≡ true → b.deleted ≡ true

pub Later-refl : (a : Row) → Later a a
Later-refl a = record { message = inl refl; deleted = λ h. h }

pub Later-trans : (a b c : Row) → Later a b → Later b c → Later a c
Later-trans a b c p q = record {
  message = ground (arith, p.message, q.message);
  deleted = λ h. q.deleted (p.deleted h);
}

pub delete_row-Later : (a : Row) → Later a (delete_row a)
unfolding delete_row
delete_row-Later a = record { message = inl refl; deleted = λ h. refl }

pub revoke_row-Later : (a : Row) → Later a (revoke_row a)
unfolding revoke_row
revoke_row-Later a = record { message = inr refl; deleted = λ h. h }

abbrev Kept : Bytes → Row → List Row → Type 0
Kept id a rows = (b : Row) × (find_row id rows ≡ some b) × Later a b

update_where-Kept :
    (id j : Bytes) (f : Row → Row) (rows : List Row) (a : Row)
    → KeepsId f
    → ((r : Row) → Later r (f r))
    → find_row j rows ≡ some a
    → Kept j a (update_where id f rows)
update_where-Kept id j f rows a k later h = elim (Bool-cases (id == j)) [
  | inl e ↦ (f a, rw (find_row-update_where id j f rows k) (rw (e, h)), later a)
  | inr e ↦ (a, rw (find_row-update_where id j f rows k) (rw e h), Later-refl a)
]

RowChange-Kept :
    {old new : List Row} (id : Bytes) (a : Row)
    → RowChange old new
    → find_row id old ≡ some a
    → Kept id a new
RowChange-Kept id a (unchanged e) h = rw e (a, h, Later-refl a)
RowChange-Kept {old} id a (inserted m e) h =
    rw e (a, find_row-insert_or_ignore id (saved_row m) a old h, Later-refl a)
RowChange-Kept {old} id a (deleted j e) h =
    rw e (update_where-Kept j id delete_row old a delete_row-KeepsId delete_row-Later h)
RowChange-Kept {old} id a (revoked j e) h =
    rw e (update_where-Kept j id revoke_row old a revoke_row-KeepsId revoke_row-Later h)

-- Rows are never lost or overwritten: after any sequence of calls the row of an id is still there,
-- with the message that it had or its tombstone, and deleted if it was deleted.
pub History-Later :
    {s t : LocalStore} (id : Bytes) (a : Row)
    → History s t
    → find_row id s.messages ≡ some a
    → (b : Row) × (find_row id t.messages ≡ some b) × Later a b
History-Later id a here h = (a, h, Later-refl a)
History-Later id a (next hist st) h =
    let (b, found, p) = History-Later id a hist h in
    let (c, found', q) = RowChange-Kept id b (Step-RowChange st) found in
    (c, found', Later-trans a b c p q)

module _ {s t : LocalStore} (id : Bytes) (a : Row) (hist : History s t) (keyed : IsKeyed s.messages)
    (n : NoFaults t) (found : find_row (c_text id) s.messages ≡ some a) where
  -- Once an id is marked as deleted, get_message finds nothing under it, whatever was called since.
  pub deleted_for_good : a.deleted ≡ true → (get_message id t).0 ≡ ok none
  unfolding shown is_live
  deleted_for_good gone =
      let (b, found', p) = History-Later (c_text id) a hist found in
      rw (get_message_lem id t n (History-IsKeyed hist keyed))
        (rw found' (ground (arith, p.deleted gone)))

  pub revoked_for_good :
      a.message.revoked ≡ true
      → a.message.plaintext ≡ []
      → (m : Message) → (get_message id t).0 ≡ ok (some m)
      → (m.revoked ≡ true) × (m.plaintext ≡ [])
  unfolding shown is_live row_to_message stored c_text
  revoked_for_good rev empty m got =
      let (b, found', p) = History-Later (c_text id) a hist found in
      let shows : ok (shown (some b)) ≡ ok (some m) =
        rw (get_message_lem id t n (History-IsKeyed hist keyed), found') at got in
      ground (arith, p.message, shows)
