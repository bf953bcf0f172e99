-- ===== src/LocalStore/Tables.antt =====
-- What the statements on `messages` do to the row of an id, whether it is deleted or not.
use eternal_blue.Prelude.{
  Bytes, ◌==◌, false, Option, none, some, List, [], ◌∷◌, ◌++◌, ◌≡◌, refl, if◌then◌else◌,
  Bytes-tested, bytes_beq_iff, arith, ◌||◌,
}
use eternal_blue.Message.{Message}
use eternal_blue.LocalStore.Statement.{Row}
use eternal_blue.LocalStore.Defs.{
  has_id, insert_or_ignore, select_live, update_where, delete_row, revoke_row, row_to_message,
  is_live,
}
use mathlib.Core.Option

-- The first row with an id.
unfoldable pub find_row : Bytes → List Row → Option Row
find_row id [] = none
find_row id (r ∷ rows) = if r.message.message_id == id then some r else find_row id rows

-- PRIMARY KEY: no two rows share an id.
abbrev pub IsKeyed : List Row → Type 0
IsKeyed [] = Unit
IsKeyed (r ∷ rows) = (has_id r.message.message_id rows ≡ false) × IsKeyed rows

-- A row change that the WHERE clause cannot notice.
abbrev pub KeepsId : (Row → Row) → Type 0
KeepsId f = (r : Row) → (f r).message.message_id ≡ r.message.message_id

pub delete_row-KeepsId : KeepsId delete_row
unfolding delete_row
delete_row-KeepsId r = refl

pub revoke_row-KeepsId : KeepsId revoke_row
unfolding revoke_row
revoke_row-KeepsId r = refl

pub find_row-update_where :
    (id j : Bytes) (f : Row → Row) (rows : List Row)
    → KeepsId f
    → find_row j (update_where id f rows)
      ≡ (if id == j then Option.map f (find_row j rows) else find_row j rows)
unfolding find_row update_where
find_row-update_where id j f [] h = ground arith
find_row-update_where id j f (r ∷ rows) h = ground (
  arith,
  h r,
  find_row-update_where id j f rows h,
  bytes_beq_iff r.message.message_id id,
  bytes_beq_iff r.message.message_id j,
  bytes_beq_iff (f r).message.message_id j,
  bytes_beq_iff id j,
)

pub find_row-append :
    (j : Bytes) (r q : Row) (rows : List Row)
    → find_row j rows ≡ some q
    → find_row j (rows ++ r ∷ []) ≡ some q
unfolding find_row
find_row-append j r q [] h = cc
find_row-append j r q (p ∷ rows) h = ground (arith, find_row-append j r q rows)

pub find_row-insert_or_ignore :
    (j : Bytes) (r q : Row) (rows : List Row)
    → find_row j rows ≡ some q
    → find_row j (insert_or_ignore r rows) ≡ some q
unfolding insert_or_ignore
find_row-insert_or_ignore j r q rows h = ground (arith, find_row-append j r q rows)

has_id-update_where :
    (id j : Bytes) (f : Row → Row) (rows : List Row)
    → KeepsId f
    → has_id j (update_where id f rows) ≡ has_id j rows
unfolding has_id update_where
has_id-update_where id j f [] h = refl
has_id-update_where id j f (r ∷ rows) h = ground (arith, h r, has_id-update_where id j f rows h)

pub update_where-IsKeyed :
    (id : Bytes) (f : Row → Row) (rows : List Row)
    → KeepsId f
    → IsKeyed rows
    → IsKeyed (update_where id f rows)
unfolding update_where
update_where-IsKeyed id f [] h k = tt
update_where-IsKeyed id f (r ∷ rows) h k = ground (
  arith,
  h r,
  update_where-IsKeyed id f rows h,
  has_id-update_where id r.message.message_id f rows h,
)

has_id-append :
    (j : Bytes) (r : Row) (rows : List Row)
    → has_id j (rows ++ r ∷ []) ≡ (has_id j rows || r.message.message_id == j)
unfolding has_id
has_id-append j r [] = ground arith
has_id-append j r (q ∷ rows) = ground (arith, has_id-append j r rows)

append-IsKeyed :
    (r : Row) (rows : List Row)
    → has_id r.message.message_id rows ≡ false
    → IsKeyed rows
    → IsKeyed (rows ++ r ∷ [])
unfolding has_id
append-IsKeyed r [] h k = (refl, tt)
append-IsKeyed r (q ∷ rows) h k = ground (
  arith,
  append-IsKeyed r rows,
  has_id-append q.message.message_id r rows,
  bytes_beq_iff q.message.message_id r.message.message_id,
  bytes_beq_iff r.message.message_id q.message.message_id,
)

pub insert_or_ignore-IsKeyed :
    (r : Row) (rows : List Row) → IsKeyed rows → IsKeyed (insert_or_ignore r rows)
unfolding insert_or_ignore
insert_or_ignore-IsKeyed r rows k = ground (arith, append-IsKeyed r rows)

-- What get_message shows of a row.
unfoldable pub shown : Option Row → Option Message
unfolding row_to_message is_live
shown none = none
shown (some r) = if is_live r then some (row_to_message r) else none

pub find_row-has_id :
    (id : Bytes) (rows : List Row) → has_id id rows ≡ false → find_row id rows ≡ none
unfolding has_id find_row
find_row-has_id id [] h = refl
find_row-has_id id (r ∷ rows) h = ground (arith, find_row-has_id id rows)

select_live-none :
    (id : Bytes) (rows : List Row) → has_id id rows ≡ false → select_live id rows ≡ none
unfolding has_id select_live
select_live-none id [] h = refl
select_live-none id (r ∷ rows) h = ground (arith, select_live-none id rows)

-- With unique ids, the SELECT shows the row of the id, if that is live.
pub select_live-shown :
    (id : Bytes) (rows : List Row) → IsKeyed rows → select_live id rows ≡ shown (find_row id rows)
unfolding select_live find_row shown
select_live-shown id [] k = refl
select_live-shown id (r ∷ rows) k = ground (
  arith,
  select_live-shown id rows,
  select_live-none id rows,
  bytes_beq_iff r.message.message_id id,
)

pub find_row-append_self :
    (r : Row) (rows : List Row)
    → has_id r.message.message_id rows ≡ false
    → find_row r.message.message_id (rows ++ r ∷ []) ≡ some r
unfolding find_row has_id
find_row-append_self r [] h =
    ground (arith, bytes_beq_iff r.message.message_id r.message.message_id)
find_row-append_self r (q ∷ rows) h = ground (arith, find_row-append_self r rows)
