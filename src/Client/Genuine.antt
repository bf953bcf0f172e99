-- ===== src/Client/Genuine.antt =====
-- Where the rows of the database come from.
use eternal_blue.Prelude.{Bytes, some, ◌≡◌, inl, inr, sym, subst, c_text}
use eternal_blue.Sodium.{Sodium}
use eternal_blue.Message.{Message}
use eternal_blue.LocalStore.{Row, saved_row}
use eternal_blue.LocalStore.Tables.{find_row}
use eternal_blue.LocalStore.History.{Later, Later-refl, Later-trans}
use eternal_blue.LocalStore.Earlier.{save_message-Earlier, Step-Earlier}
use eternal_blue.HttpClient.{Internet}
use eternal_blue.Client.State.{Client}
use eternal_blue.Client.Evolves.{
  IsGenuine, requests, takes_token, saves_message, stores, keeps_key, draws, reads_clock, writes,
  reads_line, reads_end, sets_session, Evolves, same, more,
}

-- A row under an id was there at first, or is that of a genuine message that was saved since. It may
-- have been marked as deleted or revoked later.
pub data Origin ⦃internet : Internet⦄ ⦃sodium : Sodium⦄ (c : Client) (id : Bytes) (b : Row)
    : Type 0 where
  was_there : (a : Row) → find_row id c.store.messages ≡ some a → Later a b → Origin c id b
  was_saved :
      (d : Client) (m : Message)
      → Evolves c d
      → IsGenuine d m
      → c_text m.message_id ≡ id
      → Later (saved_row m) b
      → Origin c id b

module _ ⦃internet : Internet⦄ ⦃sodium : Sodium⦄ where
  Origin-Later : {c : Client} (id : Bytes) (a b : Row) → Origin c id a → Later a b → Origin c id b
  Origin-Later id a b (was_there r found l) k = was_there r found (Later-trans r a b l k)
  Origin-Later id a b (was_saved d m p genuine named l) k =
      was_saved d m p genuine named (Later-trans (saved_row m) a b l k)

  pub Evolves-Origin :
      {c e : Client} (id : Bytes) (b : Row)
      → Evolves c e
      → find_row id e.store.messages ≡ some b
      → Origin c id b
  Evolves-Origin id b same h = was_there b h (Later-refl b)
  Evolves-Origin id b (more p (requests method path body e)) h = Evolves-Origin id b p (rw e at h)
  Evolves-Origin id b (more p (takes_token token e)) h = Evolves-Origin id b p (rw e at h)
  Evolves-Origin id b (more {d} p (saves_message m genuine e)) h =
      elim (save_message-Earlier id m b d.store (rw e at h)) [
        | inl there ↦ Evolves-Origin id b p there
        | inr (named, is_new) ↦
            was_saved d m p genuine named (subst (Later (saved_row m)) (sym is_new) (Later-refl _))
      ]
  Evolves-Origin id b (more p (stores st no_save e)) h =
      let (a, found, l) = Step-Earlier id b st no_save (rw e at h) in
      Origin-Later id a b (Evolves-Origin id a p found) l
  Evolves-Origin id b (more p (keeps_key disk e)) h = Evolves-Origin id b p (rw e at h)
  Evolves-Origin id b (more p (draws n e)) h = Evolves-Origin id b p (rw e at h)
  Evolves-Origin id b (more p (reads_clock n e)) h = Evolves-Origin id b p (rw e at h)
  Evolves-Origin id b (more p (writes o e)) h = Evolves-Origin id b p (rw e at h)
  Evolves-Origin id b (more p (reads_line line rest was e)) h = Evolves-Origin id b p (rw e at h)
  Evolves-Origin id b (more p (reads_end was e)) h = Evolves-Origin id b p (rw e at h)
  Evolves-Origin id b (more p (sets_session inside i name sk e)) h =
      Evolves-Origin id b p (rw e at h)
