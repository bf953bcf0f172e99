-- ===== src/Client/Record.antt =====
-- What a sequence of effects leaves as it was: the database up to calls of LocalStore, the input up to
-- lines that were read, and the output that was there.
use eternal_blue.Prelude.{refl, ◌≤◌, Bool, length, arith}
use eternal_blue.Sodium.{Sodium}
use eternal_blue.Json.{JsonLib}
use eternal_blue.Message.Wire.{Calendar}
use eternal_blue.LocalStore.History.{History, History-trans, here, next, saves}
use eternal_blue.HttpClient.{Internet}
use eternal_blue.Client.State.{Client}
use eternal_blue.Client.Inbox.{sync}
use eternal_blue.Client.Evolves.{
  Effect, requests, takes_token, saves_message, stores, keeps_key, draws, reads_clock, writes,
  reads_line, reads_end, sets_session, Evolves, same, more,
}
use eternal_blue.Client.Evolves.Sync.{sync-Evolving}

module _ ⦃internet : Internet⦄ ⦃sodium : Sodium⦄ where
  Effect-History : {c d : Client} → Effect c d → History c.store d.store
  Effect-History (requests method path body e) = rw e here
  Effect-History (takes_token token e) = rw e here
  Effect-History (saves_message m genuine e) = rw e (next here (saves m refl))
  Effect-History (stores st no_save e) = rw e (next here st)
  Effect-History (keeps_key disk e) = rw e here
  Effect-History (draws n e) = rw e here
  Effect-History (reads_clock n e) = rw e here
  Effect-History (writes o e) = rw e here
  Effect-History (reads_line line rest was e) = rw e here
  Effect-History (reads_end was e) = rw e here
  Effect-History (sets_session inside id name sk e) = rw e here

  -- The database changes by calls of LocalStore only.
  pub Evolves-History : {c d : Client} → Evolves c d → History c.store d.store
  Evolves-History same = here
  Evolves-History (more p e) = History-trans (Evolves-History p) (Effect-History e)

  Effect-input : {c d : Client} → Effect c d → length d.input ≤ length c.input
  Effect-input (requests method path body e) = rw e (omega arith)
  Effect-input (takes_token token e) = rw e (omega arith)
  Effect-input (saves_message m genuine e) = rw e (omega arith)
  Effect-input (stores st no_save e) = rw e (omega arith)
  Effect-input (keeps_key disk e) = rw e (omega arith)
  Effect-input (draws n e) = rw e (omega arith)
  Effect-input (reads_clock n e) = rw e (omega arith)
  Effect-input (writes o e) = rw e (omega arith)
  Effect-input (reads_line line rest was e) = rw (e, was) (omega arith)
  Effect-input (reads_end was e) = rw (e, was) (omega arith)
  Effect-input (sets_session inside id name sk e) = rw e (omega arith)

  -- No line is put back.
  pub Evolves-input : {c d : Client} → Evolves c d → length d.input ≤ length c.input
  Evolves-input same = omega arith
  Evolves-input (more p e) = omega (arith, Evolves-input p, Effect-input e)

  pub sync-History :
      ⦃json : JsonLib⦄ ⦃calendar : Calendar⦄ (announce : Bool) (c : Client)
      → History c.store (sync announce c).1.store
  sync-History announce c = Evolves-History (sync-Evolving announce c)
