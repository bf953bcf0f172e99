-- ===== src/Main/Lasting.antt =====
-- What lasts over a whole run of the shell.
use eternal_blue.Prelude.{Bytes, true, none, some, [], ◌≡◌, c_text}
use eternal_blue.Prelude.Exec.{ok}
use eternal_blue.Sodium.{Sodium}
use eternal_blue.Json.{JsonLib}
use eternal_blue.Message.{Message}
use eternal_blue.Message.Wire.{Calendar}
use eternal_blue.LocalStore.{Row, get_message}
use eternal_blue.LocalStore.Tables.{IsKeyed, find_row}
use eternal_blue.LocalStore.Messages.{NoFaults}
use eternal_blue.LocalStore.History.{deleted_for_good, revoked_for_good}
use eternal_blue.HttpClient.{Internet}
use eternal_blue.Client.State.{Clock}
use eternal_blue.Client.Record.{Evolves-History}
use eternal_blue.Client.Removed.{History-NoFaults}
use eternal_blue.Client.Trusted.{SendsSafely, Evolves-SendsSafely}
use eternal_blue.Main.Terminal.{Console}
use eternal_blue.Main.Repl.{run_repl}
use eternal_blue.Main.Effects.Shell.{run_repl-Running}

module _ ⦃internet : Internet⦄ ⦃sodium : Sodium⦄ ⦃json : JsonLib⦄ ⦃calendar : Calendar⦄
    ⦃clock : Clock⦄ (s : Console) where
  -- Whatever is typed in the shell and in its chats and whatever the server answers, the client keeps
  -- its host and its additional authorities, and each text that it sends is empty, or goes over a
  -- connection whose handshake succeeded and whose certificate was verified for that host.
  pub run_repl-SendsSafely : SendsSafely s.client.http (run_repl s).1.client.http
  run_repl-SendsSafely = Evolves-SendsSafely (run_repl-Running s).client

  module _ (id : Bytes) (a : Row) (n : NoFaults s.client.store)
      (keyed : IsKeyed s.client.store.messages)
      (found : find_row (c_text id) s.client.store.messages ≡ some a) where
    -- If no statement fails and ids are unique, then a message whose row was marked as deleted is not
    -- found after a run of the shell, whatever is typed there and whatever the server answers.
    pub run_repl-keeps_deleted :
        a.deleted ≡ true → (get_message id (run_repl s).1.client.store).0 ≡ ok none
    run_repl-keeps_deleted =
        let history = Evolves-History (run_repl-Running s).client in
        deleted_for_good id a history keyed (History-NoFaults history n) found

    -- If no statement fails and ids are unique, then a message whose row was flagged as revoked and had
    -- no plaintext is so still after a run of the shell, if it is found.
    pub run_repl-keeps_revoked :
        a.message.revoked ≡ true
        → a.message.plaintext ≡ []
        → (m : Message) → (get_message id (run_repl s).1.client.store).0 ≡ ok (some m)
        → (m.revoked ≡ true) × (m.plaintext ≡ [])
    run_repl-keeps_revoked =
        let history = Evolves-History (run_repl-Running s).client in
        revoked_for_good id a history keyed (History-NoFaults history n) found
