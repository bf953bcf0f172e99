-- ===== src/Main/Chat.antt =====
-- The chat mode: its idle tick and its loop.
use eternal_blue.Prelude.{
  Bytes, codes, ℕ-tested, Bool, true, false, List, [], ◌∷◌, ◌++◌, if◌then◌else◌,
}
use eternal_blue.Prelude.Exec.{Exec, Result, ok, err, pure, lift, on, ◌>>=◌, ◌>>◌}
use eternal_blue.Sodium.{Sodium}
use eternal_blue.Json.{JsonLib}
use eternal_blue.Message.{Message}
use eternal_blue.Message.Wire.{Calendar}
use eternal_blue.HttpClient.{Internet}
use eternal_blue.Client.State.{Clock, complain, attempt, what}
use eternal_blue.Client.Inbox.{sync}
use eternal_blue.Client.Threads.{list_thread, print_thread}
use eternal_blue.Main.Index.{thread_changed}
use eternal_blue.Main.Terminal.{
  Poll, idle, interrupted, failed, ended, typed, Console, tcgetattr, tcsetattr, raw_mode,
}
use eternal_blue.Main.Terminal
use eternal_blue.Main.Screen.{
  Chat, client_, advance, set_pending, say, new_line, erase_line, redraw_prompt, full_reprint,
}
use eternal_blue.Main.Keys.{at_key, keys}

abbrev pub go_on : Exec Chat (Unit {0}) → Bool → Exec Chat (Unit {0})
go_on rest true = rest
go_on rest false = pure tt

module _ ⦃internet : Internet⦄ ⦃sodium : Sodium⦄ ⦃json : JsonLib⦄ ⦃calendar : Calendar⦄
    ⦃clock : Clock⦄ where
  -- A change is shown if no line is being typed, and hinted at otherwise.
  abbrev pub hint : Bytes → Bytes → Exec Chat (Unit {0})
  hint peer [] = full_reprint peer
  hint peer (c ∷ input) = do set_pending true; redraw_prompt peer

  -- The messages that the idle tick finds.
  abbrev pub compare_with : Bytes → List Message → Exec Chat (Unit {0})
  compare_with peer fresh s =
      if thread_changed s.displayed fresh then hint peer s.input s else (ok tt, s)

  abbrev pub refresh : Bytes → Exec Chat (Unit {0})
  refresh peer = do
    on client_ (sync false)
    fresh ← on client_ (list_thread peer)
    compare_with peer fresh

  abbrev pub report_sync : Bytes → Result (Unit {0}) → Exec Chat (Unit {0})
  report_sync peer (ok _) = pure tt
  report_sync peer (err e) = do
    say erase_line
    on client_ (complain (codes "sync error: " ++ what e))
    redraw_prompt peer

  unfoldable pub tick : Bytes → Exec Chat (Unit {0})
  unfolding sync list_thread thread_changed full_reprint redraw_prompt what
  tick peer = do r ← attempt (refresh peer); report_sync peer r

  unfoldable pub chat_loop : Bytes → List Poll → Exec Chat (Unit {0})
  unfolding tick keys
  chat_loop peer [] = new_line
  chat_loop peer (idle ∷ polls) = do advance polls; tick peer; chat_loop peer polls
  chat_loop peer (interrupted ∷ polls) = do advance polls; chat_loop peer polls
  chat_loop peer (failed ∷ polls) = advance polls
  chat_loop peer (ended ∷ polls) = do advance polls; new_line
  chat_loop peer (typed bytes ∷ polls) = do
    advance polls
    stays ← keys peer at_key bytes
    go_on (chat_loop peer polls) stays

  abbrev pub entering : List Message → Console → Chat
  entering thread s = record {
    client = s.client;
    polls = s.polls;
    input = [];
    pending_refresh = false;
    displayed = thread;
  }

  abbrev pub in_chat : Bytes → List Message → Exec Console (Unit {0})
  in_chat peer thread s =
      let (r, t) = (redraw_prompt peer >> chat_loop peer s.polls) (entering thread s) in
      (r, record s { client = t.client; polls = t.polls })

  -- run_chat while RawMode is in force.
  unfoldable pub chat_session : Bytes → Exec Console (Unit {0})
  unfolding sync print_thread redraw_prompt chat_loop
  chat_session peer = do
    on Terminal.client_ (sync false)
    thread ← on Terminal.client_ (print_thread peer)
    in_chat peer thread

  unfoldable pub run_chat : Bytes → Exec Console (Unit {0})
  unfolding raw_mode chat_session
  run_chat peer = do
    old ← tcgetattr
    tcsetattr (raw_mode old)
    r ← attempt (chat_session peer)
    tcsetattr old
    lift r
