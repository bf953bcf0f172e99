-- ===== src/Main/Repl.antt =====
-- The shell: its prompt, its commands, and its loop.
use eternal_blue.Prelude.{
  ℕ, zero, suc, Bytes, codes, ◌==◌, Bytes-tested, Bool, true, false, ◌||◌, Option, none, some, List,
  [], ◌∷◌, ◌++◌, if◌then◌else◌, length,
}
use eternal_blue.Prelude.Exec.{Exec, Result, ok, err, pure, on, ◌>>=◌, ◌>>◌}
use eternal_blue.Sodium.{Sodium}
use eternal_blue.Json.{JsonLib}
use eternal_blue.Message.Wire.{Calendar}
use eternal_blue.HttpClient.{Internet}
use eternal_blue.Client.State.{Client, Clock, print, complain, ask, members, attempt, what, dash}
use eternal_blue.Client.Session.{health, signup, login, logout}
use eternal_blue.Client.Trust.{print_fingerprint, confirm_rotation}
use eternal_blue.Client.Sending.{send_message}
use eternal_blue.Client.Inbox.{sync}
use eternal_blue.Client.Threads.{print_conversations}
use eternal_blue.Main.Words.{split, join_words}
use eternal_blue.Main.Terminal.{Console, client_, getline, prompt_password}
use eternal_blue.Main.Chat.{run_chat}

unfoldable pub help_lines : List Bytes
help_lines =
    codes "commands:"
    ∷ codes "  signup <username>          create an account on this machine"
    ∷ codes "  login <username>           authenticate and unlock the local key"
    ∷ codes "  logout                          end the session, wipe the key"
    ∷ codes "  sync                            fetch + decrypt new incoming messages (alias: inbox)"
    ∷ codes "  conversations                   list peers grouped by last activity (alias: convos)"
    ∷ codes "  chat <username>                 open a conversation (message actions live here)"
    ∷ codes "  send <username> <text...>       one-shot send without entering chat mode"
    ∷ codes
        "  fingerprint <username>          print the pinned key fingerprint (verify out-of-band)"
    ∷ codes "  trust <username> --confirm-rotation   re-pin after a verified key change"
    ∷ codes "  health                          check server reachability"
    ∷ codes "  help                            this message"
    ∷ codes "  quit                            exit"
    ∷ []
    ∷ codes "inside chat mode (auto-refreshes every few seconds):"
    ∷ codes "  <any text>                      send to the current peer"
    ∷ codes "  /sync                           pull new messages now (verbose)"
    ∷ codes "  /list                           reprint the thread"
    ∷ codes "  /delete <#>                     delete the Nth message (your view only)"
    ∷ codes "  /revoke <#>                     recall the Nth message you sent, for both sides"
    ∷ codes "  /forward <#> <user>             forward the Nth message to another user"
    ∷ codes "  /back  or  /quit                return to the top-level prompt"
    ∷ []

abbrev pub print_lines : List Bytes → Exec Client (Unit {0})
print_lines [] = pure tt
print_lines (line ∷ lines) = do print line; print_lines lines

unfoldable pub print_help : Exec Client (Unit {0})
unfolding help_lines
print_help = print_lines help_lines

-- A command of Client, whose exit code the shell ignores.
abbrev pub run : {A : Type 0} → Exec Client A → Exec Console Bool
run m = do on client_ m; pure true

abbrev pub usage : Bytes → Exec Console Bool
usage text = run (complain text)

abbrev pub quits : Bytes → Bool
quits cmd = cmd == codes "quit" || cmd == codes "exit"

-- Commands that need a session.
abbrev pub inside : Exec Console Bool → Exec Console Bool
inside m s = if s.client.logged_in then m s else usage (codes "not logged in") s

module _ ⦃internet : Internet⦄ ⦃sodium : Sodium⦄ ⦃json : JsonLib⦄ where
  abbrev pub authenticate : Bytes → List Bytes → Exec Console Bool
  authenticate cmd [] = usage (codes "usage: " ++ (cmd ++ codes " <username>"))
  authenticate cmd (name ∷ args) = do
    pw ← prompt_password (codes "password: ")
    run (if cmd == codes "signup" then signup name pw else login name pw)

  abbrev pub fingerprint_of : List Bytes → Exec Console Bool
  fingerprint_of [] = usage (codes "usage: fingerprint <username>")
  fingerprint_of (name ∷ args) = run (print_fingerprint name)

  abbrev pub trust : List Bytes → Exec Console Bool
  trust (name ∷ flag ∷ args) =
      if flag == codes "--confirm-rotation"
      then run (confirm_rotation name)
      else usage (codes "usage: trust <username> --confirm-rotation")
  trust _ = usage (codes "usage: trust <username> --confirm-rotation")

module _ ⦃internet : Internet⦄ ⦃sodium : Sodium⦄ ⦃json : JsonLib⦄ ⦃calendar : Calendar⦄
    ⦃clock : Clock⦄ where
  abbrev pub send : List Bytes → Exec Console Bool
  send (name ∷ word ∷ words) = run (send_message name (join_words (word ∷ words)))
  send _ = usage (codes "usage: send <username> <text...>")

  abbrev pub chat : List Bytes → Exec Console Bool
  chat [] = usage (codes "usage: chat <username>")
  chat (peer ∷ args) = do run_chat peer; pure true

  -- One command: whether the shell goes on.
  unfoldable pub dispatch : Bytes → List Bytes → Exec Console Bool
  unfolding print_help health logout prompt_password signup login send_message join_words sync
      print_conversations run_chat print_fingerprint confirm_rotation
  dispatch cmd args =
      if quits cmd
      then pure false
      else if cmd == codes "help"
      then run print_help
      else if cmd == codes "health"
      then run health
      else if cmd == codes "logout"
      then run logout
      else if cmd == codes "signup" || cmd == codes "login"
      then authenticate cmd args
      else if cmd == codes "send"
      then send args
      else if cmd == codes "sync" || cmd == codes "inbox"
      then run (sync true)
      else if cmd == codes "conversations" || cmd == codes "convos"
      then inside (run print_conversations)
      else if cmd == codes "chat"
      then inside (chat args)
      else if cmd == codes "fingerprint"
      then fingerprint_of args
      else if cmd == codes "trust"
      then trust args
      else usage (
          codes "unknown command: "
          ++ (cmd ++ codes " (try 'help'; message actions live inside 'chat <user>')"))

  -- The catch clause around a command.
  abbrev pub caught : Result Bool → Exec Console Bool
  caught (ok stays) = pure stays
  caught (err e) = usage (codes "error: " ++ what e)

  abbrev pub run_words : List Bytes → Exec Console Bool
  run_words [] = pure true
  run_words (cmd ∷ args) = do r ← attempt (dispatch cmd args); caught r

  abbrev pub run_line : Option Bytes → Exec Console Bool
  run_line none = do on client_ (print []); pure false
  run_line (some line) = run_words (split line)

  abbrev pub prompt_text : Client → Bytes
  prompt_text c = (if c.logged_in then c.username else []) ++ codes "> "

  -- One turn of the loop.
  unfoldable pub turn : Exec Console Bool
  unfolding split dispatch what
  turn = do
    c ← on client_ members
    on client_ (ask (prompt_text c))
    line ← on client_ getline
    run_line line

  abbrev pub continue : Exec Console (Option (Unit {0})) → Bool → Exec Console (Option (Unit {0}))
  continue rest true = rest
  continue rest false = pure (some tt)

  -- `none` if the fuel runs out.
  unfoldable pub repl_loop : ℕ → Exec Console (Option (Unit {0}))
  unfolding turn
  repl_loop zero = pure none
  repl_loop (suc fuel) = do stays ← turn; continue (repl_loop fuel) stays

  abbrev pub banner : Bytes
  banner = codes "eternal-blue " ++ (dash ++ codes " type 'help' or 'quit'")

  -- A turn takes a line, or finds the end of the input.
  unfoldable pub run_repl : Exec Console (Option (Unit {0}))
  unfolding repl_loop
  run_repl s = (do on client_ (print banner); repl_loop (suc (length s.client.input))) s
