-- ===== src/Main/Effects/Shell.antt =====
-- The shell: whatever is typed, only effects on the client, and the terminal as it was before.
use eternal_blue.Prelude.{
  ℕ, zero, suc, Bytes, codes, ◌==◌, Bytes-tested, Bool, true, false, ◌||◌, Option, none, some, List,
  [], ◌∷◌, refl, ap, ◌∙◌, length, if◌then◌else◌,
}
use eternal_blue.Prelude.Exec.{Exec, Result, ok, err, pure, on, ◌>>=◌}
use eternal_blue.Sodium.{Sodium}
use eternal_blue.Json.{JsonLib}
use eternal_blue.Message.{Message}
use eternal_blue.Message.Wire.{Calendar}
use eternal_blue.HttpClient.{Internet}
use eternal_blue.Client.State.{Client, Clock, out, print, ask, attempt}
use eternal_blue.Client.Session.{health, signup, login, logout}
use eternal_blue.Client.Trust.{print_fingerprint, confirm_rotation}
use eternal_blue.Client.Sending.{send_message}
use eternal_blue.Client.Inbox.{sync}
use eternal_blue.Client.Threads.{print_conversations, print_thread}
use eternal_blue.Client.Evolves.{
  Evolving, Evolves-trans, same, once, writes, print-Evolving, ask-Evolving,
}
use eternal_blue.Client.Evolves.Session.{
  health-Evolving, signup-Evolving, login-Evolving, logout-Evolving,
}
use eternal_blue.Client.Evolves.Trust.{print_fingerprint-Evolving, confirm_rotation-Evolving}
use eternal_blue.Client.Evolves.Sending.{send_message-Evolving}
use eternal_blue.Client.Evolves.Threads.{print_conversations-Evolving, print_thread-Evolving}
use eternal_blue.Client.Evolves.Sync.{sync-Evolving}
use eternal_blue.Main.Words.{split, join_words}
use eternal_blue.Main.Terminal.{
  Console, client_, zeroed, set_to, getline, prompt_password, raw_mode,
}
use eternal_blue.Main.Screen.{redraw_prompt}
use eternal_blue.Main.Chat.{entering, in_chat, chat_loop, chat_session, run_chat}
use eternal_blue.Main.Repl.{
  print_lines, help_lines, print_help, run, quits, authenticate, fingerprint_of, trust, send, chat,
  dispatch, caught, run_words, run_line, prompt_text, turn, continue, repl_loop, run_repl, banner,
}
use eternal_blue.Main.Effects.Kept.{then-Chatting}
use eternal_blue.Main.Effects.Chat.{chat_loop-Chatting, redraw_prompt-Chatting}
use eternal_blue.Main.Effects.Lives.{
  set_to-set_to, Lives-refl, Running, bind-Running, pure-Running, on_client-Running, run-Running,
  usage-Running, if-Running, inside-Running, getline-Evolving, prompt_password-Running,
}

module _ ⦃internet : Internet⦄ ⦃sodium : Sodium⦄ where
  print_lines-Evolving : (lines : List Bytes) → Evolving (print_lines lines)
  print_lines-Evolving [] c = same
  print_lines-Evolving (line ∷ lines) c =
      Evolves-trans (once (writes (out line) refl)) (print_lines-Evolving lines _)

  print_help-Evolving : Evolving print_help
  unfolding print_help
  print_help-Evolving = print_lines-Evolving help_lines

module _ ⦃internet : Internet⦄ ⦃sodium : Sodium⦄ ⦃json : JsonLib⦄ where
  sign-Evolving :
      (b : Bool) (name pw : Bytes) → Evolving (if b then signup name pw else login name pw)
  sign-Evolving true name pw = signup-Evolving name pw
  sign-Evolving false name pw = login-Evolving name pw

  authenticate-Running : (cmd : Bytes) (args : List Bytes) → Running (authenticate cmd args)
  authenticate-Running cmd [] = usage-Running _
  authenticate-Running cmd (name ∷ args) =
      let sign : Bytes → Exec Client ℕ =
        λ pw. if cmd == codes "signup" then signup name pw else login name pw in
      bind-Running (prompt_password (codes "password: ")) (λ pw. run (sign pw))
        (prompt_password-Running (codes "password: "))
        λ pw. run-Running (sign pw) (sign-Evolving (cmd == codes "signup") name pw)

  fingerprint_of-Running : (args : List Bytes) → Running (fingerprint_of args)
  fingerprint_of-Running [] = usage-Running _
  fingerprint_of-Running (name ∷ args) =
      run-Running (print_fingerprint name) (print_fingerprint-Evolving name)

  trust-Running : (args : List Bytes) → Running (trust args)
  trust-Running (name ∷ flag ∷ args) =
      if-Running (flag == codes "--confirm-rotation") _ _
        (run-Running (confirm_rotation name) (confirm_rotation-Evolving name)) (usage-Running _)
  trust-Running _ = usage-Running _

module _ ⦃internet : Internet⦄ ⦃sodium : Sodium⦄ ⦃json : JsonLib⦄ ⦃calendar : Calendar⦄
    ⦃clock : Clock⦄ where
  in_chat-Running : (peer : Bytes) (thread : List Message) → Running (in_chat peer thread)
  in_chat-Running peer thread s =
      let kept =
        then-Chatting (redraw_prompt peer) (chat_loop peer s.polls) (redraw_prompt-Chatting peer)
          (chat_loop-Chatting peer s.polls) (entering thread s) in
      record { client = kept.client; terminal = refl }

  chat_session-Running : (peer : Bytes) → Running (chat_session peer)
  unfolding chat_session
  chat_session-Running peer =
      let show : Exec Console (Unit {0}) = on client_ (print_thread peer) >>= in_chat peer in
      bind-Running (on client_ (sync false)) (λ _. show)
        (on_client-Running (sync false) (sync-Evolving false))
        λ _.
          bind-Running (on client_ (print_thread peer)) (in_chat peer)
            (on_client-Running (print_thread peer) (print_thread-Evolving peer))
            (in_chat-Running peer)

  pub run_chat-Running : (peer : Bytes) → Running (run_chat peer)
  unfolding run_chat
  run_chat-Running peer s =
      let old = if s.terminal.is_tty then s.terminal.settings else zeroed in
      let raw = record s { terminal = set_to (raw_mode old) s.terminal } in
      let lives = chat_session-Running peer raw in
      record {
        client = lives.client;
        terminal = ap (set_to old) lives.terminal ∙ set_to-set_to s.terminal (raw_mode old);
      }

  send-Running : (args : List Bytes) → Running (send args)
  send-Running (name ∷ word ∷ words) =
      let text = join_words (word ∷ words) in
      run-Running (send_message name text) (send_message-Evolving name text)
  send-Running _ = usage-Running _

  chat-Running : (args : List Bytes) → Running (chat args)
  chat-Running [] = usage-Running _
  chat-Running (peer ∷ args) =
      bind-Running (run_chat peer) (λ _. pure true) (run_chat-Running peer) λ _. pure-Running true

  dispatch-Running : (cmd : Bytes) (args : List Bytes) → Running (dispatch cmd args)
  unfolding dispatch
  dispatch-Running cmd args = if-Running (quits cmd) _ _ (pure-Running false) (
      if-Running (cmd == codes "help") _ _ (run-Running print_help print_help-Evolving) (
        if-Running (cmd == codes "health") _ _ (run-Running health health-Evolving) (
          if-Running (cmd == codes "logout") _ _ (run-Running logout logout-Evolving) (
            if-Running (cmd == codes "signup" || cmd == codes "login") _ _
              (authenticate-Running cmd args)
              (if-Running (cmd == codes "send") _ _ (send-Running args) (
                if-Running (cmd == codes "sync" || cmd == codes "inbox") _ _
                  (run-Running (sync true) (sync-Evolving true))
                  (if-Running (cmd == codes "conversations" || cmd == codes "convos") _ _
                    (inside-Running (run print_conversations)
                      (run-Running print_conversations print_conversations-Evolving))
                    (if-Running (cmd == codes "chat") _ _
                      (inside-Running (chat args) (chat-Running args))
                      (if-Running (cmd == codes "fingerprint") _ _ (fingerprint_of-Running args) (
                        if-Running (cmd == codes "trust") _ _ (trust-Running args)
                          (usage-Running _)))))))))))

  caught-Running : (r : Result Bool) → Running (caught r)
  caught-Running (ok stays) = pure-Running stays
  caught-Running (err e) = usage-Running _

  run_words-Running : (words : List Bytes) → Running (run_words words)
  run_words-Running [] = pure-Running true
  run_words-Running (cmd ∷ args) =
      bind-Running (attempt (dispatch cmd args)) caught (dispatch-Running cmd args) caught-Running

  pub run_line-Running : (line : Option Bytes) → Running (run_line line)
  run_line-Running none =
      bind-Running (on client_ (print [])) (λ _. pure false)
        (on_client-Running (print []) (print-Evolving [])) λ _. pure-Running false
  run_line-Running (some line) = run_words-Running (split line)

  turn-Running : Running turn
  unfolding turn
  turn-Running s =
      let text = prompt_text s.client in
      let rest : Exec Console Bool = on client_ getline >>= run_line in
      bind-Running (on client_ (ask text)) (λ _. rest)
        (on_client-Running (ask text) (ask-Evolving text))
        (λ _.
          bind-Running (on client_ getline) run_line (on_client-Running getline getline-Evolving)
            run_line-Running)
        s

  repl_loop-Running : (fuel : ℕ) → Running (repl_loop fuel)
  unfolding repl_loop
  repl_loop-Running zero s = Lives-refl s
  repl_loop-Running (suc fuel) s =
      bind-Running turn (continue (repl_loop fuel)) turn-Running
        (continue-Running (repl_loop-Running fuel)) s
    where
      continue-Running :
          Running (repl_loop fuel) → (stays : Bool) → Running (continue (repl_loop fuel) stays)
      continue-Running h true = h
      continue-Running h false = pure-Running (some tt)

  pub run_repl-Running : Running run_repl
  unfolding run_repl
  run_repl-Running s =
      let fuel = suc (length s.client.input) in
      bind-Running (on client_ (print banner)) (λ _. repl_loop fuel)
        (on_client-Running (print banner) (print-Evolving banner)) (λ _. repl_loop-Running fuel) s
