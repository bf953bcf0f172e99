-- ===== src/Main/Effects/Chat.antt =====
-- The chat mode: whatever is typed and whichever calls throw, only effects on the client, and a line of
-- printable characters.
use eternal_blue.Prelude.{
  ℕ, Bytes, codes, ◌==◌, ℕ-tested, Bool, true, false, ◌||◌, List, [], ◌∷◌, ◌++◌, ◌≡◌, refl, inl,
  inr, Bool-cases,
}
use eternal_blue.Prelude.Exec.{Exec, Result, ok, err, pure, on, ◌>>=◌, ◌>>◌}
use eternal_blue.Sodium.{Sodium}
use eternal_blue.Json.{JsonLib}
use eternal_blue.Message.{Message}
use eternal_blue.Message.Wire.{Calendar}
use eternal_blue.HttpClient.{Internet}
use eternal_blue.Client.State.{Clock, complain, attempt, what}
use eternal_blue.Client.Inbox.{sync}
use eternal_blue.Client.Threads.{list_thread, print_thread}
use eternal_blue.Client.Evolves.{same, once, writes, complain-Evolving}
use eternal_blue.Client.Evolves.Threads.{list_thread-Evolving, print_thread-Evolving}
use eternal_blue.Client.Evolves.Sync.{sync-Evolving}
use eternal_blue.Main.Index.{thread_changed}
use eternal_blue.Main.Lines.{handle_line}
use eternal_blue.Main.Terminal.{Poll, idle, interrupted, failed, ended, typed}
use eternal_blue.Main.Screen.{
  Chat, client_, set_input, set_pending, set_displayed, advance, say, new_line, erase_line,
  prompt_prefix, redraw_prompt, full_reprint,
}
use eternal_blue.Main.Keys.{
  reprint_if, rub, empty_line, after_line, entered, enter, key, keys, Mode, at_key, is_swallowed,
  next_mode, more_keys, push_key, leave_on, is_printable,
}
use eternal_blue.Main.Chat.{compare_with, hint, refresh, report_sync, tick, go_on, chat_loop}
use eternal_blue.Main.Effects.Lines.{handle_line-Evolving}
use eternal_blue.Main.Effects.Kept.{
  Kept, IsPrintable-snoc, IsPrintable-pop_back, Kept-refl, Chatting, bind-Chatting, then-Chatting,
  attempt-Chatting, pure-Chatting, value-Chatting, on_client-Chatting, if-Kept, say-Chatting,
  new_line-Chatting, locals-Kept,
}

module _ ⦃internet : Internet⦄ ⦃sodium : Sodium⦄ where
  pub redraw_prompt-Chatting : (peer : Bytes) → Chatting (redraw_prompt peer)
  unfolding redraw_prompt
  redraw_prompt-Chatting peer s =
      say-Chatting (erase_line ++ (prompt_prefix peer s.pending_refresh ++ s.input)) s

module _ ⦃internet : Internet⦄ ⦃sodium : Sodium⦄ ⦃calendar : Calendar⦄ where
  full_reprint-Chatting : (peer : Bytes) → Chatting (full_reprint peer)
  unfolding full_reprint
  full_reprint-Chatting peer =
      let finish : Exec Chat (Unit {0}) = set_pending false >> redraw_prompt peer in
      let update : List Message → Exec Chat (Unit {0}) = λ thread. set_displayed thread >> finish in
      then-Chatting (say erase_line) (on client_ (print_thread peer) >>= update)
        (say-Chatting erase_line)
        (bind-Chatting (on client_ (print_thread peer)) update
          (on_client-Chatting (print_thread peer) (print_thread-Evolving peer))
          λ thread.
            then-Chatting (set_displayed thread) finish (λ s. locals-Kept s _ refl refl)
              (then-Chatting (set_pending false) (redraw_prompt peer)
                (λ s. locals-Kept s _ refl refl) (redraw_prompt-Chatting peer)))

  reprint_if-Chatting : (peer : Bytes) (pending : Bool) → Chatting (reprint_if peer pending)
  reprint_if-Chatting peer true =
      value-Chatting (full_reprint peer) true (full_reprint-Chatting peer)
  reprint_if-Chatting peer false = pure-Chatting true

  empty_line-Chatting : (peer : Bytes) (pending : Bool) → Chatting (empty_line peer pending)
  empty_line-Chatting peer true =
      value-Chatting (full_reprint peer) true (full_reprint-Chatting peer)
  empty_line-Chatting peer false =
      value-Chatting (redraw_prompt peer) true (redraw_prompt-Chatting peer)

  after_line-Chatting : (peer : Bytes) (r : Result Bool) → Chatting (after_line peer r)
  after_line-Chatting peer (ok false) = pure-Chatting false
  after_line-Chatting peer (ok true) =
      value-Chatting (full_reprint peer) true (full_reprint-Chatting peer)
  after_line-Chatting peer (err e) =
      let text = codes "error: " ++ what e in
      then-Chatting (on client_ (complain text)) (full_reprint peer >> pure true)
        (on_client-Chatting (complain text) (complain-Evolving text))
        (value-Chatting (full_reprint peer) true (full_reprint-Chatting peer))

  rub-Kept :
      (peer : Bytes) (s : Chat) (input : Bytes)
      → s.input ≡ input
      → Kept s (rub peer input s.pending_refresh s).1
  rub-Kept peer s [] e = reprint_if-Chatting peer s.pending_refresh s
  rub-Kept peer s (c ∷ input) e = record {
    client = once (writes _ refl);
    input = λ h. IsPrintable-pop_back (c ∷ input) (rw e at h);
  }

leave_on-Chatting :
    ⦃internet : Internet⦄ ⦃sodium : Sodium⦄ (input : Bytes) → Chatting (leave_on input)
leave_on-Chatting [] = value-Chatting new_line false new_line-Chatting
leave_on-Chatting (c ∷ input) = pure-Chatting true

push_key-Kept :
    ⦃internet : Internet⦄ ⦃sodium : Sodium⦄ (c : ℕ) (s : Chat)
    → is_printable c ≡ true
    → Kept s (push_key c s).1
push_key-Kept c s p = record {
  client = once (writes _ refl);
  input = λ h. IsPrintable-snoc s.input c h p;
}

module _ ⦃internet : Internet⦄ ⦃sodium : Sodium⦄ ⦃json : JsonLib⦄ ⦃calendar : Calendar⦄
    ⦃clock : Clock⦄ where
  entered-Chatting : (peer line : Bytes) → Chatting (entered peer line)
  entered-Chatting peer [] s = empty_line-Chatting peer s.pending_refresh s
  entered-Chatting peer (c ∷ line) s =
      let handle = handle_line peer s.displayed (c ∷ line) in
      bind-Chatting (attempt (on client_ handle)) (after_line peer)
        (attempt-Chatting (on client_ handle)
          (on_client-Chatting handle (handle_line-Evolving peer s.displayed (c ∷ line))))
        (after_line-Chatting peer) s

  enter-Chatting : (peer : Bytes) → Chatting (enter peer)
  unfolding enter
  enter-Chatting peer s =
      then-Chatting new_line (set_input [] >> entered peer s.input) new_line-Chatting
        (then-Chatting (set_input []) (entered peer s.input)
          (λ t. record { client = same; input = λ h. tt }) (entered-Chatting peer s.input))
        s

  pub key-Chatting : (peer : Bytes) (c : ℕ) → Chatting (key peer c)
  unfolding key
  key-Chatting peer c s =
      if-Kept (c == 10 || c == 13) _ _ s (λ _. enter-Chatting peer s)
        λ _.
          if-Kept (c == 127 || c == 8) _ _ s (λ _. rub-Kept peer s s.input refl)
            λ _.
              if-Kept (c == 4) _ _ s (λ _. leave_on-Chatting s.input s)
                λ _. if-Kept (is_printable c) _ _ s (push_key-Kept c s) λ _. Kept-refl s

  more-Chatting : (m : Exec Chat Bool) (stays : Bool) → Chatting m → Chatting (more_keys m stays)
  more-Chatting m true h = h
  more-Chatting m false h = pure-Chatting false

  keys-Chatting : (peer : Bytes) (mode : Mode) (bytes : Bytes) → Chatting (keys peer mode bytes)
  unfolding keys
  keys-Chatting peer mode [] s = Kept-refl s
  keys-Chatting peer mode (c ∷ bytes) s = elim (Bool-cases (is_swallowed mode c)) [
    | inl swallowed ↦ rw swallowed (keys-Chatting peer (next_mode mode c) bytes s)
    | inr pressed ↦ rw pressed (
        bind-Chatting (key peer c) (more_keys (keys peer at_key bytes)) (key-Chatting peer c)
          (λ stays. more-Chatting (keys peer at_key bytes) stays (keys-Chatting peer at_key bytes))
          s)
  ]

  compare_with-Chatting : (peer : Bytes) (fresh : List Message) → Chatting (compare_with peer fresh)
  compare_with-Chatting peer fresh s =
      if-Kept (thread_changed s.displayed fresh) _ _ s (λ _. hint-Chatting s.input s)
        λ _. Kept-refl s
    where
      hint-Chatting : (input : Bytes) → Chatting (hint peer input)
      hint-Chatting [] = full_reprint-Chatting peer
      hint-Chatting (c ∷ input) =
          then-Chatting (set_pending true) (redraw_prompt peer) (λ s. locals-Kept s _ refl refl)
            (redraw_prompt-Chatting peer)

  report_sync-Chatting : (peer : Bytes) (r : Result (Unit {0})) → Chatting (report_sync peer r)
  report_sync-Chatting peer (ok _) = pure-Chatting tt
  report_sync-Chatting peer (err e) =
      let text = codes "sync error: " ++ what e in
      then-Chatting (say erase_line) (on client_ (complain text) >> redraw_prompt peer)
        (say-Chatting erase_line)
        (then-Chatting (on client_ (complain text)) (redraw_prompt peer)
          (on_client-Chatting (complain text) (complain-Evolving text))
          (redraw_prompt-Chatting peer))

  pub tick-Chatting : (peer : Bytes) → Chatting (tick peer)
  unfolding tick
  tick-Chatting peer =
      let look : Exec Chat (Unit {0}) = on client_ (list_thread peer) >>= compare_with peer in
      bind-Chatting (attempt (refresh peer)) (report_sync peer)
        (attempt-Chatting (refresh peer) (
          then-Chatting (on client_ (sync false)) look
            (on_client-Chatting (sync false) (sync-Evolving false))
            (bind-Chatting (on client_ (list_thread peer)) (compare_with peer)
              (on_client-Chatting (list_thread peer) (list_thread-Evolving peer))
              (compare_with-Chatting peer))))
        (report_sync-Chatting peer)

  advance-Chatting : (polls : List Poll) → Chatting (advance polls)
  advance-Chatting polls s = locals-Kept s _ refl refl

  go_on-Chatting : (m : Exec Chat (Unit {0})) (stays : Bool) → Chatting m → Chatting (go_on m stays)
  go_on-Chatting m true h = h
  go_on-Chatting m false h = pure-Chatting tt

  pub chat_loop-Chatting : (peer : Bytes) (polls : List Poll) → Chatting (chat_loop peer polls)
  unfolding chat_loop
  chat_loop-Chatting peer [] = new_line-Chatting
  chat_loop-Chatting peer (idle ∷ polls) =
      then-Chatting (advance polls) (tick peer >> chat_loop peer polls) (advance-Chatting polls) (
        then-Chatting (tick peer) (chat_loop peer polls) (tick-Chatting peer)
          (chat_loop-Chatting peer polls))
  chat_loop-Chatting peer (interrupted ∷ polls) =
      then-Chatting (advance polls) (chat_loop peer polls) (advance-Chatting polls)
        (chat_loop-Chatting peer polls)
  chat_loop-Chatting peer (failed ∷ polls) = advance-Chatting polls
  chat_loop-Chatting peer (ended ∷ polls) =
      then-Chatting (advance polls) new_line (advance-Chatting polls) new_line-Chatting
  chat_loop-Chatting peer (typed bytes ∷ polls) =
      let rest = chat_loop peer polls in
      then-Chatting (advance polls) (keys peer at_key bytes >>= go_on rest) (advance-Chatting polls)
        (bind-Chatting (keys peer at_key bytes) (go_on rest) (keys-Chatting peer at_key bytes)
          λ stays. go_on-Chatting rest stays (chat_loop-Chatting peer polls))
