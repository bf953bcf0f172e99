-- ===== src/Main/Tests.antt =====
-- The shell and the chat mode of concrete consoles.
use eternal_blue.Prelude.{
  codes, true, false, none, some, List, [], ◌∷◌, ◌++◌, ◌≡◌, ◌↔◌, inl, refl, map, All, bytes_beq,
  c_text,
}
use mathlib.Core.List.{reverse}
use eternal_blue.Prelude.Exec.{ok}
use eternal_blue.Message.{Message}
use eternal_blue.LocalStore.{opened, get_message, has_id}
use eternal_blue.LocalStore.Tables.{find_row}
use eternal_blue.Json.{JsonLib}
use eternal_blue.Json.Doc.{fields, field, no_fields, array, no_docs, doc_lib}
use eternal_blue.Sodium.Toy.{toy}
use eternal_blue.Client.Start.{Machine, tables}
use eternal_blue.Client.Paths.{IsPlain, paths_inj}
use eternal_blue.Client.Tests.{test_internet, test_calendar, test_clock, hello, ann, forgetful}
use eternal_blue.Client.Trusted.{SendsSafely}
use eternal_blue.Main.Words.{split, join_words}
use eternal_blue.Main.Splits.{IsWord, concat, without_spaces, split_lem, split-join_words}
use eternal_blue.Main.Index.{thread_changed}
use eternal_blue.Main.Resolves.{mark, thread_changed_iff}
use eternal_blue.Main.Terminal.{Console, Terminal, Termios, idle, typed}
use eternal_blue.Main.Screen.{Chat}
use eternal_blue.Main.Keys.{at_key, keys}
use eternal_blue.Main.Strokes.{
  Stroke, char, backspace, escape_sequence, spelling, edited, echoes, with_line,
}
use eternal_blue.Main.Typing.{keys-strokes}
use eternal_blue.Main.Repl.{run_repl}
use eternal_blue.Main.Returns.{run_repl-returns}
use eternal_blue.Main.Lasting.{run_repl-SendsSafely, run_repl-keeps_deleted}
use eternal_blue.Main.Arguments.{
  host_flag, port_flag, parse_arguments, parsed, defaults, flag_of, unexpected,
}
use eternal_blue.Main.Flags.{with_command, parse_arguments-options}

-- A server without messages and revocations.
instance abbrev nothing_new : JsonLib
nothing_new = doc_lib (
    (
      codes "{}",
      fields (
          field (codes "messages") (array no_docs)
            (field (codes "revoked_ids") (array no_docs) no_fields)),
    )
    ∷ [])

abbrev cooked : Termios
cooked = record { icanon = true; echo = true; vmin = 1; vtime = 0 }

abbrev terminal : Terminal
terminal = record { is_tty = true; settings = cooked }

-- A session that is asked for help, chats with bob, and quits.
abbrev console : Console
console = record {
  client = record ann {
    input = codes "help" ∷ codes "chat bob" ∷ codes "nonsense" ∷ codes "quit" ∷ [];
  };
  terminal = terminal;
  polls = idle ∷ typed (codes "hi" ++ 8 ∷ 13 ∷ codes "/back" ++ 13 ∷ []) ∷ [];
}

abbrev machine : Machine
machine = record {
  home = some (codes "/home/ann");
  initialises = true;
  file = λ path. none;
  ios = [];
  database = λ path. tables opened;
  input = codes "help" ∷ [];
  directories = [];
}

run_repl-returns_example :
    ((run_repl console).0 ≡ ok (some tt)) × ((run_repl console).1.terminal ≡ terminal)
run_repl-returns_example = run_repl-returns console

run_repl-SendsSafely_example : SendsSafely ann.http (run_repl console).1.client.http
run_repl-SendsSafely_example = run_repl-SendsSafely console

-- The same with a session whose one message was deleted.
abbrev forgetting : Console
forgetting = record console { client = record forgetful { input = codes "sync" ∷ [] } }

run_repl-keeps_deleted_example :
    (get_message (codes "m1") (run_repl forgetting).1.client.store).0 ≡ ok none
unfolding find_row c_text bytes_beq has_id
run_repl-keeps_deleted_example =
    run_repl-keeps_deleted forgetting (codes "m1") (record { message = hello; deleted = true }) refl
      (refl, tt) refl refl

abbrev chatting : Chat
chatting = record {
  client = ann;
  polls = [];
  input = reverse (codes "oll");
  pending_refresh = false;
  displayed = [];
}

-- An "e", a backspace, the up arrow, and an "o".
abbrev strokes : List Stroke
strokes = char b'e' ∷ backspace ∷ escape_sequence true [] b'A' ∷ char b'o' ∷ []

keys-strokes_example :
    keys (codes "bob") at_key (spelling strokes (13 ∷ [])) chatting
    ≡ keys
        (codes "bob")
        at_key
        (13 ∷ [])
        (with_line (edited strokes (codes "oll")) (echoes strokes (codes "oll")) chatting)
keys-strokes_example =
    keys-strokes (codes "bob") strokes (codes "oll") (13 ∷ []) chatting
      (refl, (tt, ((tt, refl), (refl, tt)))) refl refl

-- The line that is typed.
line : reverse (edited strokes (codes "oll")) ≡ codes "lloo"
line = refl

thread_changed_iff_example :
    (thread_changed (hello ∷ []) [] ≡ false) ↔ (map mark (hello ∷ []) ≡ map mark [])
thread_changed_iff_example = thread_changed_iff (hello ∷ []) []

split_lem_example :
    All IsWord (split (codes " a b"))
    × (concat (split (codes " a b")) ≡ without_spaces (codes " a b"))
split_lem_example = split_lem (codes " a b")

send-IsWord : IsWord (codes "send")
send-IsWord = (refl, (refl, (refl, (refl, (refl, tt)))))

bob-IsWord : IsWord (codes "bob")
bob-IsWord = (refl, (refl, (refl, (refl, tt))))

hi-IsWord : IsWord (codes "hi")
hi-IsWord = (refl, (refl, (refl, tt)))

split-join_words_example :
    split (join_words (codes "send" ∷ codes "bob" ∷ codes "hi" ∷ []))
    ≡ codes "send" ∷ codes "bob" ∷ codes "hi" ∷ []
split-join_words_example =
    split-join_words (codes "send" ∷ codes "bob" ∷ codes "hi" ∷ [])
      (send-IsWord, (bob-IsWord, (hi-IsWord, tt)))

parse_arguments-options_example :
    parse_arguments
      (codes "--host" ∷ codes "h" ∷ codes "health" ∷ codes "--port" ∷ codes "443" ∷ [])
      defaults
    ≡ parsed
        (with_command (codes "health") (record defaults { host = codes "h"; port = codes "443" }))
unfolding flag_of bytes_beq
parse_arguments-options_example =
    parse_arguments-options ((host_flag, codes "h") ∷ []) ((port_flag, codes "443") ∷ [])
      (codes "health") refl

-- A flag in the last place is a command, and a second command is refused.
trailing_flag :
    parse_arguments (codes "health" ∷ codes "--port" ∷ []) defaults ≡ unexpected (codes "--port")
unfolding parse_arguments flag_of bytes_beq
trailing_flag = refl

port-IsPlain : IsPlain (codes "443")
port-IsPlain = (λ e. cc, (λ e. cc, (λ e. cc, tt)))

paths_inj_example : (codes "h" ≡ codes "h") × (codes "443" ≡ codes "443")
paths_inj_example =
    paths_inj (codes "/home/ann") (codes "h") (codes "443") (codes "h") (codes "443") port-IsPlain
      port-IsPlain (inl refl)
