-- ===== src/Main/Screen.antt =====
-- The locals of the chat mode, and what it draws.
use eternal_blue.Prelude.{Bytes, codes, ℕ-tested, Bool, false, List, [], ◌∷◌, ◌++◌, if◌then◌else◌}
use eternal_blue.Prelude.Exec.{Exec, Part, ok, on, ◌>>=◌, ◌>>◌}
use eternal_blue.Message.{Message}
use eternal_blue.Message.Wire.{Calendar}
use eternal_blue.Client.State.{Client, print, ask}
use eternal_blue.Client.Threads.{print_thread}
use eternal_blue.Main.Terminal.{Poll}

-- The locals of run_chat, the client, and what is left to poll.
pub record Chat : Type 0 where
  pub client : Client
  pub polls : List Poll
  pub input : Bytes
  pub pending_refresh : Bool
  pub displayed : List Message

abbrev pub client_ : Part Chat Client
client_ = record { get = λ s. s.client; put = λ s client. record s { client = client } }

abbrev pub locals : Exec Chat Chat
locals s = (ok s, s)

abbrev pub advance : List Poll → Exec Chat (Unit {0})
advance polls s = (ok tt, record s { polls = polls })

abbrev pub set_input : Bytes → Exec Chat (Unit {0})
set_input input s = (ok tt, record s { input = input })

abbrev pub set_pending : Bool → Exec Chat (Unit {0})
set_pending pending s = (ok tt, record s { pending_refresh = pending })

abbrev pub set_displayed : List Message → Exec Chat (Unit {0})
set_displayed thread s = (ok tt, record s { displayed = thread })

-- A text on std::cout.
abbrev pub say : Bytes → Exec Chat (Unit {0})
say text = on client_ (ask text)

abbrev pub new_line : Exec Chat (Unit {0})
new_line = on client_ (print [])

-- "\r\033[K"
abbrev pub erase_line : Bytes
erase_line = 13 ∷ 27 ∷ codes "[K"

unfoldable pub prompt_prefix : Bytes → Bool → Bytes
prompt_prefix peer pending = peer ++ ((if pending then codes " (new)" else []) ++ codes "| ")

unfoldable pub redraw_prompt : Bytes → Exec Chat (Unit {0})
unfolding prompt_prefix
redraw_prompt peer = do
  s ← locals
  say (erase_line ++ (prompt_prefix peer s.pending_refresh ++ s.input))

module _ ⦃calendar : Calendar⦄ where
  unfoldable pub full_reprint : Bytes → Exec Chat (Unit {0})
  unfolding print_thread redraw_prompt
  full_reprint peer = do
    say erase_line
    thread ← on client_ (print_thread peer)
    set_displayed thread
    set_pending false
    redraw_prompt peer
