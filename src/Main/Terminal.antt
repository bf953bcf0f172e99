-- ===== src/Main/Terminal.antt =====
-- The process around a Client: the terminal's settings, and what the system's calls return.
use eternal_blue.Prelude.{ℕ, Bytes, Bool, false, Option, none, some, List, [], ◌∷◌, if◌then◌else◌}
use eternal_blue.Prelude.Exec.{Exec, Part, ok, pure, on, ◌>>=◌, ◌>>◌}
use eternal_blue.Client.State.{Client, print, ask}

-- The settings that the program changes.
pub record Termios : Type 0 where
  pub icanon : Bool
  pub echo : Bool
  pub vmin : ℕ
  pub vtime : ℕ

-- Standard input. If it is not a terminal, tcgetattr and tcsetattr fail and do nothing.
pub record Terminal : Type 0 where
  pub is_tty : Bool
  pub settings : Termios

-- What one turn of the chat loop gets from `poll`, and from `read` if there is input: a time-out, a
-- signal, another failure of `poll`, no byte, or some bytes.
pub data Poll : Type 0 where
  idle interrupted failed ended : Poll
  typed : Bytes → Poll

-- `polls` is what the next turns of chat loops get; when it is used up, standard input has ended.
pub record Console : Type 0 where
  pub client : Client
  pub terminal : Terminal
  pub polls : List Poll

abbrev pub client_ : Part Console Client
client_ = record { get = λ s. s.client; put = λ s client. record s { client = client } }

-- A termios that is initialised with {}.
abbrev pub zeroed : Termios
zeroed = record { icanon = false; echo = false; vmin = 0; vtime = 0 }

abbrev pub tcgetattr : Exec Console Termios
tcgetattr s = (ok (if s.terminal.is_tty then s.terminal.settings else zeroed), s)

abbrev pub set_to : Termios → Terminal → Terminal
set_to t terminal = if terminal.is_tty then record terminal { settings = t } else terminal

abbrev pub tcsetattr : Termios → Exec Console (Unit {0})
tcsetattr t s = (ok tt, record s { terminal = set_to t s.terminal })

-- std::getline on std::cin: `none` at its end.
abbrev pub first_line : List Bytes → Option Bytes × List Bytes
first_line [] = (none, [])
first_line (line ∷ input) = (some line, input)

abbrev pub getline : Exec Client (Option Bytes)
getline c = let (line, input) = first_line c.input in (ok line, record c { input = input })

-- The string that std::getline leaves.
abbrev pub or_empty : Option Bytes → Bytes
or_empty none = []
or_empty (some line) = line

unfoldable pub prompt_password : Bytes → Exec Console Bytes
prompt_password prompt = do
  on client_ (ask prompt)
  old ← tcgetattr
  tcsetattr (record old { echo = false })
  pw ← on client_ getline
  tcsetattr old
  on client_ (print [])
  pure (or_empty pw)

-- The settings of RawMode.
unfoldable pub raw_mode : Termios → Termios
raw_mode old = record { icanon = false; echo = false; vmin = 1; vtime = 0 }
