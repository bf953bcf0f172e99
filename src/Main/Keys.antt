-- ===== src/Main/Keys.antt =====
-- The keys of the chat mode: its line editor, and lines that are entered.
use eternal_blue.Prelude.{
  ℕ, Bytes, codes, ◌==◌, ℕ-tested, Bool, true, false, ◌&&◌, ◌||◌, [], ◌∷◌, ◌++◌, if◌then◌else◌, leb,
  ltb,
}
use eternal_blue.Prelude.Exec.{Exec, Result, ok, err, pure, on, ◌>>=◌, ◌>>◌}
use eternal_blue.Sodium.{Sodium}
use eternal_blue.Json.{JsonLib}
use eternal_blue.Message.Wire.{Calendar}
use eternal_blue.HttpClient.{Internet}
use eternal_blue.Client.State.{Clock, complain, attempt, what}
use eternal_blue.Main.Lines.{handle_line}
use eternal_blue.Main.Screen.{
  Chat, client_, locals, set_input, say, new_line, redraw_prompt, full_reprint,
}

-- "\b \b"
abbrev pub rub_out : Bytes
rub_out = 8 ∷ 32 ∷ 8 ∷ []

-- std::string::pop_back
unfoldable pub pop_back : Bytes → Bytes
pop_back [] = []
pop_back (c ∷ []) = []
pop_back (c ∷ d ∷ s) = c ∷ pop_back (d ∷ s)

-- Where the loop over the bytes of one `read` is: at a key, behind an escape byte, or in an escape
-- sequence.
pub data Mode : Type 0 where
  at_key escape sequence : Mode

-- The bytes of escape sequences, and escape bytes.
abbrev pub is_swallowed : Mode → ℕ → Bool
is_swallowed at_key c = c == 27
is_swallowed escape c = c == 27 || (c == b'[' || c == b'O')
is_swallowed sequence c = true

abbrev pub is_final : ℕ → Bool
is_final c = leb 64 c && leb c 126

-- The mode behind such a byte.
abbrev pub next_mode : Mode → ℕ → Mode
next_mode at_key c = escape
next_mode escape c = if c == 27 then escape else sequence
next_mode sequence c = if is_final c then at_key else sequence

abbrev pub is_printable : ℕ → Bool
is_printable c = leb 32 c && ltb c 127

abbrev pub push_key : ℕ → Exec Chat Bool
push_key c s = (do set_input (s.input ++ c ∷ []); say (c ∷ []); pure true) s

-- Ctrl-D leaves on an empty line.
abbrev pub leave_on : Bytes → Exec Chat Bool
leave_on [] = do new_line; pure false
leave_on (c ∷ input) = pure true

abbrev pub more_keys : Exec Chat Bool → Bool → Exec Chat Bool
more_keys rest true = rest
more_keys rest false = pure false

module _ ⦃calendar : Calendar⦄ where
  -- A change that came while there was input is shown now.
  abbrev pub reprint_if : Bytes → Bool → Exec Chat Bool
  reprint_if peer true = do full_reprint peer; pure true
  reprint_if peer false = pure true

  abbrev pub rub : Bytes → Bytes → Bool → Exec Chat Bool
  rub peer [] pending = reprint_if peer pending
  rub peer (c ∷ input) pending = do set_input (pop_back (c ∷ input)); say rub_out; pure true

  abbrev pub empty_line : Bytes → Bool → Exec Chat Bool
  empty_line peer true = do full_reprint peer; pure true
  empty_line peer false = do redraw_prompt peer; pure true

  -- What follows handle_line, which may have thrown.
  abbrev pub after_line : Bytes → Result Bool → Exec Chat Bool
  after_line peer (ok false) = pure false
  after_line peer (ok true) = do full_reprint peer; pure true
  after_line peer (err e) = do
    on client_ (complain (codes "error: " ++ what e))
    full_reprint peer
    pure true

module _ ⦃internet : Internet⦄ ⦃sodium : Sodium⦄ ⦃json : JsonLib⦄ ⦃calendar : Calendar⦄
    ⦃clock : Clock⦄ where
  abbrev pub entered : Bytes → Bytes → Exec Chat Bool
  entered peer [] s = empty_line peer s.pending_refresh s
  entered peer (c ∷ line) s =
      (do
        cont ← attempt (on client_ (handle_line peer s.displayed (c ∷ line)))
        after_line peer cont)
        s

  unfoldable pub enter : Bytes → Exec Chat Bool
  unfolding handle_line full_reprint redraw_prompt what
  enter peer = do new_line; s ← locals; set_input []; entered peer s.input

  -- One key: whether the chat goes on.
  unfoldable pub key : Bytes → ℕ → Exec Chat Bool
  unfolding enter full_reprint pop_back
  key peer c s =
      if c == 10 || c == 13
      then enter peer s
      else if c == 127 || c == 8
      then rub peer s.input s.pending_refresh s
      else if c == 4
      then leave_on s.input s
      else if is_printable c
      then push_key c s
      else (ok true, s)

  -- The bytes of one `read`.
  unfoldable pub keys : Bytes → Mode → Bytes → Exec Chat Bool
  unfolding key
  keys peer mode [] = pure true
  keys peer mode (c ∷ bytes) =
      let swallowed = keys peer (next_mode mode c) bytes in
      let rest = keys peer at_key bytes in
      if is_swallowed mode c then swallowed else key peer c >>= more_keys rest
