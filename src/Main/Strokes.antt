-- ===== src/Main/Strokes.antt =====
-- A reference for the line editor of the chat mode: strokes on a stack of characters.
use eternal_blue.Prelude.{ℕ, Bytes, ℕ-tested, Bool, true, false, List, [], ◌∷◌, ◌++◌, ◌≡◌, All}
use mathlib.Core.List.{reverse}
use eternal_blue.Client.State.{Output, prompt}
use eternal_blue.Main.Screen.{Chat}
use eternal_blue.Main.Keys.{is_final, is_printable, rub_out}

-- A printable character, a backspace, or an escape sequence: its introducer, the bytes before the last
-- one, and the last one.
pub data Stroke : Type 0 where
  char : ℕ → Stroke
  backspace delete : Stroke
  escape_sequence : Bool → Bytes → ℕ → Stroke

abbrev pub introducer : Bool → ℕ
introducer true = b'['
introducer false = b'O'

-- The bytes that the terminal sends, in front of others.
abbrev pub spelling : List Stroke → Bytes → Bytes
spelling [] rest = rest
spelling (char c ∷ strokes) rest = c ∷ spelling strokes rest
spelling (backspace ∷ strokes) rest = 8 ∷ spelling strokes rest
spelling (delete ∷ strokes) rest = 127 ∷ spelling strokes rest
spelling (escape_sequence csi params final ∷ strokes) rest =
    27 ∷ introducer csi ∷ (params ++ final ∷ spelling strokes rest)

abbrev pub IsStroke : Stroke → Type 0
IsStroke (char c) = is_printable c ≡ true
IsStroke (escape_sequence csi params final) =
    All (λ p. is_final p ≡ false) params × (is_final final ≡ true)
IsStroke _ = Unit {0}

abbrev pub rubbed : Bytes → Bytes
rubbed [] = []
rubbed (c ∷ stack) = stack

abbrev pub rub_echo : Bytes → List Output
rub_echo [] = []
rub_echo (c ∷ stack) = prompt rub_out ∷ []

-- The reference: the line as a stack, its last character first.
abbrev pub edit : Stroke → Bytes → Bytes
edit (char c) stack = c ∷ stack
edit (escape_sequence csi params final) stack = stack
edit _ stack = rubbed stack

abbrev pub echo : Stroke → Bytes → List Output
echo (char c) stack = prompt (c ∷ []) ∷ []
echo (escape_sequence csi params final) stack = []
echo _ stack = rub_echo stack

abbrev pub edited : List Stroke → Bytes → Bytes
edited [] stack = stack
edited (k ∷ strokes) stack = edited strokes (edit k stack)

abbrev pub echoes : List Stroke → Bytes → List Output
echoes [] stack = []
echoes (k ∷ strokes) stack = echo k stack ++ echoes strokes (edit k stack)

-- The locals with another line, and more output.
abbrev pub with_line : Bytes → List Output → Chat → Chat
with_line stack more s = record s {
  input = reverse stack;
  client = record s.client { output = s.client.output ++ more };
}
