-- ===== src/Main/Lines.antt =====
-- What a line that is entered in the chat mode does.
use eternal_blue.Prelude.{
  ℕ, Bytes, codes, ◌==◌, Bytes-tested, ℕ-tested, Bool, true, false, ◌||◌, List, [], ◌∷◌, ◌++◌,
  if◌then◌else◌, is_empty,
}
use eternal_blue.Prelude.Exec.{Exec, pure, ◌>>=◌, ◌>>◌}
use eternal_blue.Sodium.{Sodium}
use eternal_blue.Json.{JsonLib}
use eternal_blue.Message.{Message}
use eternal_blue.Message.Wire.{Calendar}
use eternal_blue.HttpClient.{Internet}
use eternal_blue.Client.State.{Client, Clock, complain}
use eternal_blue.Client.Sending.{send_message, forward_message}
use eternal_blue.Client.Messages.{delete_message, revoke_message}
use eternal_blue.Client.Inbox.{sync}
use eternal_blue.Main.Words.{split}
use eternal_blue.Main.Index.{resolve_index}

-- Reports on std::cerr, and the chat goes on.
abbrev pub remark : Bytes → Exec Client Bool
remark text = do complain text; pure true

-- A command that acts on the id of a message, if there is one.
abbrev pub unless_empty : (Bytes → Exec Client ℕ) → Bytes → Exec Client Bool
unless_empty act id = if is_empty id then pure true else (do act id; pure true)

abbrev pub with_index :
    List Message → Bytes → (Bytes → Exec Client ℕ) → List Bytes → Exec Client Bool
with_index displayed usage act [] = remark usage
with_index displayed usage act (tok ∷ args) = do
  id ← resolve_index displayed tok
  unless_empty act id

abbrev pub starts_slash : Bytes → Bool
starts_slash [] = false
starts_slash (c ∷ w) = c == b'/'

abbrev pub unknown_text : Bytes → Bytes
unknown_text sub =
    codes "unknown chat command: "
    ++ (sub ++ codes " (try /back, /sync, /list, /delete, /revoke, /forward)")

abbrev pub leaves : Bytes → Bool
leaves sub = sub == codes "/back" || sub == codes "/quit" || sub == codes "/exit"

module _ ⦃internet : Internet⦄ ⦃sodium : Sodium⦄ ⦃json : JsonLib⦄ ⦃calendar : Calendar⦄
    ⦃clock : Clock⦄ where
  abbrev pub forward_index : List Message → List Bytes → Exec Client Bool
  forward_index displayed (tok ∷ name ∷ args) = do
    id ← resolve_index displayed tok
    unless_empty (λ id. forward_message id name) id
  forward_index displayed _ = remark (codes "usage: /forward <#> <username>")

  unfoldable pub slash_command : List Message → Bytes → List Bytes → Exec Client Bool
  unfolding sync resolve_index delete_message revoke_message forward_message
  slash_command displayed sub args =
      if leaves sub
      then pure false
      else if sub == codes "/sync"
      then (do sync true; pure true)
      else if sub == codes "/list"
      then pure true
      else if sub == codes "/delete"
      then with_index displayed (codes "usage: /delete <#>") delete_message args
      else if sub == codes "/revoke"
      then with_index displayed (codes "usage: /revoke <#>") revoke_message args
      else if sub == codes "/forward"
      then forward_index displayed args
      else remark (unknown_text sub)

  abbrev pub line_words : Bytes → List Message → Bytes → List Bytes → Exec Client Bool
  line_words peer displayed line [] = pure true
  line_words peer displayed line (sub ∷ args) =
      if starts_slash sub
      then slash_command displayed sub args
      else (do send_message peer line; pure true)

  -- Whether the chat goes on.
  unfoldable pub handle_line : Bytes → List Message → Bytes → Exec Client Bool
  unfolding split slash_command send_message
  handle_line peer displayed line = line_words peer displayed line (split line)
