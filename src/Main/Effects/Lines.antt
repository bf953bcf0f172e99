-- ===== src/Main/Effects/Lines.antt =====
-- Lines that are entered in the chat mode: effects on the client alone, whatever is typed.
use eternal_blue.Prelude.{
  ℕ, Bytes, codes, ◌==◌, ℕ-tested, Bytes-tested, true, Option, none, some, List, [], ◌∷◌, refl,
  is_empty, get_elem?, zero, suc,
}
use eternal_blue.Prelude.Int.{ℤ, pos, negsuc}
use eternal_blue.Prelude.Decimal.{stoi}
use eternal_blue.Prelude.Exec.{Exec, Result, ok, err, pure, ◌>>◌}
use eternal_blue.Sodium.{Sodium}
use eternal_blue.Json.{JsonLib}
use eternal_blue.Message.{Message}
use eternal_blue.Message.Wire.{Calendar}
use eternal_blue.HttpClient.{Internet}
use eternal_blue.Client.State.{Client, Clock}
use eternal_blue.Client.Sending.{send_message, forward_message}
use eternal_blue.Client.Messages.{delete_message, revoke_message}
use eternal_blue.Client.Inbox.{sync}
use eternal_blue.Client.Evolves.{
  Evolving, same, once, writes, bind-Evolving, then-Evolving, if-Evolving,
}
use eternal_blue.Client.Evolves.Sending.{send_message-Evolving, forward_message-Evolving}
use eternal_blue.Client.Evolves.Messages.{delete_message-Evolving, revoke_message-Evolving}
use eternal_blue.Client.Evolves.Sync.{sync-Evolving}
use eternal_blue.Main.Words.{split}
use eternal_blue.Main.Index.{id_at, numbered, parsed, resolve_index}
use eternal_blue.Main.Lines.{
  remark, unless_empty, with_index, starts_slash, leaves, forward_index, slash_command, line_words,
  handle_line,
}

module _ ⦃internet : Internet⦄ ⦃sodium : Sodium⦄ where
  remark-Evolving : (text : Bytes) → Evolving (remark text)
  remark-Evolving text c = once (writes _ refl)

  numbered-Evolving : (thread : List Message) (n : ℤ) → Evolving (numbered thread n)
  numbered-Evolving thread (pos zero) c = once (writes _ refl)
  numbered-Evolving thread (pos (suc i)) c = at (get_elem? thread i) c
    where
      at : (m : Option Message) → Evolving (id_at thread (pos (suc i)) m)
      at (some m) c = same
      at none c = once (writes _ refl)
  numbered-Evolving thread (negsuc n) c = once (writes _ refl)

  parsed-Evolving :
      (thread : List Message) (tok : Bytes) (r : Result ℤ) → Evolving (parsed thread tok r)
  parsed-Evolving thread tok (ok n) = numbered-Evolving thread n
  parsed-Evolving thread tok (err e) = λ c. once (writes _ refl)

  resolve_index-Evolving :
      (thread : List Message) (tok : Bytes) → Evolving (resolve_index thread tok)
  unfolding resolve_index
  resolve_index-Evolving thread tok = parsed-Evolving thread tok (stoi tok)

  unless_empty-Evolving :
      (act : Bytes → Exec Client ℕ) (id : Bytes)
      → ((id : Bytes) → Evolving (act id))
      → Evolving (unless_empty act id)
  unless_empty-Evolving act id h =
      if-Evolving (is_empty id) (pure true) (act id >> pure true) (λ c. same)
        (then-Evolving (act id) (pure true) (h id) λ c. same)

  with_index-Evolving :
      (displayed : List Message) (usage : Bytes) (act : Bytes → Exec Client ℕ) (args : List Bytes)
      → ((id : Bytes) → Evolving (act id))
      → Evolving (with_index displayed usage act args)
  with_index-Evolving displayed usage act [] h = remark-Evolving usage
  with_index-Evolving displayed usage act (tok ∷ args) h =
      bind-Evolving (resolve_index displayed tok) (unless_empty act)
        (resolve_index-Evolving displayed tok) λ id. unless_empty-Evolving act id h

module _ ⦃internet : Internet⦄ ⦃sodium : Sodium⦄ ⦃json : JsonLib⦄ ⦃calendar : Calendar⦄
    ⦃clock : Clock⦄ where
  forward_index-Evolving :
      (displayed : List Message) (args : List Bytes) → Evolving (forward_index displayed args)
  forward_index-Evolving displayed (tok ∷ name ∷ args) =
      let act : Bytes → Exec Client ℕ = λ id. forward_message id name in
      bind-Evolving (resolve_index displayed tok) (λ id. unless_empty act id)
        (resolve_index-Evolving displayed tok)
        λ id. unless_empty-Evolving act id λ id'. forward_message-Evolving id' name
  forward_index-Evolving displayed _ = remark-Evolving _

  slash_command-Evolving :
      (displayed : List Message) (sub : Bytes) (args : List Bytes)
      → Evolving (slash_command displayed sub args)
  unfolding slash_command
  slash_command-Evolving displayed sub args =
      if-Evolving (leaves sub) _ _ (λ c. same)
        (if-Evolving (sub == codes "/sync") _ _
          (then-Evolving (sync true) (pure true) (sync-Evolving true) λ c. same)
          (if-Evolving (sub == codes "/list") _ _ (λ c. same)
            (if-Evolving (sub == codes "/delete") _ _
              (with_index-Evolving displayed _ delete_message args delete_message-Evolving)
              (if-Evolving (sub == codes "/revoke") _ _
                (with_index-Evolving displayed _ revoke_message args revoke_message-Evolving)
                (if-Evolving (sub == codes "/forward") _ _ (forward_index-Evolving displayed args)
                  (remark-Evolving _))))))

  line_words-Evolving :
      (peer : Bytes) (displayed : List Message) (line : Bytes) (args : List Bytes)
      → Evolving (line_words peer displayed line args)
  line_words-Evolving peer displayed line [] = λ c. same
  line_words-Evolving peer displayed line (sub ∷ args) =
      if-Evolving (starts_slash sub) _ _ (slash_command-Evolving displayed sub args) (
        then-Evolving (send_message peer line) (pure true) (send_message-Evolving peer line)
          λ c. same)

  pub handle_line-Evolving :
      (peer : Bytes) (displayed : List Message) (line : Bytes)
      → Evolving (handle_line peer displayed line)
  unfolding handle_line
  handle_line-Evolving peer displayed line = line_words-Evolving peer displayed line (split line)
