-- ===== src/Client/Threads.antt =====
-- Conversations and threads, from the local store alone.
use eternal_blue.Prelude.{
  ℕ, ◌+◌, Bytes, codes, ◌==◌, Bytes-tested, ℕ-tested, Bool, ◌&&◌, ◌||◌, Option, none, some, List,
  [], ◌∷◌, ◌++◌, if◌then◌else◌, keep,
}
use eternal_blue.Prelude.Int.{ℤ, pos, ltz, lez}
use eternal_blue.Prelude.Sort.{sort_by}
use eternal_blue.Prelude.Decimal.{to_string}
use eternal_blue.Prelude.Exec.{Exec, pure, on, ◌>>=◌, ◌>>◌}
use eternal_blue.Message.{Message}
use eternal_blue.Message.Wire.{Calendar}
use eternal_blue.LocalStore.{list_messages}
use eternal_blue.Client.State.{Client, store_, print, members}
use eternal_blue.Client.Messages.{ms_to_iso}

pub record ConvSummary : Type 0 where
  pub peer : Bytes
  pub last_sent_at_ms : ℤ
  pub count : ℕ

-- The other party of a message, when the user is one of the two.
unfoldable pub peer_of : Bytes → Message → Option Bytes
peer_of me m =
    if m.sender_username == me
    then some m.recipient_username
    else if m.recipient_username == me
    then some m.sender_username
    else none

-- A summary after one more message of the time `sent`.
unfoldable pub counted : ℤ → ConvSummary → ConvSummary
counted sent s = record s {
  count = s.count + 1;
  last_sent_at_ms = if ltz s.last_sent_at_ms sent then sent else s.last_sent_at_ms;
}

-- by_peer[peer], with the summary changed. The order of a hash map's entries is not specified; here a
-- new one goes to the end.
unfoldable pub add_to : Bytes → ℤ → List ConvSummary → List ConvSummary
unfolding counted
add_to peer sent [] = counted sent (record { peer = peer; last_sent_at_ms = pos 0; count = 0 }) ∷ []
add_to peer sent (s ∷ convs) =
    let rest = add_to peer sent convs in if s.peer == peer then counted sent s ∷ convs else s ∷ rest

unfoldable pub grouped : Bytes → List Message → List ConvSummary → List ConvSummary
unfolding peer_of add_to
grouped me [] convs = convs
grouped me (m ∷ messages) convs = elim (peer_of me m) [
  | none ↦ grouped me messages convs
  | some peer ↦ grouped me messages (add_to peer m.sent_at_ms convs)
]

unfoldable pub latest_first : ConvSummary → ConvSummary → Bool
latest_first a b = lez b.last_sent_at_ms a.last_sent_at_ms

unfoldable pub list_conversations : Exec Client (List ConvSummary)
unfolding list_messages grouped latest_first sort_by
list_conversations = do
  c ← members
  messages ← on store_ list_messages
  pure (sort_by latest_first (grouped c.username messages []))

-- Whether a message goes between the two.
unfoldable pub is_between : Bytes → Bytes → Message → Bool
is_between me peer m =
    m.sender_username == me && m.recipient_username == peer
    || m.sender_username == peer && m.recipient_username == me

unfoldable pub oldest_first : Message → Message → Bool
oldest_first a b = lez a.sent_at_ms b.sent_at_ms

unfoldable pub list_thread : Bytes → Exec Client (List Message)
unfolding list_messages is_between oldest_first sort_by
list_thread peer = do
  c ← members
  messages ← on store_ list_messages
  pure (sort_by oldest_first (keep (is_between c.username peer) messages))

-- The UTF-8 bytes of two box-drawing dashes.
abbrev pub rule : Bytes
rule = 226 ∷ 148 ∷ 128 ∷ 226 ∷ 148 ∷ 128 ∷ []

module _ ⦃calendar : Calendar⦄ where
  abbrev pub conversation_lines : List ConvSummary → Exec Client (Unit {0})
  conversation_lines [] = pure tt
  conversation_lines (s ∷ convs) = do
    print (
        codes "  "
        ++ (s.peer
            ++ (codes "  last "
                ++ (ms_to_iso s.last_sent_at_ms
                    ++ (codes "  ("
                        ++ (to_string s.count
                            ++ (if s.count == 1
                                then codes " message)"
                                else codes " messages)")))))))
    conversation_lines convs

  abbrev pub conversations_shown : List ConvSummary → Exec Client (Unit {0})
  conversations_shown [] = print (codes "(no conversations)")
  conversations_shown (s ∷ convs) = conversation_lines (s ∷ convs)

  unfoldable pub print_conversations : Exec Client (Unit {0})
  unfolding list_conversations ms_to_iso to_string
  print_conversations = do convs ← list_conversations; conversations_shown convs

  unfoldable pub format_thread_line : Bytes → ℕ → Message → Bytes
  unfolding ms_to_iso to_string
  format_thread_line username index m =
      to_string index
      ++ (codes ". ["
          ++ ((if m.sender_username == username then codes "you" else m.sender_username)
              ++ (codes " "
                  ++ (ms_to_iso m.sent_at_ms
                      ++ (codes "] "
                          ++ (if m.revoked then codes "(message revoked)" else m.plaintext))))))

  abbrev pub thread_lines : ℕ → List Message → Exec Client (Unit {0})
  thread_lines i [] = pure tt
  thread_lines i (m ∷ thread) = do
    c ← members
    print (format_thread_line c.username (i + 1) m)
    thread_lines (i + 1) thread

  abbrev pub thread_shown : List Message → Exec Client (Unit {0})
  thread_shown [] = print (codes "(no messages yet)")
  thread_shown (m ∷ thread) = thread_lines 0 (m ∷ thread)

  unfoldable pub print_thread : Bytes → Exec Client (List Message)
  unfolding list_thread format_thread_line
  print_thread peer = do
    thread ← list_thread peer
    print (rule ++ (codes " chat with " ++ (peer ++ (codes " " ++ rule))))
    thread_shown thread
    pure thread
