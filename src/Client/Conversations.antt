-- ===== src/Client/Conversations.antt =====
-- Client::list_conversations: its summaries, their peers and counts.
use eternal_blue.Prelude.{
  ℕ, Bytes, ◌==◌, Bytes-tested, Bool, false, ◌||◌, Option, none, some, List, [], ◌∷◌, ◌≡◌, keep,
  if◌then◌else◌,
}
use eternal_blue.Message.{Message}
use eternal_blue.Client.State.{Client}
use eternal_blue.Client.Threads.{ConvSummary, peer_of}

-- The count of the first summary of a peer.
abbrev pub count_for : Bytes → List ConvSummary → ℕ
count_for peer [] = 0
count_for peer (s ∷ convs) =
    let rest = count_for peer convs in if s.peer == peer then s.count else rest

abbrev pub is_peer : Bytes → Option Bytes → Bool
is_peer peer none = false
is_peer peer (some other) = other == peer

abbrev pub has_peer : Bytes → List ConvSummary → Bool
has_peer peer [] = false
has_peer peer (s ∷ convs) = s.peer == peer || has_peer peer convs

-- No two summaries of one peer.
abbrev pub AreDistinct : List ConvSummary → Type 0
AreDistinct [] = Unit
AreDistinct (s ∷ convs) = (has_peer s.peer convs ≡ false) × AreDistinct convs

-- The messages that the user exchanged with a peer.
abbrev pub exchanged : Bytes → Bytes → List Message → List Message
exchanged me peer messages = keep (λ m. is_peer peer (peer_of me m)) messages
