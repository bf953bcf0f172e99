-- ===== src/Client/Evolves/Threads.antt =====
-- The effects of list_thread, print_thread and print_conversations.
use eternal_blue.Sodium.{Sodium}
use eternal_blue.Prelude.{ℕ, ◌+◌, Bytes, codes, List, [], ◌∷◌, ◌++◌, refl, keep}
use eternal_blue.Prelude.Sort.{sort_by}
use eternal_blue.Prelude.Exec.{Exec, pure, on, ◌>>◌}
use eternal_blue.Message.{Message}
use eternal_blue.Message.Wire.{Calendar}
use eternal_blue.LocalStore.{list_messages}
use eternal_blue.HttpClient.{Internet}
use eternal_blue.Client.State.{Client, store_, print}
use eternal_blue.Client.Threads.{
  ConvSummary, list_conversations, conversation_lines, conversations_shown, print_conversations,
  grouped, latest_first, is_between, oldest_first, list_thread, thread_lines, thread_shown, rule,
  print_thread,
}
use eternal_blue.Client.Evolves.{
  Evolving, Evolves-trans, same, once, writes, bind-Evolving, then-Evolving, list_messages-Evolving,
}

module _ ⦃internet : Internet⦄ ⦃sodium : Sodium⦄ where
  list_conversations-Evolving : Evolving list_conversations
  unfolding list_conversations
  list_conversations-Evolving c =
      bind-Evolving (on store_ list_messages)
        (λ messages. pure (sort_by latest_first (grouped c.username messages [])))
        list_messages-Evolving (λ _ c. same) c

  pub list_thread-Evolving : (peer : Bytes) → Evolving (list_thread peer)
  unfolding list_thread
  list_thread-Evolving peer c =
      bind-Evolving (on store_ list_messages)
        (λ messages. pure (sort_by oldest_first (keep (is_between c.username peer) messages)))
        list_messages-Evolving (λ _ c. same) c

  module _ ⦃calendar : Calendar⦄ where
    conversation_lines-Evolving : (convs : List ConvSummary) → Evolving (conversation_lines convs)
    conversation_lines-Evolving [] c = same
    conversation_lines-Evolving (s ∷ convs) c =
        Evolves-trans (once (writes _ refl)) (conversation_lines-Evolving convs _)

    conversations_shown-Evolving : (convs : List ConvSummary) → Evolving (conversations_shown convs)
    conversations_shown-Evolving [] c = once (writes _ refl)
    conversations_shown-Evolving (s ∷ convs) c = conversation_lines-Evolving (s ∷ convs) c

    pub print_conversations-Evolving : Evolving print_conversations
    unfolding print_conversations
    print_conversations-Evolving =
        bind-Evolving list_conversations conversations_shown list_conversations-Evolving
          conversations_shown-Evolving

    thread_lines-Evolving : (i : ℕ) (thread : List Message) → Evolving (thread_lines i thread)
    thread_lines-Evolving i [] c = same
    thread_lines-Evolving i (m ∷ thread) c =
        Evolves-trans (once (writes _ refl)) (thread_lines-Evolving (i + 1) thread _)

    thread_shown-Evolving : (thread : List Message) → Evolving (thread_shown thread)
    thread_shown-Evolving [] c = once (writes _ refl)
    thread_shown-Evolving (m ∷ thread) c = thread_lines-Evolving 0 (m ∷ thread) c

    pub print_thread-Evolving : (peer : Bytes) → Evolving (print_thread peer)
    unfolding print_thread
    print_thread-Evolving peer =
        let show : List Message → Exec Client (List Message) =
          λ thread. thread_shown thread >> pure thread in
        let title = rule ++ (codes " chat with " ++ (peer ++ (codes " " ++ rule))) in
        bind-Evolving (list_thread peer) (λ thread. print title >> show thread)
          (list_thread-Evolving peer)
          λ thread.
            then-Evolving (print title) (show thread) (λ c. once (writes _ refl))
              (then-Evolving (thread_shown thread) (pure thread) (thread_shown-Evolving thread)
                λ c. same)
