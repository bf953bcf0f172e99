-- ===== src/Main/Resolves.antt =====
-- Which message a number means, and which changes of a thread are seen.
use eternal_blue.Prelude.{
  ℕ, suc, Bytes, bytes_beq_iff, bool_beq_iff, Bool, false, some, List, [], ◌∷◌, ◌≡◌, ◌↔◌, refl, map,
  get_elem?, arith,
}
use eternal_blue.Prelude.Int.{ℤ, pos}
use eternal_blue.Prelude.Decimal.{stoi}
use eternal_blue.Prelude.Exec.{ok}
use eternal_blue.Message.{Message}
use eternal_blue.Client.State.{Client}
use eternal_blue.Main.Index.{thread_changed}

-- The message that a text means: its first number is one more than an index of the thread.
abbrev pub Means : List Message → Bytes → Message → Type 0
Means thread tok m = (i : ℕ) × (stoi tok ≡ ok (pos (suc i))) × (get_elem? thread i ≡ some m)

abbrev Resolved : List Message → ℤ → Client → Bytes → Client → Type 0
Resolved thread n c id d =
    (i : ℕ) × (m : Message) × (n ≡ pos (suc i))
    × (get_elem? thread i ≡ some m)
    × (m.message_id ≡ id)
    × (d ≡ c)

-- What is compared of a message.
abbrev pub mark : Message → Bytes × Bool
mark m = (m.message_id, m.revoked)

-- Two threads differ to the chat mode unless they have the same ids with the same flags, in the same
-- order.
pub thread_changed_iff :
    (a b : List Message) → (thread_changed a b ≡ false) ↔ (map mark a ≡ map mark b)
unfolding thread_changed
thread_changed_iff [] [] = (λ _. refl, λ _. refl)
thread_changed_iff [] (y ∷ b) = (λ h. cc, λ h. cc)
thread_changed_iff (x ∷ a) [] = (λ h. cc, λ h. cc)
thread_changed_iff (x ∷ a) (y ∷ b) =
    let same_id = bytes_beq_iff x.message_id y.message_id in
    let same_flag = bool_beq_iff x.revoked y.revoked in
    let rest = thread_changed_iff a b in ground (arith, same_id, same_flag, rest)
