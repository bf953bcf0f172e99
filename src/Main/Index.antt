-- ===== src/Main/Index.antt =====
-- Messages of the thread on the screen by their numbers, and whether a thread differs from it.
use eternal_blue.Prelude.{
  zero, suc, Bytes, codes, ◌==◌, Bytes-tested, Bool-tested, Bool, true, false, not, List, [], ◌∷◌,
  ◌++◌, if◌then◌else◌, length, Option, none, some, get_elem?,
}
use eternal_blue.Prelude.Int.{ℤ, pos, negsuc}
use eternal_blue.Prelude.Decimal.{stoi, to_string, to_string_signed}
use eternal_blue.Prelude.Exec.{Exec, Result, ok, err, pure, ◌>>◌}
use eternal_blue.Message.{Message}
use eternal_blue.Client.State.{Client, complain}

abbrev pub out_of_thread : List Message → ℤ → Exec Client Bytes
out_of_thread thread n = do
  complain (
      codes "index "
      ++ (to_string_signed n
          ++ (codes " out of range (thread has "
              ++ (to_string (length thread) ++ codes " messages)"))))
  pure []

-- thread[n - 1], for n from 1 to the number of messages.
abbrev pub id_at : List Message → ℤ → Option Message → Exec Client Bytes
id_at thread n (some m) = pure m.message_id
id_at thread n none = out_of_thread thread n

abbrev pub numbered : List Message → ℤ → Exec Client Bytes
numbered thread (pos zero) = out_of_thread thread (pos zero)
numbered thread (pos (suc i)) = id_at thread (pos (suc i)) (get_elem? thread i)
numbered thread (negsuc n) = out_of_thread thread (negsuc n)

abbrev pub parsed : List Message → Bytes → Result ℤ → Exec Client Bytes
parsed thread tok (ok n) = numbered thread n
parsed thread tok (err e) = do complain (codes "expected a number, got: " ++ tok); pure []

unfoldable pub resolve_index : List Message → Bytes → Exec Client Bytes
unfolding stoi to_string to_string_signed
resolve_index thread tok = parsed thread tok (stoi tok)

unfoldable pub thread_changed : List Message → List Message → Bool
thread_changed [] [] = false
thread_changed (x ∷ a) (y ∷ b) =
    let rest = thread_changed a b in
    if not (x.message_id == y.message_id)
    then true
    else if not (x.revoked == y.revoked)
    then true
    else rest
thread_changed _ _ = true
