-- ===== src/TlsConnection/Transfer.antt =====
-- What write sends and read_all returns, through any partial writes and reads.
use eternal_blue.Prelude.{
  ℕ, zero, suc, ◌^◌, ◌<◌, ◌≤◌, min, Bytes, List, [], ◌∷◌, ◌++◌, ◌≡◌, ◌≢◌, ◌↔◌, refl, sym, ap, ◌∙◌,
  length, take, drop, length-drop, take-append-drop, arith, All, append_assoc, append-nil, ℕ-tested,
}
use eternal_blue.Prelude.Exec.{Result, ok}
use eternal_blue.TlsConnection.Defs.{
  Network, TlsConnection, Send, takes, refuses, Event, received, zero_return, end_of_stream,
  want_read, want_write, read_fails, write_loop, write, write_turn, read_loop, read_all, offered,
  write_failed,
}

-- No call of SSL_write is refused.
abbrev pub IsAccepting : List Send → Type 0
IsAccepting = All (λ send. (code : ℕ) → send ≢ refuses code)

module _ (network : Network) where
  failed_not_ok : (code : ℕ) → write_failed network code ≢ ok tt
  failed_not_ok code h = cc

  -- The turns after one that took `n` bytes leave fuel enough.
  turn_complete :
      (fuel n b : ℕ) (rest : Bytes) (later : Result (Unit {0}) × Bytes)
      → length rest ≤ fuel
      → (length (drop n (b ∷ rest)) ≤ fuel → later.0 ≡ ok tt → later.1 ≡ drop n (b ∷ rest))
      → (write_turn (write_failed network network.length_code) n (b ∷ rest) later).0 ≡ ok tt
      → (write_turn (write_failed network network.length_code) n (b ∷ rest) later).1 ≡ b ∷ rest
  turn_complete fuel zero b rest later bound more h = absurd (failed_not_ok network.length_code h)
  turn_complete fuel (suc n) b rest later bound more h =
      ap (λ t. take (suc n) (b ∷ rest) ++ t) (more (omega (arith, length-drop n rest)) h)
      ∙ take-append-drop (suc n) (b ∷ rest)

  pub write_loop_complete :
      (fuel : ℕ) (sends : List Send) (rest : Bytes)
      → length rest ≤ fuel
      → (write_loop network fuel sends rest).0 ≡ ok tt
      → (write_loop network fuel sends rest).1 ≡ rest
  unfolding write_loop
  write_loop_complete fuel sends [] bound h = refl
  write_loop_complete zero sends (b ∷ rest) bound h = absurd (omega arith)
  write_loop_complete (suc fuel) (refuses code ∷ sends) (b ∷ rest) bound h =
      absurd (failed_not_ok code h)
  write_loop_complete (suc fuel) (takes n ∷ sends) (b ∷ rest) bound h =
      turn_complete fuel (min (suc n) (offered (length (b ∷ rest)))) b rest _ (omega arith)
        (write_loop_complete fuel sends _) h
  write_loop_complete (suc fuel) [] (b ∷ rest) bound h =
      turn_complete fuel (min (suc (2 ^ 31)) (offered (length (b ∷ rest)))) b rest _ (omega arith)
        (write_loop_complete fuel [] _) h

  -- Below 2^31 bytes, a write that is not refused takes a byte at least.
  offered_small :
      (n size : ℕ) → suc size < 2 ^ 31 → min (suc n) (offered (suc size)) ≡ suc (min n size)
  offered_small n size small = ground arith

  turn_succeeds :
      (n b : ℕ) (rest : Bytes) (later : Bytes → Result (Unit {0}) × Bytes)
      → length (b ∷ rest) < 2 ^ 31
      → ((left : Bytes) → length left < 2 ^ 31 → (later left).0 ≡ ok tt)
      → (write_turn
          (write_failed network network.length_code)
          (min (suc n) (offered (length (b ∷ rest))))
          (b ∷ rest)
          (later (drop (min (suc n) (offered (length (b ∷ rest)))) (b ∷ rest)))).0
        ≡ ok tt
  turn_succeeds n b rest later small more = rw (offered_small n (length rest) small) (
      more (drop (min n (length rest)) rest)
        (omega (arith, length-drop (min n (length rest)) rest)))

  pub write_loop_succeeds :
      (fuel : ℕ) (sends : List Send) (rest : Bytes)
      → length rest < 2 ^ 31
      → IsAccepting sends
      → (write_loop network fuel sends rest).0 ≡ ok tt
  unfolding write_loop
  write_loop_succeeds fuel sends [] small h = refl
  write_loop_succeeds zero sends (b ∷ rest) small h = refl
  write_loop_succeeds (suc fuel) (refuses code ∷ sends) (b ∷ rest) small h = absurd (h.0 code refl)
  write_loop_succeeds (suc fuel) (takes n ∷ sends) (b ∷ rest) small h =
      turn_succeeds n b rest (write_loop network fuel sends) small
        λ left short. write_loop_succeeds fuel sends left short h.1
  write_loop_succeeds (suc fuel) [] (b ∷ rest) small h =
      turn_succeeds (2 ^ 31) b rest (write_loop network fuel []) small
        λ left short. write_loop_succeeds fuel [] left short tt

  -- Whenever `write` returns, the whole text has been sent.
  write_complete :
      (text : Bytes) (s : TlsConnection)
      → (write network text s).0 ≡ ok tt
      → (write network text s).1.wire ≡ s.wire ++ text
  unfolding write
  write_complete text s h =
      ap (λ t. s.wire ++ t) (write_loop_complete (length text) network.sends text (omega arith) h)

  -- If no call of SSL_write is refused and the text is shorter than 2^31 bytes, `write` returns and
  -- has sent the whole text.
  pub write_sends :
      (text : Bytes) (s : TlsConnection)
      → IsAccepting network.sends
      → length text < 2 ^ 31
      → ((write network text s).0 ≡ ok tt) × ((write network text s).1.wire ≡ s.wire ++ text)
  unfolding write
  write_sends text s accepting small =
      let returns = write_loop_succeeds (length text) network.sends text small accepting in
      (returns, write_complete text s returns)

-- The bytes before the first event that ends the loop.
abbrev pub delivered : List Event → Bytes
delivered (received b more ∷ events) = b ∷ more ++ delivered events
delivered (want_read ∷ events) = delivered events
delivered (want_write ∷ events) = delivered events
delivered _ = []

-- No failure before a clean close or the end of the stream.
abbrev pub EndsWell : List Event → Type 0
EndsWell (received b more ∷ events) = EndsWell events
EndsWell (want_read ∷ events) = EndsWell events
EndsWell (want_write ∷ events) = EndsWell events
EndsWell (read_fails code ∷ events) = ⊥
EndsWell _ = Unit

read_loop_lem :
    (queue : List Bytes) (events : List Event) (out : Bytes)
    → EndsWell events
    → read_loop queue events out ≡ ok (out ++ delivered events)
unfolding read_loop
read_loop_lem queue [] out h = ap ok (sym (append-nil out))
read_loop_lem queue (received b more ∷ events) out h =
    read_loop_lem queue events (out ++ b ∷ more) h
    ∙ ap ok (append_assoc out (b ∷ more) (delivered events))
read_loop_lem queue (zero_return ∷ events) out h = ap ok (sym (append-nil out))
read_loop_lem queue (end_of_stream ∷ events) out h = ap ok (sym (append-nil out))
read_loop_lem queue (want_read ∷ events) out h = read_loop_lem queue events out h
read_loop_lem queue (want_write ∷ events) out h = read_loop_lem queue events out h
read_loop_lem queue (read_fails code ∷ events) out h = absurd h

read_loop_fails :
    (queue : List Bytes) (events : List Event) (out text : Bytes)
    → read_loop queue events out ≡ ok text
    → EndsWell events
unfolding read_loop
read_loop_fails queue [] out text h = tt
read_loop_fails queue (received b more ∷ events) out text h =
    read_loop_fails queue events (out ++ b ∷ more) text h
read_loop_fails queue (zero_return ∷ events) out text h = tt
read_loop_fails queue (end_of_stream ∷ events) out text h = tt
read_loop_fails queue (want_read ∷ events) out text h = read_loop_fails queue events out text h
read_loop_fails queue (want_write ∷ events) out text h = read_loop_fails queue events out text h
read_loop_fails queue (read_fails code ∷ events) out text h = cc

-- `read_all` returns if and only if no call of SSL_read fails before the peer closes the connection,
-- and it then returns all bytes that were received before, in their order.
pub read_all_lem :
    (network : Network) (s : TlsConnection) (text : Bytes)
    → ((read_all network s).0 ≡ ok text)
      ↔ (EndsWell (network.events s.wire) × (delivered (network.events s.wire) ≡ text))
unfolding read_all
read_all_lem network s text =
    let queue = network.error_queue in
    let events = network.events s.wire in
    (
      (λ h.
          let well = read_loop_fails queue events [] text h in
          (well, cc (read_loop_lem queue events [] well, h))),
      λ h. read_loop_lem queue events [] h.0 ∙ ap ok h.1,
    )
