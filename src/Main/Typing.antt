-- ===== src/Main/Typing.antt =====
-- What is typed into the line of the chat mode.
use eternal_blue.Prelude.{
  ℕ, Bytes, ◌==◌, ℕ-tested, Bool, true, false, ◌||◌, List, [], ◌∷◌, ◌++◌, ◌≡◌, refl, sym, ap, ◌∙◌,
  All, append-nil, append_assoc, arith, inl, inr, ◌⊎◌,
}
use mathlib.Core.List.{reverse, reverse-cons}
use eternal_blue.Prelude.Exec.{ok, pure, resume, ◌>>◌}
use eternal_blue.Sodium.{Sodium}
use eternal_blue.Json.{JsonLib}
use eternal_blue.Message.Wire.{Calendar}
use eternal_blue.HttpClient.{Internet}
use eternal_blue.Client.State.{Clock, Output, prompt}
use eternal_blue.Main.Screen.{Chat, set_input, say}
use eternal_blue.Main.Keys.{
  at_key, sequence, is_final, is_printable, pop_back, rub_out, push_key, key, keys, more_keys, rub,
  reprint_if,
}
use eternal_blue.Main.Strokes.{
  Stroke, char, backspace, delete, escape_sequence, introducer, spelling, IsStroke, rubbed,
  rub_echo, edit, echo, edited, echoes, with_line,
}

printable_tests :
    (c : ℕ)
    → is_printable c ≡ true
    → ((c == 10 || c == 13) ≡ false)
      × ((c == 127 || c == 8) ≡ false)
      × ((c == 4) ≡ false)
      × ((c == 27) ≡ false)
printable_tests c h = ground arith

pop_back-snoc : (s : Bytes) (c : ℕ) → pop_back (s ++ c ∷ []) ≡ s
unfolding pop_back
pop_back-snoc [] c = refl
pop_back-snoc (d ∷ []) c = refl
pop_back-snoc (d ∷ e ∷ s) c = ap (d ∷◌) (pop_back-snoc (e ∷ s) c)

abbrev typed_into : Bytes → List Output → Chat → Chat
typed_into input more s = record s {
  input = input;
  client = record s.client { output = s.client.output ++ more };
}

abbrev rubbed_out : Bytes → Chat → Chat
rubbed_out input s = typed_into input (prompt rub_out ∷ []) s

with_line-nil : (stack : Bytes) (s : Chat) → s.input ≡ reverse stack → with_line stack [] s ≡ s
with_line-nil stack s e = λ i. record s {
  input = sym e i;
  client = record s.client { output = append-nil s.client.output i };
}

with_line-with_line :
    (one two : Bytes) (first second : List Output) (s : Chat)
    → with_line two second (with_line one first s) ≡ with_line two (first ++ second) s
with_line-with_line one two first second s = λ i. record s {
  input = reverse two;
  client = record s.client { output = append_assoc s.client.output first second i };
}

spelling-cons :
    (k : Stroke) (strokes : List Stroke) (rest : Bytes)
    → spelling (k ∷ strokes) rest ≡ spelling (k ∷ []) (spelling strokes rest)
spelling-cons (char c) strokes rest = refl
spelling-cons backspace strokes rest = refl
spelling-cons delete strokes rest = refl
spelling-cons (escape_sequence csi params final) strokes rest = refl

module _ ⦃internet : Internet⦄ ⦃sodium : Sodium⦄ ⦃json : JsonLib⦄ ⦃calendar : Calendar⦄
    ⦃clock : Clock⦄ (peer : Bytes) where
  -- The bytes of an escape sequence behind its introducer.
  keys-sequence :
      (params : Bytes) (final : ℕ) (rest : Bytes) (s : Chat)
      → All (λ p. is_final p ≡ false) params
      → is_final final ≡ true
      → keys peer sequence (params ++ final ∷ rest) s ≡ keys peer at_key rest s
  unfolding keys
  keys-sequence [] final rest s h e = rw e refl
  keys-sequence (p ∷ params) final rest s h e = rw h.0 (keys-sequence params final rest s h.1 e)

  key-char : (c : ℕ) (s : Chat) → is_printable c ≡ true → key peer c s ≡ push_key c s
  unfolding key
  key-char c s h =
      let (no_enter, no_rub, no_leave, no_escape) = printable_tests c h in
      rw (no_enter, no_rub, no_leave, h) refl

  keys-introducer :
      (csi : Bool) (rest : Bytes) (s : Chat)
      → keys peer at_key (27 ∷ introducer csi ∷ rest) s ≡ keys peer sequence rest s
  unfolding keys
  keys-introducer true rest s = refl
  keys-introducer false rest s = refl

  rub_key :
      (c : ℕ) (s : Chat) → (c ≡ 8) ⊎ (c ≡ 127) → key peer c s ≡ rub peer s.input s.pending_refresh s
  unfolding key
  rub_key c s (inl e) = rw e refl
  rub_key c s (inr e) = rw e refl

  -- A key after which the chat goes on.
  keys-key :
      (c : ℕ) (rest : Bytes) (s t : Chat)
      → (c == 27) ≡ false
      → key peer c s ≡ (ok true, t)
      → keys peer at_key (c ∷ rest) s ≡ keys peer at_key rest t
  unfolding keys
  keys-key c rest s t no_escape e =
      rw no_escape (ap (λ p. resume p.0 (more_keys (keys peer at_key rest)) p.1) e)

  rub-snoc :
      (line : Bytes) (c : ℕ) (pending : Bool) (s : Chat)
      → rub peer (line ++ c ∷ []) pending s ≡ (set_input line >> say rub_out >> pure true) s
  rub-snoc [] c pending s = ap (λ u. (ok true, rubbed_out u s)) (pop_back-snoc [] c)
  rub-snoc (d ∷ line) c pending s = ap (λ u. (ok true, rubbed_out u s)) (pop_back-snoc (d ∷ line) c)

  rub-stack :
      (stack : Bytes) (s : Chat)
      → s.input ≡ reverse stack
      → s.pending_refresh ≡ false
      → rub peer s.input s.pending_refresh s
        ≡ (ok true, with_line (rubbed stack) (rub_echo stack) s)
  rub-stack [] s e f =
      ap (λ input. rub peer input s.pending_refresh s) e
      ∙ ap (λ pending. reprint_if peer pending s) f
      ∙ ap (λ t. (ok true, t)) (sym (with_line-nil [] s e))
  rub-stack (c ∷ stack) s e f =
      ap (λ input. rub peer input s.pending_refresh s) (e ∙ reverse-cons c stack)
      ∙ rub-snoc (reverse stack) c s.pending_refresh s

  keys-stroke :
      (k : Stroke) (stack rest : Bytes) (s : Chat)
      → IsStroke k
      → s.input ≡ reverse stack
      → s.pending_refresh ≡ false
      → keys peer at_key (spelling (k ∷ []) rest) s
        ≡ keys peer at_key rest (with_line (edit k stack) (echo k stack) s)
  keys-stroke (char c) stack rest s h e f =
      let (no_enter, no_rub, no_leave, no_escape) = printable_tests c h in
      keys-key c rest s _ no_escape (key-char c s h ∙ pushed)
    where
      pushed : push_key c s ≡ (ok true, with_line (c ∷ stack) (prompt (c ∷ []) ∷ []) s)
      pushed =
          ap (λ u. (ok true, typed_into u (prompt (c ∷ []) ∷ []) s))
            (ap (◌++ c ∷ []) e ∙ sym (reverse-cons c stack))
  keys-stroke backspace stack rest s h e f =
      keys-key 8 rest s _ refl (rub_key 8 s (inl refl) ∙ rub-stack stack s e f)
  keys-stroke delete stack rest s h e f =
      keys-key 127 rest s _ refl (rub_key 127 s (inr refl) ∙ rub-stack stack s e f)
  keys-stroke (escape_sequence csi params final) stack rest s h e f =
      keys-introducer csi (params ++ final ∷ rest) s
      ∙ keys-sequence params final rest s h.0 h.1
      ∙ ap (keys peer at_key rest) (sym (with_line-nil stack s e))

  -- While no change waits to be shown, the bytes of any sequence of printable characters, backspaces
  -- and escape sequences in one `read` edit the line as the reference does, echo the same, and do
  -- nothing else.
  pub keys-strokes :
      (strokes : List Stroke) (stack rest : Bytes) (s : Chat)
      → All IsStroke strokes
      → s.input ≡ reverse stack
      → s.pending_refresh ≡ false
      → keys peer at_key (spelling strokes rest) s
        ≡ keys peer at_key rest (with_line (edited strokes stack) (echoes strokes stack) s)
  keys-strokes [] stack rest s h e f = ap (keys peer at_key rest) (sym (with_line-nil stack s e))
  keys-strokes (k ∷ strokes) stack rest s h e f =
      let t = with_line (edit k stack) (echo k stack) s in
      ap (λ bytes. keys peer at_key bytes s) (spelling-cons k strokes rest)
      ∙ keys-stroke k stack (spelling strokes rest) s h.0 e f
      ∙ keys-strokes strokes (edit k stack) rest t h.1 refl f
      ∙ ap (keys peer at_key rest) (
          with_line-with_line (edit k stack) (edited strokes (edit k stack)) (echo k stack)
            (echoes strokes (edit k stack)) s)
