-- ===== src/Main/Effects/Kept.antt =====
-- What every step of the chat mode keeps: the client has only seen effects, and the line stays printable.
use eternal_blue.Sodium.{Sodium}
use eternal_blue.Prelude.{
  ℕ, Bytes, ℕ-tested, Bool, true, false, [], ◌∷◌, ◌++◌, ◌≡◌, refl, All, if◌then◌else◌,
}
use eternal_blue.Prelude.Exec.{Exec, pure, on, ◌>>=◌, ◌>>◌, bind-keeps}
use eternal_blue.HttpClient.{Internet}
use eternal_blue.Client.State.{Client, print, ask, attempt}
use eternal_blue.Client.Evolves.{
  Evolves, Evolving, Evolves-trans, same, print-Evolving, ask-Evolving,
}
use eternal_blue.Main.Screen.{Chat, client_, say, new_line}
use eternal_blue.Main.Keys.{pop_back, is_printable}

abbrev pub IsPrintable : Bytes → Type 0
IsPrintable = All (λ c. is_printable c ≡ true)

pub record Kept ⦃internet : Internet⦄ ⦃sodium : Sodium⦄ (s t : Chat) : Type 0 where
  pub client : Evolves s.client t.client
  pub input : IsPrintable s.input → IsPrintable t.input

pub IsPrintable-snoc :
    (s : Bytes) (c : ℕ) → IsPrintable s → is_printable c ≡ true → IsPrintable (s ++ c ∷ [])
IsPrintable-snoc [] c h p = (p, tt)
IsPrintable-snoc (d ∷ s) c h p = (h.0, IsPrintable-snoc s c h.1 p)

pub IsPrintable-pop_back : (s : Bytes) → IsPrintable s → IsPrintable (pop_back s)
unfolding pop_back
IsPrintable-pop_back [] h = tt
IsPrintable-pop_back (c ∷ []) h = tt
IsPrintable-pop_back (c ∷ d ∷ s) h = (h.0, IsPrintable-pop_back (d ∷ s) h.1)

module _ ⦃internet : Internet⦄ ⦃sodium : Sodium⦄ where
  pub Kept-refl : (s : Chat) → Kept s s
  Kept-refl s = record { client = same; input = λ h. h }

  pub Kept-trans : {s t u : Chat} → Kept s t → Kept t u → Kept s u
  Kept-trans p q = record {
    client = Evolves-trans p.client q.client;
    input = λ h. q.input (p.input h);
  }

  abbrev pub Chatting : {A : Type 0} → Exec Chat A → Type 0
  Chatting m = (s : Chat) → Kept s (m s).1

  pub bind-Chatting :
      {A B : Type 0} (m : Exec Chat A) (k : A → Exec Chat B)
      → Chatting m
      → ((a : A) → Chatting (k a))
      → Chatting (m >>= k)
  bind-Chatting m k h g s = bind-keeps (Kept s) m k s (h s) λ a _. Kept-trans (h s) (g a (m s).1)

  pub then-Chatting :
      {A B : Type 0} (m : Exec Chat A) (n : Exec Chat B)
      → Chatting m
      → Chatting n
      → Chatting (m >> n)
  then-Chatting m n h g = bind-Chatting m (λ _. n) h (λ _. g)

  pub attempt-Chatting : {A : Type 0} (m : Exec Chat A) → Chatting m → Chatting (attempt m)
  attempt-Chatting m h = h

  pub pure-Chatting : {A : Type 0} (a : A) → Chatting (pure a)
  pure-Chatting a s = Kept-refl s

  -- A value after an action.
  pub value-Chatting :
      {A B : Type 0} (m : Exec Chat A) (b : B) → Chatting m → Chatting (m >> pure b)
  value-Chatting m b h = then-Chatting m (pure b) h (pure-Chatting b)

  pub on_client-Chatting : {A : Type 0} (m : Exec Client A) → Evolving m → Chatting (on client_ m)
  on_client-Chatting m h s = record { client = h s.client; input = λ p. p }

  pub if-Kept :
      {A : Type 0} (b : Bool) (p q : A × Chat) (s : Chat)
      → (b ≡ true → Kept s p.1)
      → (b ≡ false → Kept s q.1)
      → Kept s (if b then p else q).1
  if-Kept true p q s h g = h refl
  if-Kept false p q s h g = g refl

  pub say-Chatting : (text : Bytes) → Chatting (say text)
  say-Chatting text = on_client-Chatting (ask text) (ask-Evolving text)

  pub new_line-Chatting : Chatting new_line
  new_line-Chatting = on_client-Chatting (print []) (print-Evolving [])

  -- Locals other than the line.
  pub locals-Kept : (s t : Chat) → t.client ≡ s.client → t.input ≡ s.input → Kept s t
  locals-Kept s t e f = record { client = rw e same; input = λ h. rw f h }
