-- ===== src/Main/Effects/Lives.antt =====
-- What every step of the shell keeps: the client has only seen effects, and the terminal is as before.
use eternal_blue.Sodium.{Sodium}
use eternal_blue.Prelude.{
  Bytes, codes, Bytes-tested, Bool, true, false, List, [], ◌∷◌, ◌≡◌, refl, ◌∙◌, if◌then◌else◌,
}
use eternal_blue.Prelude.Exec.{Exec, pure, on, ◌>>=◌, bind-keeps}
use eternal_blue.HttpClient.{Internet}
use eternal_blue.Client.State.{Client, out, prompt, complain}
use eternal_blue.Client.Evolves.{
  Evolves, Evolving, Evolves-trans, same, more, once, writes, reads_line, reads_end,
  complain-Evolving,
}
use eternal_blue.Main.Terminal.{
  Console, Terminal, Termios, client_, zeroed, set_to, getline, prompt_password,
}
use eternal_blue.Main.Repl.{run, usage, inside}

pub record Lives ⦃internet : Internet⦄ ⦃sodium : Sodium⦄ (s t : Console) : Type 0 where
  pub client : Evolves s.client t.client
  pub terminal : t.terminal ≡ s.terminal

-- Setting the terminal and setting it back.
pub set_to-set_to :
    (terminal : Terminal) (t : Termios)
    → set_to (if terminal.is_tty then terminal.settings else zeroed) (set_to t terminal) ≡ terminal
set_to-set_to terminal t = cases terminal.is_tty refl
  where
    cases :
        (tty : Bool)
        → terminal.is_tty ≡ tty
        → set_to (if terminal.is_tty then terminal.settings else zeroed) (set_to t terminal)
          ≡ terminal
    cases true e = rw e refl
    cases false e = rw e refl

module _ ⦃internet : Internet⦄ ⦃sodium : Sodium⦄ where
  pub Lives-refl : (s : Console) → Lives s s
  Lives-refl s = record { client = same; terminal = refl }

  pub Lives-trans : {s t u : Console} → Lives s t → Lives t u → Lives s u
  Lives-trans p q = record {
    client = Evolves-trans p.client q.client;
    terminal = q.terminal ∙ p.terminal;
  }

  abbrev pub Running : {A : Type 0} → Exec Console A → Type 0
  Running m = (s : Console) → Lives s (m s).1

  pub bind-Running :
      {A B : Type 0} (m : Exec Console A) (k : A → Exec Console B)
      → Running m
      → ((a : A) → Running (k a))
      → Running (m >>= k)
  bind-Running m k h g s = bind-keeps (Lives s) m k s (h s) λ a _. Lives-trans (h s) (g a (m s).1)

  pub pure-Running : {A : Type 0} (a : A) → Running (pure a)
  pure-Running a s = Lives-refl s

  pub on_client-Running : {A : Type 0} (m : Exec Client A) → Evolving m → Running (on client_ m)
  on_client-Running m h s = record { client = h s.client; terminal = refl }

  pub run-Running : {A : Type 0} (m : Exec Client A) → Evolving m → Running (run m)
  run-Running m h =
      bind-Running (on client_ m) (λ _. pure true) (on_client-Running m h) λ _. pure-Running true

  pub usage-Running : (text : Bytes) → Running (usage text)
  usage-Running text = run-Running (complain text) (complain-Evolving text)

  pub if-Running :
      {A : Type 0} (b : Bool) (m n : Exec Console A)
      → Running m
      → Running n
      → Running (if b then m else n)
  if-Running true m n h g = h
  if-Running false m n h g = g

  pub inside-Running : (m : Exec Console Bool) → Running m → Running (inside m)
  inside-Running m h s = at s.client.logged_in
    where
      at : (b : Bool) → Lives s (if b then m s else usage (codes "not logged in") s).1
      at true = h s
      at false = usage-Running (codes "not logged in") s

  pub getline-Evolving : Evolving getline
  getline-Evolving c = cases c.input refl
    where
      cases : (input : List Bytes) → c.input ≡ input → Evolves c (getline c).1
      cases [] e = once (reads_end e (rw e refl))
      cases (line ∷ rest) e = once (reads_line line rest e (rw e refl))

  pub prompt_password-Running : (text : Bytes) → Running (prompt_password text)
  unfolding prompt_password
  prompt_password-Running text s = record {
    client =
        more (Evolves-trans (once (writes (prompt text) refl)) (getline-Evolving _))
          (writes (out []) refl);
    terminal = set_to-set_to s.terminal _;
  }
