-- ===== src/Main/Exits.antt =====
-- How the program ends.
use eternal_blue.Prelude.{ℕ, ◌≤◌, Bytes-tested, Option, none, some, ◌≡◌, replicate}
use eternal_blue.Prelude.Exec.{Exec, Result, ok, err}
use eternal_blue.Sodium.{Sodium}
use eternal_blue.Json.{JsonLib}
use eternal_blue.Message.Wire.{Calendar}
use eternal_blue.HttpClient.{Internet}
use eternal_blue.Client.State.{Client, Clock}
use eternal_blue.Main.Terminal.{Terminal, Console}
use eternal_blue.Main.Arguments.{Exit}

-- A client that was destroyed has no key left, and the terminal is as it was.
abbrev pub IsLeft : Terminal → Option Console → Type 0
IsLeft terminal none = Unit {0}
IsLeft terminal (some s) = (s.client.session_sk ≡ replicate 32 0) × (s.terminal ≡ terminal)

-- An exit code from 0 to 2, and nothing left behind.
abbrev pub EndsWell : Terminal → Exit → Type 0
EndsWell terminal e = (n : ℕ) × (e.code ≡ some n) × (n ≤ 2) × IsLeft terminal e.console

module _ ⦃internet : Internet⦄ ⦃sodium : Sodium⦄ ⦃json : JsonLib⦄ ⦃calendar : Calendar⦄
    ⦃clock : Clock⦄ (terminal : Terminal) where
  abbrev IsExitCode : Result ℕ → Type 0
  IsExitCode (ok n) = n ≤ 2
  IsExitCode (err e) = Unit {0}
