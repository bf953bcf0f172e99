-- ===== src/Main/Refresh.antt =====
-- What the idle tick of the chat mode leaves on the screen.
use eternal_blue.Prelude.{Bytes, true, false, List, ◌≡◌, ◌⊎◌, map, is_empty}
use eternal_blue.Prelude.Exec.{Exec, Result, ok}
use eternal_blue.Sodium.{Sodium}
use eternal_blue.Json.{JsonLib}
use eternal_blue.Message.{Message}
use eternal_blue.Message.Wire.{Calendar}
use eternal_blue.HttpClient.{Internet}
use eternal_blue.Client.State.{Client, Clock}
use eternal_blue.Client.Threads.{list_thread}
use eternal_blue.Main.Resolves.{mark}
use eternal_blue.Main.Screen.{Chat}

module _ ⦃internet : Internet⦄ ⦃sodium : Sodium⦄ ⦃json : JsonLib⦄ ⦃calendar : Calendar⦄
    ⦃clock : Clock⦄ (peer : Bytes) where
  -- What is displayed has the ids and flags of the thread in the store.
  abbrev pub IsCurrent : Chat → Type 0
  IsCurrent s =
      (thread : List Message) × (list_thread peer s.client ≡ (ok thread, s.client))
      × (map mark s.displayed ≡ map mark thread)

  -- A change is hinted at, beside a line that is being typed.
  abbrev pub IsHinted : Chat → Type 0
  IsHinted s = (s.pending_refresh ≡ true) × (is_empty s.input ≡ false)

  abbrev Shows : Result (Unit {0}) × Chat → Type 0
  Shows p = (p.0 ≡ ok tt) × (IsCurrent p.1 ⊎ IsHinted p.1)
