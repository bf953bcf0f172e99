-- ===== src/Main/Returns.antt =====
-- The shell always returns: no exception leaves it, and each turn takes a line of the input.
use eternal_blue.Prelude.{
  ℕ, zero, suc, ◌≤◌, ◌<◌, Bytes, Bool, true, false, some, List, [], ◌∷◌, ◌≡◌, refl, ◌∙◌, ap, length,
  arith,
}
use eternal_blue.Prelude.Exec.{Result, ok, err, bind_ok}
use eternal_blue.Sodium.{Sodium}
use eternal_blue.Json.{JsonLib}
use eternal_blue.Message.Wire.{Calendar}
use eternal_blue.HttpClient.{Internet}
use eternal_blue.Client.State.{Clock, print}
use eternal_blue.Client.Record.{Evolves-input}
use eternal_blue.Main.Words.{split}
use eternal_blue.Main.Terminal.{Console}
use eternal_blue.Main.Repl.{
  dispatch, caught, run_words, run_line, turn, continue, repl_loop, run_repl, banner,
}
use eternal_blue.Main.Effects.Shell.{run_line-Running, run_repl-Running}

module _ ⦃internet : Internet⦄ ⦃sodium : Sodium⦄ ⦃json : JsonLib⦄ ⦃calendar : Calendar⦄
    ⦃clock : Clock⦄ where
  -- An action that returns.
  abbrev Returns : Result Bool × Console → Type 0
  Returns p = (b : Bool) × (p.0 ≡ ok b)

  caught-Returns : (r : Result Bool) (s : Console) → Returns (caught r s)
  caught-Returns (ok stays) s = (stays, refl)
  caught-Returns (err e) s = (true, refl)

  run_words-Returns : (words : List Bytes) (s : Console) → Returns (run_words words s)
  run_words-Returns [] s = (true, refl)
  run_words-Returns (cmd ∷ args) s = caught-Returns (dispatch cmd args s).0 (dispatch cmd args s).1

  -- What a turn does on an input.
  at_end : (s : Console) → s.client.input ≡ [] → (turn s).0 ≡ ok false
  unfolding turn
  at_end s e = rw e refl

  line_taken :
      (line : Bytes) (s : Console)
      → (b : Bool) × ((run_line (some line) s).0 ≡ ok b)
        × (length (run_line (some line) s).1.client.input ≤ length s.client.input)
  line_taken line s =
      let (b, e) = run_words-Returns (split line) s in
      (b, e, Evolves-input (run_line-Running (some line) s).client)

  at_line :
      (s : Console) (line : Bytes) (rest : List Bytes)
      → s.client.input ≡ line ∷ rest
      → (b : Bool) × ((turn s).0 ≡ ok b) × (length (turn s).1.client.input ≤ length rest)
  unfolding turn
  at_line s line rest e = rw e (line_taken line _)

  -- One more turn, if the loop returns from there on.
  one_more :
      (fuel : ℕ) (s : Console) (b : Bool)
      → (turn s).0 ≡ ok b
      → (b ≡ true → (repl_loop fuel (turn s).1).0 ≡ ok (some tt))
      → (repl_loop (suc fuel) s).0 ≡ ok (some tt)
  unfolding repl_loop
  one_more fuel s true e h =
      ap (λ p. p.0) (bind_ok turn (continue (repl_loop fuel)) s true e) ∙ h refl
  one_more fuel s false e h = ap (λ p. p.0) (bind_ok turn (continue (repl_loop fuel)) s false e)

  abbrev LoopReturns : ℕ → Type 0
  LoopReturns fuel =
      (s : Console) → length s.client.input < fuel → (repl_loop fuel s).0 ≡ ok (some tt)

  LoopReturns-suc : (fuel : ℕ) → LoopReturns fuel → LoopReturns (suc fuel)
  LoopReturns-suc fuel ih s h = at s.client.input refl
    where
      at : (input : List Bytes) → s.client.input ≡ input → (repl_loop (suc fuel) s).0 ≡ ok (some tt)
      at [] e = one_more fuel s false (at_end s e) λ f. cc
      at (line ∷ rest) e =
          let (b, done, shorter) = at_line s line rest e in
          let fits : length rest < fuel = omega (arith, ap length e) in
          one_more fuel s b done λ _. ih (turn s).1 (omega (arith, shorter))

  LoopReturns_lem : (fuel : ℕ) → LoopReturns fuel
  LoopReturns_lem zero s h = absurd (omega arith)
  LoopReturns_lem (suc fuel) s h = LoopReturns-suc fuel (LoopReturns_lem fuel) s h

  -- The shell returns, whatever is typed, whatever the server answers and whichever calls fail: no
  -- exception leaves it, its fuel is enough, and the terminal has the settings that it had before.
  pub run_repl-returns :
      (s : Console) → ((run_repl s).0 ≡ ok (some tt)) × ((run_repl s).1.terminal ≡ s.terminal)
  unfolding run_repl
  run_repl-returns s =
      let fits : length s.client.input < suc (length s.client.input) = omega arith in
      let welcomed = record s { client = (print banner s.client).1 } in
      (LoopReturns_lem (suc (length s.client.input)) welcomed fits, (run_repl-Running s).terminal)
