-- ===== src/Main/Arguments.antt =====
-- The arguments of the program, and its exit codes.
use eternal_blue.Prelude.{
  ℕ, Bytes, codes, ◌==◌, Bytes-tested, Option, none, some, List, [], ◌∷◌, ◌++◌, if◌then◌else◌,
}
use eternal_blue.Prelude.Exec.{Result, ok, err, Error}
use eternal_blue.Sodium.{Sodium}
use eternal_blue.Json.{JsonLib}
use eternal_blue.Message.Wire.{Calendar}
use eternal_blue.HttpClient.{Internet}
use eternal_blue.Client.State.{Client, Clock, what}
use eternal_blue.Client.Session.{health}
use eternal_blue.Client.Start.{Machine, construct, destroyed}
use eternal_blue.Main.Terminal.{Terminal, Poll, Console}
use eternal_blue.Main.Repl.{run_repl}

pub record Arguments : Type 0 where
  pub host : Bytes
  pub port : Bytes
  pub ca_bundle : Bytes
  pub command : Bytes

abbrev pub defaults : Arguments
defaults = record { host = codes "localhost"; port = codes "8991"; ca_bundle = []; command = [] }

pub data Flag : Type 0 where
  host_flag port_flag ca_bundle_flag : Flag

unfoldable pub flag_of : Bytes → Option Flag
flag_of arg =
    if arg == codes "--host"
    then some host_flag
    else if arg == codes "--port"
    then some port_flag
    else if arg == codes "--ca-bundle"
    then some ca_bundle_flag
    else none

abbrev pub assign : Flag → Bytes → Arguments → Arguments
assign host_flag v a = record a { host = v }
assign port_flag v a = record a { port = v }
assign ca_bundle_flag v a = record a { ca_bundle = v }

-- What the loop over argv ends with.
pub data Parsed : Type 0 where
  parsed : Arguments → Parsed
  unexpected : Bytes → Parsed

-- An argument that is no flag with a value.
abbrev pub positional : Bytes → (Arguments → Parsed) → Arguments → Bytes → Parsed
positional arg rest a [] = rest (record a { command = arg })
positional arg rest a (c ∷ command) = unexpected arg

-- A flag in the last place has no value, and is taken as the command.
unfoldable pub parse_arguments : List Bytes → Arguments → Parsed
unfolding flag_of
parse_arguments [] a = parsed a
parse_arguments (arg ∷ []) a = positional arg parsed a a.command
parse_arguments (arg ∷ v ∷ args) a = elim (flag_of arg) [
  | some flag ↦ parse_arguments args (assign flag v a)
  | none ↦ positional arg (parse_arguments (v ∷ args)) a a.command
]

-- The end of the process: its exit code (`none` if fuel ran out), what `main` itself wrote on std::cerr,
-- and the console, if there was a client.
pub record Exit : Type 0 where
  pub code : Option ℕ
  pub complaint : Bytes
  pub console : Option Console

abbrev pub failing : ℕ → Bytes → Option Console → Exit
failing code text console = record { code = some code; complaint = text; console = console }

-- The client is destroyed when the try block is left.
abbrev pub left : Console → Option Console
left s = some (record s { client = destroyed s.client })

abbrev pub caught : Error → Option Console → Exit
caught e console = failing 1 (codes "error: " ++ what e) console

abbrev pub after_shell : Result (Option (Unit {0})) × Console → Exit
after_shell (ok (some _), s) = record { code = some 0; complaint = []; console = left s }
after_shell (ok none, s) = record { code = none; complaint = []; console = left s }
after_shell (err e, s) = caught e (left s)

abbrev pub after_health : Result ℕ × Client → Console → Exit
after_health (ok n, c) s = record {
  code = some n;
  complaint = [];
  console = left (record s { client = c });
}
after_health (err e, c) s = caught e (left (record s { client = c }))

module _ ⦃internet : Internet⦄ ⦃sodium : Sodium⦄ ⦃json : JsonLib⦄ ⦃calendar : Calendar⦄
    ⦃clock : Clock⦄ where
  abbrev pub unknown_text : Bytes → Bytes
  unknown_text command =
      codes "unknown one-shot command: "
      ++ (command ++ codes " (run with no command for the interactive shell)")

  abbrev pub one_shot : Bytes → Console → Exit
  one_shot command s =
      if command == codes "health"
      then after_health (health s.client) s
      else failing 2 (unknown_text command) (left s)

  abbrev pub run_command : Bytes → Console → Exit
  run_command [] s = after_shell (run_repl s)
  run_command (c ∷ command) s = one_shot (c ∷ command) s

  abbrev pub begun : Terminal → List Poll → Bytes → Result Client → Exit
  begun terminal polls command (ok c) =
      run_command command (record { client = c; terminal = terminal; polls = polls })
  begun terminal polls command (err e) = caught e none

  abbrev pub proceed : Machine → Terminal → List Poll → Parsed → Exit
  proceed machine terminal polls (parsed a) =
      begun terminal polls a.command (construct a.host a.port a.ca_bundle machine).0
  proceed machine terminal polls (unexpected arg) =
      failing 2 (codes "unexpected argument: " ++ arg) none

  -- `main`, on the arguments behind the program's name.
  unfoldable pub main : List Bytes → Machine → Terminal → List Poll → Exit
  unfolding parse_arguments construct destroyed run_repl health what
  main args machine terminal polls = proceed machine terminal polls (parse_arguments args defaults)
