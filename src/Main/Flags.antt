-- ===== src/Main/Flags.antt =====
-- What the arguments mean.
use eternal_blue.Prelude.{
  Bytes, bytes_beq, codes, none, some, List, [], ◌∷◌, ◌++◌, ◌≡◌, refl, ap, ◌∙◌, sym, append-nil,
}
use eternal_blue.Main.Arguments.{
  Arguments, defaults, Flag, host_flag, port_flag, ca_bundle_flag, flag_of, assign, Parsed, parsed,
  positional, parse_arguments,
}

abbrev pub flag_text : Flag → Bytes
flag_text host_flag = codes "--host"
flag_text port_flag = codes "--port"
flag_text ca_bundle_flag = codes "--ca-bundle"

-- Flags with their values, as they are typed, and what they set, the last one of a kind in force.
abbrev pub spell : List (Flag × Bytes) → List Bytes
spell [] = []
spell ((flag, v) ∷ options) = flag_text flag ∷ v ∷ spell options

abbrev pub assign_all : List (Flag × Bytes) → Arguments → Arguments
assign_all [] a = a
assign_all ((flag, v) ∷ options) a = assign_all options (assign flag v a)

flag_of-flag_text : (flag : Flag) → flag_of (flag_text flag) ≡ some flag
unfolding flag_of bytes_beq
flag_of-flag_text host_flag = refl
flag_of-flag_text port_flag = refl
flag_of-flag_text ca_bundle_flag = refl

parse_arguments-spell :
    (options : List (Flag × Bytes)) (tail : List Bytes) (a : Arguments)
    → parse_arguments (spell options ++ tail) a ≡ parse_arguments tail (assign_all options a)
unfolding parse_arguments
parse_arguments-spell [] tail a = refl
parse_arguments-spell ((flag, v) ∷ options) tail a =
    rw (parse_arguments, flag_of-flag_text flag)
      (parse_arguments-spell options tail (assign flag v a))

assign-command : (flag : Flag) (v : Bytes) (a : Arguments) → (assign flag v a).command ≡ a.command
assign-command host_flag v a = refl
assign-command port_flag v a = refl
assign-command ca_bundle_flag v a = refl

assign_all-command :
    (options : List (Flag × Bytes)) (a : Arguments) → (assign_all options a).command ≡ a.command
assign_all-command [] a = refl
assign_all-command ((flag, v) ∷ options) a =
    assign_all-command options (assign flag v a) ∙ assign-command flag v a

assign_all-append :
    (before after : List (Flag × Bytes)) (a : Arguments)
    → assign_all after (assign_all before a) ≡ assign_all (before ++ after) a
assign_all-append [] after a = refl
assign_all-append ((flag, v) ∷ before) after a = assign_all-append before after (assign flag v a)

abbrev pub with_command : Bytes → Arguments → Arguments
with_command command a = record a { command = command }

assign-with_command :
    (flag : Flag) (v command : Bytes) (a : Arguments)
    → assign flag v (with_command command a) ≡ with_command command (assign flag v a)
assign-with_command host_flag v command a = refl
assign-with_command port_flag v command a = refl
assign-with_command ca_bundle_flag v command a = refl

assign_all-with_command :
    (options : List (Flag × Bytes)) (command : Bytes) (a : Arguments)
    → assign_all options (with_command command a) ≡ with_command command (assign_all options a)
assign_all-with_command [] command a = refl
assign_all-with_command ((flag, v) ∷ options) command a =
    ap (assign_all options) (assign-with_command flag v command a)
    ∙ assign_all-with_command options command (assign flag v a)

positional_first :
    (arg : Bytes) (rest : Arguments → Parsed) (a : Arguments)
    → a.command ≡ []
    → positional arg rest a a.command ≡ rest (with_command arg a)
positional_first arg rest a e = ap (positional arg rest a) e

module _ (before after : List (Flag × Bytes)) (command : Bytes)
    (no_flag : flag_of command ≡ none) where
  command_first :
      (a : Arguments)
      → a.command ≡ []
      → parse_arguments (command ∷ spell after) a
        ≡ parsed (with_command command (assign_all after a))
  unfolding parse_arguments
  command_first a e = cases after
    where
      cases :
          (options : List (Flag × Bytes))
          → parse_arguments (command ∷ spell options) a
            ≡ parsed (with_command command (assign_all options a))
      cases [] = positional_first command parsed a e
      cases ((flag, v) ∷ options) =
          rw (parse_arguments, no_flag)
            (positional_first command (parse_arguments (spell ((flag, v) ∷ options))) a e
              ∙ ap (λ args. parse_arguments args (with_command command a))
                  (sym (append-nil (spell ((flag, v) ∷ options))))
              ∙ parse_arguments-spell ((flag, v) ∷ options) [] (with_command command a)
              ∙ ap parsed (assign_all-with_command ((flag, v) ∷ options) command a))

  -- Flags with values, a command, and more flags with values, in this order, are parsed into the last
  -- value of each kind of flag, or the default, and that command, if the command is no flag.
  pub parse_arguments-options :
      parse_arguments (spell before ++ command ∷ spell after) defaults
      ≡ parsed (with_command command (assign_all (before ++ after) defaults))
  parse_arguments-options =
      parse_arguments-spell before (command ∷ spell after) defaults
      ∙ command_first (assign_all before defaults) (assign_all-command before defaults)
      ∙ ap (λ a. parsed (with_command command a)) (assign_all-append before after defaults)
