-- ===== src/Command/Complete/Known.antt =====
-- The commands that are completed are commands.
use text.Mathlib.Text.{◌==◌ as str_eq}
use text.Mathlib.TextEquality.{eq_iff}
use hdfs.Command.Complete.{is_one_of, known_commands, command_of, is_known_command, Command}
use hdfs.Prelude.{sym, subst, Bool-cases, arith, ◌≡◌, ◌≢◌, List, String, true, inl, inr, [], ◌∷◌}

abbrev AreCommands : List String → Type 0
AreCommands [] = Unit {0}
AreCommands (c ∷ cs) = (command_of c ≢ Command.unknown) × AreCommands cs

all_known : AreCommands known_commands
unfolding command_of
all_known = ground arith

one_of-AreCommands :
    (command : String) (cs : List String)
    → AreCommands cs
    → is_one_of command cs ≡ true
    → command_of command ≢ Command.unknown
one_of-AreCommands command [] all h = absurd (ground arith)
one_of-AreCommands command (c ∷ cs) (one, all) h = elim (Bool-cases (str_eq command c)) [
  | inl same ↦
      subst (λ (t : String). command_of t ≢ Command.unknown) (sym ((eq_iff command c).0 same)) one
  | inr other ↦ one_of-AreCommands command cs all (ground arith)
]

-- Every command that is completed is one that `main` runs.
pub is_known_command-Known :
    (command : String) → is_known_command command ≡ true → command_of command ≢ Command.unknown
unfolding is_known_command
is_known_command-Known command h = one_of-AreCommands command known_commands all_known h
