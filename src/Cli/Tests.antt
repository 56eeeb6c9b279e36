-- ===== src/Cli/Tests.antt =====
-- cli/command_line.cpp with the command help, its alias h and an alias of that one.
use cassobee.Base.Text.{Bytes, equal}
use cassobee.Base.{◌≡◌, refl, true, none, some, [], ◌∷◌}
use cassobee.Cli.{CommandLine, ok, resolve, get_command, add_aliases, add_command, add_alias, find}
use cassobee.Cli.Aliases.{
  Reach, empty, command_added, alias_added, get_command-Reach, get_command-add_alias,
}
use cassobee.Cli.Tables.{owns}

abbrev help : Bytes
help = b'h' ∷ b'e' ∷ b'l' ∷ b'p' ∷ []

abbrev h : Bytes
h = b'h' ∷ []

abbrev question : Bytes
question = b'?' ∷ []

abbrev nothing : CommandLine
nothing = record { commands = []; alias = [] }

abbrev helping : CommandLine
helping = (add_command help (record { object = 1; aliases = [] }) (h ∷ []) nothing).1

abbrev asking : CommandLine
asking = (add_alias help question helping).1

help-known : find help helping.alias ≡ none
unfolding add_command add_aliases equal
help-known = refl

question-target : find question asking.alias ≡ some help
unfolding add_command add_aliases add_alias resolve equal
question-target = refl

asking-Reach : Reach asking
asking-Reach =
    alias_added help question help-known
      (command_added help (record { object = 1; aliases = [] }) (h ∷ []) empty)

get_command-Reach_example : owns question (get_command question asking) ≡ true
get_command-Reach_example = get_command-Reach question help asking-Reach question-target

abbrev listed : CommandLine
listed = record {
  commands = (help, record { object = 1; aliases = h ∷ [] }) ∷ [];
  alias = (h, help) ∷ [];
}

listed-alias : find h listed.alias ≡ some help
unfolding equal
listed-alias = refl

listed-command : find help listed.commands ≡ some (record { object = 1; aliases = h ∷ [] })
unfolding equal
listed-command = refl

listed-no_command : find h listed.commands ≡ none
unfolding equal
listed-no_command = refl

listed-free : find question listed.alias ≡ none
unfolding equal
listed-free = refl

get_command-add_alias_example :
    ((add_alias h question listed).0 ≡ ok)
    × (get_command question (add_alias h question listed).1 ≡ none)
get_command-add_alias_example =
    get_command-add_alias h question help listed (record { object = 1; aliases = h ∷ [] })
      listed-alias listed-command listed-no_command listed-free
