-- ===== src/Cli.antt =====
-- source/bee/cli/command_line.h, command_line.cpp: the tables of commands and aliases.
pub mod Tables
pub mod Aliases
mod Tests
use cassobee.Base.Text.{Bytes, equal}
use cassobee.Base.{ℕ, Bool, true, false, if◌then◌else◌, ◌||◌, Option, none, some, List, [], ◌∷◌}

-- A command, with the set of its aliases as a list.
pub record Command : Type 0 where
  pub object : ℕ
  pub aliases : List Bytes

pub record CommandLine : Type 0 where
  pub commands : List (Bytes × Command)
  pub alias : List (Bytes × Bytes)

pub data Errcode : Type 0 where
  ok : Errcode
  error : Errcode

abbrev pub find {ℓ} : {A : Type ℓ} → Bytes → List (Bytes × A) → Option A
find x [] = none
find x ((k, v) ∷ m) = if equal x k then some v else find x m

abbrev pub erase {ℓ} : {A : Type ℓ} → Bytes → List (Bytes × A) → List (Bytes × A)
erase x [] = []
erase x ((k, v) ∷ m) = if equal x k then erase x m else (k, v) ∷ erase x m

-- A change of the command that a name has.
abbrev pub change : Bytes → (Command → Command) → List (Bytes × Command) → List (Bytes × Command)
change x f [] = []
change x f ((k, c) ∷ m) = if equal x k then (k, f c) ∷ change x f m else (k, c) ∷ change x f m

abbrev pub member : Bytes → List Bytes → Bool
member a [] = false
member a (b ∷ bs) = equal a b || member a bs

abbrev pub remove : Bytes → List Bytes → List Bytes
remove a [] = []
remove a (b ∷ bs) = if equal a b then remove a bs else b ∷ remove a bs

abbrev pub insert_alias : Bytes → Command → Command
insert_alias a c = record c { aliases = a ∷ c.aliases }

abbrev pub erase_alias : Bytes → Command → Command
erase_alias a c = record c { aliases = remove a c.aliases }

abbrev pub target_of : Bytes → Option Bytes → Bytes
target_of name none = name
target_of name (some target) = target

-- The name itself, or the name that it is an alias of.
unfoldable pub resolve : Bytes → CommandLine → Bytes
resolve name s = target_of name (find name s.alias)

unfoldable pub get_command : Bytes → CommandLine → Option Command
get_command name s = find (resolve name s) s.commands

-- `_alias.emplace`, with what follows it where the alias is new: the command named `key` gets the alias.
abbrev pub alias_entered : Bytes → Bytes → Bytes → CommandLine → CommandLine
alias_entered a target key s = record {
  commands = change key (insert_alias a) s.commands;
  alias = (a, target) ∷ s.alias;
}

-- The test of that emplace: what follows where the alias is new, or an error.
abbrev pub if_free : Option Bytes → Errcode × CommandLine → CommandLine → Errcode × CommandLine
if_free none entered s = entered
if_free (some other) entered s = (error, s)

-- The loop of add_command, which ends at the first alias that is taken.
unfoldable pub add_aliases : Bytes → List Bytes → CommandLine → Errcode × CommandLine
add_aliases name [] s = (ok, s)
add_aliases name (a ∷ rest) s =
    let later = add_aliases name rest (alias_entered a name name s) in
    if_free (find a s.alias) later s

abbrev pub emplace_command :
    Bytes → Command → List Bytes → Option Command → CommandLine → Errcode × CommandLine
emplace_command name c aliases none s =
    add_aliases name aliases (record s { commands = (name, c) ∷ s.commands })
emplace_command name c aliases (some other) s = (error, s)

unfoldable pub add_command : Bytes → Command → List Bytes → CommandLine → Errcode × CommandLine
add_command name c aliases s = emplace_command name c aliases (find name s.commands) s

abbrev pub erase_each : List Bytes → List (Bytes × Bytes) → List (Bytes × Bytes)
erase_each [] m = m
erase_each (a ∷ rest) m = erase_each rest (erase a m)

abbrev pub remove_found : Bytes → Option Command → CommandLine → Errcode × CommandLine
remove_found key none s = (error, s)
remove_found key (some c) s =
    (ok, record { commands = erase key s.commands; alias = erase_each c.aliases s.alias })

unfoldable pub remove_command : Bytes → CommandLine → Errcode × CommandLine
remove_command name s = let key = resolve name s in remove_found key (find key s.commands) s

-- The alias is entered for the name as it was given, and for the command that it leads to.
abbrev pub alias_found :
    Bytes → Bytes → Bytes → Option Command → CommandLine → Errcode × CommandLine
alias_found name key a none s = (error, s)
alias_found name key a (some c) s = if_free (find a s.alias) (ok, alias_entered a name key s) s

unfoldable pub add_alias : Bytes → Bytes → CommandLine → Errcode × CommandLine
add_alias name a s = let key = resolve name s in alias_found name key a (find key s.commands) s

abbrev pub unalias : Bytes → Bytes → Option Bytes → CommandLine → CommandLine
unalias name a none s = s
unalias name a (some target) s = record {
  commands = change name (erase_alias a) s.commands;
  alias = erase a s.alias;
}

abbrev pub unalias_found : Bytes → Bytes → Option Command → CommandLine → Errcode × CommandLine
unalias_found name a none s = (error, s)
unalias_found name a (some c) s = (ok, unalias name a (find a s.alias) s)

unfoldable pub remove_alias : Bytes → Bytes → CommandLine → Errcode × CommandLine
remove_alias name a s = unalias_found name a (find name s.commands) s
