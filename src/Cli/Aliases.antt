-- ===== src/Cli/Aliases.antt =====
-- cli/command_line.cpp: every alias leads to a command that has it.
use cassobee.Base.Text.{Bytes, equal}
use cassobee.Base.{
  ◌≡◌, ◌∙◌, refl, ap, arith, true, Option, none, some, List, [], ◌∷◌, Bool-cases, inl, inr,
  Option-cases,
}
use cassobee.Cli.{
  Command, CommandLine, ok, find, insert_alias, resolve, get_command, alias_entered, add_aliases,
  add_command, remove_found, remove_command, alias_found, add_alias, unalias, unalias_found,
  remove_alias,
}
use cassobee.Cli.Tables.{
  equal_refl, equal_sound, find-erase_ne, owns, owns-insert_alias, owns-insert_alias_self,
  owns-erase_alias, some-find-erase, some-find-erase_each, find-change, find-change-none,
}

-- The table's name for an alias is that of a command, and the alias is one of the command's set.
abbrev pub Owned : CommandLine → Type 0
Owned s = (a n : Bytes) → find a s.alias ≡ some n → owns a (find n s.commands) ≡ true

alias_entered-Owned :
    (name a : Bytes) (s : CommandLine) (c : Command)
    → find name s.commands ≡ some c
    → Owned s
    → Owned (alias_entered a name name s)
alias_entered-Owned name a s c found h x n e = elim (Bool-cases (equal x a)) [
  | inl same ↦
      let own = owns-insert_alias_self name a s.commands c found in
      let here = equal_sound x a same in grind arith
  | inr other ↦ owns-insert_alias x n name a s.commands (h x n (ground arith))
]

add_aliases-Owned :
    (name : Bytes) (aliases : List Bytes) (s : CommandLine) (c : Command)
    → find name s.commands ≡ some c
    → Owned s
    → Owned (add_aliases name aliases s).1
unfolding add_aliases
add_aliases-Owned name [] s c found h = h
add_aliases-Owned name (a ∷ rest) s c found h = elim (Option-cases (find a s.alias)) [
  | inl free ↦ rw free (
      add_aliases-Owned name rest (alias_entered a name name s) (insert_alias a c)
        (find-change name (insert_alias a) s.commands c found)
        (alias_entered-Owned name a s c found h))
  | inr (other, taken) ↦ rw taken h
]

emplaced-Owned :
    (name : Bytes) (c : Command) (s : CommandLine)
    → find name s.commands ≡ none
    → Owned s
    → Owned (record s { commands = (name, c) ∷ s.commands })
emplaced-Owned name c s new h x n e = elim (Bool-cases (equal n name)) [
  | inl same ↦
      let old = h x n e in
      let here = ap (λ t. owns x (find t s.commands)) (equal_sound n name same) in
      absurd (ground arith)
  | inr other ↦ rw other (h x n e)
]

pub add_command-Owned :
    (name : Bytes) (c : Command) (aliases : List Bytes) (s : CommandLine)
    → Owned s
    → Owned (add_command name c aliases s).1
unfolding add_command
add_command-Owned name c aliases s h = elim (Option-cases (find name s.commands)) [
  | inl new ↦ rw new (
      add_aliases-Owned name aliases (record s { commands = (name, c) ∷ s.commands }) c
        (ground (arith, equal_refl name)) (emplaced-Owned name c s new h))
  | inr (other, taken) ↦ rw taken h
]

pub remove_command-Owned :
    (name : Bytes) (s : CommandLine) → Owned s → Owned (remove_command name s).1
unfolding remove_command
remove_command-Owned name s h = go (find (resolve name s) s.commands) refl
  where
    go :
        (o : Option Command)
        → find (resolve name s) s.commands ≡ o
        → Owned (remove_found (resolve name s) o s).1
    go none e = h
    go (some c) e = λ x n f.
        let old = some-find-erase_each x c.aliases s.alias n f in
        let own = h x n old.1 in
        elim (Bool-cases (equal n (resolve name s))) [
          | inl same ↦
              let here =
                ap (λ t. owns x (find t s.commands)) (equal_sound n (resolve name s) same) in
              absurd (ground (arith, old.0))
          | inr other ↦ ap (owns x) (find-erase_ne n (resolve name s) s.commands other) ∙ own
        ]

pub remove_alias-Owned :
    (name a : Bytes) (s : CommandLine) → Owned s → Owned (remove_alias name a s).1
unfolding remove_alias
remove_alias-Owned name a s h = go (find name s.commands)
  where
    go : (o : Option Command) → Owned (unalias_found name a o s).1
    go none = h
    go (some c) = within (find a s.alias)
      where
        within : (p : Option Bytes) → Owned (unalias name a p s)
        within none = h
        within (some target) = λ x n f.
            let old = some-find-erase x a s.alias n f in
            owns-erase_alias x n name a s.commands old.0 (h x n old.1)

pub add_alias-Owned :
    (name a : Bytes) (s : CommandLine)
    → find name s.alias ≡ none
    → Owned s
    → Owned (add_alias name a s).1
unfolding add_alias resolve
add_alias-Owned name a s own_name h = rw own_name (go (find name s.commands) refl)
  where
    go : (o : Option Command) → find name s.commands ≡ o → Owned (alias_found name name a o s).1
    go none e = h
    go (some c) e = elim (Option-cases (find a s.alias)) [
      | inl free ↦ rw free (alias_entered-Owned name a s c e h)
      | inr (other, taken) ↦ rw taken h
    ]

-- The tables after calls of the four operations, of which add_alias is given names of commands only.
pub data Reach : CommandLine → Type 0 where
  empty : Reach (record { commands = []; alias = [] })
  command_added :
      {s : CommandLine} (name : Bytes) (c : Command) (aliases : List Bytes)
      → Reach s
      → Reach (add_command name c aliases s).1
  command_removed : {s : CommandLine} (name : Bytes) → Reach s → Reach (remove_command name s).1
  alias_added :
      {s : CommandLine} (name a : Bytes)
      → find name s.alias ≡ none
      → Reach s
      → Reach (add_alias name a s).1
  alias_removed : {s : CommandLine} (name a : Bytes) → Reach s → Reach (remove_alias name a s).1

Reach-Owned : {s : CommandLine} → Reach s → Owned s
Reach-Owned empty = λ a n e. absurd (ground arith)
Reach-Owned (command_added name c aliases r) = add_command-Owned name c aliases _ (Reach-Owned r)
Reach-Owned (command_removed name r) = remove_command-Owned name _ (Reach-Owned r)
Reach-Owned (alias_added name a free r) = add_alias-Owned name a _ free (Reach-Owned r)
Reach-Owned (alias_removed name a r) = remove_alias-Owned name a _ (Reach-Owned r)

-- After any calls, of which add_alias is given no alias for a name, get_command finds for every alias in the table a
-- command, and the alias is in the set of that command.
pub get_command-Reach :
    {s : CommandLine} (a n : Bytes)
    → Reach s
    → find a s.alias ≡ some n
    → owns a (get_command a s) ≡ true
unfolding get_command resolve
get_command-Reach a n r e = rw e (Reach-Owned r a n e)

-- Where the name is itself an alias of a command and no command's name, add_alias of a new alias returns OK, and
-- get_command does not find the new alias.
pub get_command-add_alias :
    (name a n : Bytes) (s : CommandLine) (c : Command)
    → find name s.alias ≡ some n
    → find n s.commands ≡ some c
    → find name s.commands ≡ none
    → find a s.alias ≡ none
    → ((add_alias name a s).0 ≡ ok) × (get_command a (add_alias name a s).1 ≡ none)
unfolding add_alias get_command resolve
get_command-add_alias name a n s c target found no_command free =
    rw (target, found, free, equal_refl a)
      (refl, find-change-none name n (insert_alias a) s.commands no_command)
