-- ===== src/Shell/Commands.antt =====
-- The commands for the prompt, the directory and the aliases: Commands.cpp.
--
-- A command gets the words of its line, the command's own name first. What it prints is part of its
-- result, and what system calls answer is an argument.
use operating_systems_course.Prelude.{
  ℕ, Bool, Option, none, some, List, [], ◌∷◌, map, if◌then◌else◌,
}
use operating_systems_course.Server.Run.{Run, ok, fault, ◌>>=◌}
use operating_systems_course.Server.Stats.{codes}
use operating_systems_course.Shell.Text.{same_text, arg}
use operating_systems_course.Shell.Alias.{
  Alias, add_alias_name, remove_alias_name, alias_line, parse_alias,
}
use operating_systems_course.Shell.Session.{
  SmallShell, Effect, cd_too_many_arguments, oldpwd_not_set, chdir_failed, alias_invalid_format,
  alias_exists, text_line, unalias_not_enough_arguments, unalias_no_alias,
}

-- The constructor and `execute` of `ChpromptCommand`
abbrev pub chprompt : SmallShell → (args : List (List ℕ)) → Run Effect
chprompt s args = arg args 1 >>= λ prompt. elim prompt [
  | none ↦ ok (record s { shell_name = codes "smash" }, [])
  | some name ↦ ok (record s { shell_name = name }, [])
]

-- A `chdir(path)`, with its answer, from the directory `cwd`.
abbrev pub change_to : (chdir : List ℕ → Bool) → (cwd path : List ℕ) → SmallShell → Effect
change_to chdir cwd path s =
    if chdir path then (record s { last_pwd = cwd }, []) else (s, chdir_failed ∷ [])

-- The part of `ChangeDirCommand::execute` behind the first test
abbrev pub cd_to : (chdir : List ℕ → Bool) → (cwd : List ℕ) → SmallShell → Option (List ℕ) → Effect
cd_to chdir cwd s none = (s, [])
cd_to chdir cwd s (some path) =
    if same_text path (codes "-")
    then (if same_text s.last_pwd []
        then (s, oldpwd_not_set ∷ [])
        else change_to chdir cwd s.last_pwd s)
    else change_to chdir cwd path s

-- `ChangeDirCommand::execute`
pub cd : (chdir : List ℕ → Bool) → (cwd : List ℕ) → SmallShell → (args : List (List ℕ)) → Run Effect
cd chdir cwd s args = arg args 2 >>= λ second. elim second [
  | some a ↦ ok (s, cd_too_many_arguments ∷ [])
  | none ↦ arg args 1 >>= λ first. ok (cd_to chdir cwd s first)
]

-- The end of `AliasCommand::execute`
abbrev pub add_parsed : SmallShell → Option Alias → Effect
add_parsed s none = (s, alias_invalid_format ∷ [])
add_parsed s (some a) =
    let (aliases, added) = add_alias_name a.name a.command s.aliases in
    (record s { aliases = aliases }, if added then [] else alias_exists a.name ∷ [])

-- `AliasCommand::execute`
pub alias_command : SmallShell → (cmd_line : List ℕ) → (args : List (List ℕ)) → Run Effect
alias_command s cmd_line args = arg args 1 >>= λ a. elim a [
  | none ↦ ok (s, map (λ x. text_line (alias_line x)) s.aliases)
  | some b ↦ ok (add_parsed s (parse_alias cmd_line))
]

-- The loop of `UnAliasCommand::execute`
abbrev pub unalias_all : (names : List (List ℕ)) → SmallShell → Effect
unalias_all [] s = (s, [])
unalias_all (name ∷ names) s =
    let (aliases, removed) = remove_alias_name name s.aliases in
    if removed
    then unalias_all names (record s { aliases = aliases })
    else (s, unalias_no_alias name ∷ [])

-- `UnAliasCommand::execute`
pub unalias : SmallShell → (args : List (List ℕ)) → Run Effect
unalias s [] = fault
unalias s (name ∷ []) = ok (s, unalias_not_enough_arguments ∷ [])
unalias s (name ∷ (a ∷ names)) = ok (unalias_all (a ∷ names) s)
