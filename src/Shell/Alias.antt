-- ===== src/Shell/Alias.antt =====
-- `AliasHelper` of hw01-small-shell/Commands.h and Commands.cpp, and the parsing of the `alias` command.
pub mod Expand
use operating_systems_course.Prelude.{
  ℕ, ◌+◌, Bool, true, false, not, ◌&&◌, ◌||◌, Option, none, some, List, [], ◌∷◌, ◌++◌, ◌==◌, leb,
  if◌then◌else◌,
}
use operating_systems_course.Server.Stats.{codes}
use operating_systems_course.Server.Request.{contains}
use operating_systems_course.Shell.Text.{is_space, same_text, ltrim, trim}

-- A pair of `addedAliasList`
pub record Alias : Type 0 where
  pub name : List ℕ
  pub command : List ℕ

abbrev pub reserved_words : List (List ℕ)
reserved_words =
    codes "chprompt"
    ∷ (codes "chprompt&"
        ∷ (codes "showpid"
            ∷ (codes "showpid&"
                ∷ (codes "pwd"
                    ∷ (codes "pwd&"
                        ∷ (codes "cd"
                            ∷ (codes "jobs"
                                ∷ (codes "jobs&"
                                    ∷ (codes "fg"
                                        ∷ (codes "fg&"
                                            ∷ (codes "quit"
                                                ∷ (codes "quit&"
                                                    ∷ (codes "kill"
                                                        ∷ (codes "alias" ∷ more_words))))))))))))))
  where
    last_words : List (List ℕ)
    last_words =
        codes ">" ∷ (codes "<" ∷ (codes "|" ∷ (codes "|&" ∷ (codes ">>" ∷ (codes "<<" ∷ [])))))

    more_words : List (List ℕ)
    more_words =
        codes "alias&"
        ∷ (codes "unalias"
            ∷ (codes "unsetenv"
                ∷ (codes "sysinfo"
                    ∷ (codes "sysinfo&"
                        ∷ (codes "du"
                            ∷ (codes "whoami"
                                ∷ (codes "whoami&"
                                    ∷ (codes "usbinfo" ∷ (codes "usbinfo&" ∷ last_words)))))))))

abbrev pub is_among : List ℕ → List (List ℕ) → Bool
is_among name [] = false
is_among name (w ∷ ws) = same_text w name || is_among name ws

-- The first alias with the name.
abbrev pub find_alias : (name : List ℕ) → List Alias → Option Alias
find_alias name [] = none
find_alias name (a ∷ xs) = if same_text a.name name then some a else find_alias name xs

-- `addAliasName`: the list, and the result.
unfoldable pub add_alias_name : (name command : List ℕ) → List Alias → List Alias × Bool
add_alias_name name command aliases =
    if is_among name reserved_words then (aliases, false) else elim (find_alias name aliases) [
      | some a ↦ (aliases, false)
      | none ↦ (aliases ++ (record { name = name; command = command } ∷ []), true)
    ]

abbrev pub erase_first : (name : List ℕ) → List Alias → List Alias
erase_first name [] = []
erase_first name (a ∷ xs) = if same_text a.name name then xs else a ∷ erase_first name xs

-- `removeAliasName`: the list, and the result.
unfoldable pub remove_alias_name : (name : List ℕ) → List Alias → List Alias × Bool
remove_alias_name name aliases = elim (find_alias name aliases) [
  | none ↦ (aliases, false)
  | some a ↦ (erase_first name aliases, true)
]

-- A line of `printAllAliasNames`
abbrev pub alias_line : Alias → List ℕ
alias_line a = a.name ++ (codes "='" ++ (a.command ++ codes "'"))

-- What `str >> firstWord` reads of a line without spaces in front, and what it leaves.
abbrev pub word_of : List ℕ → List ℕ
word_of [] = []
word_of (c ∷ cs) = if is_space c then [] else c ∷ word_of cs

abbrev pub behind_word : List ℕ → List ℕ
behind_word [] = []
behind_word (c ∷ cs) = if is_space c then c ∷ cs else behind_word cs

-- What `getline` reads.
abbrev pub until_newline : List ℕ → List ℕ
until_newline [] = []
until_newline (c ∷ cs) = if c == 10 then [] else c ∷ until_newline cs

abbrev pub first_word : List ℕ → List ℕ
first_word line = word_of (ltrim line)

abbrev pub remaining : List ℕ → List ℕ
remaining line = until_newline (behind_word (ltrim line))

-- `convertAliasToOriginal`
unfoldable pub convert_alias_to_original : List Alias → (cmd_line : List ℕ) → List ℕ
convert_alias_to_original aliases cmd_line = elim (find_alias (first_word cmd_line) aliases) [
  | none ↦ cmd_line
  | some a ↦ a.command ++ remaining cmd_line
]

-- A single quote, and `=`
abbrev quote : ℕ
quote = 39

abbrev equals : ℕ
equals = 61

-- The string in front of the first quote and behind it, if there is one.
abbrev before_quote : List ℕ → List ℕ
before_quote [] = []
before_quote (c ∷ cs) = if c == quote then [] else c ∷ before_quote cs

abbrev behind_quote : List ℕ → List ℕ
behind_quote [] = []
behind_quote (c ∷ cs) = if c == quote then cs else behind_quote cs

-- All but the last character, and whether that is `c`.
abbrev but_last : List ℕ → List ℕ
but_last [] = []
but_last (c ∷ []) = []
but_last (c ∷ (d ∷ cs)) = c ∷ but_last (d ∷ cs)

abbrev ends_in : (c : ℕ) → List ℕ → Bool
ends_in c [] = false
ends_in c (d ∷ []) = d == c
ends_in c (d ∷ (e ∷ cs)) = ends_in c (e ∷ cs)

-- `[a-zA-Z0-9_]`
abbrev is_word_char : ℕ → Bool
is_word_char c =
    (leb 97 c && leb c 122) || ((leb 65 c && leb c 90) || ((leb 48 c && leb c 57) || c == 95))

abbrev are_word_chars : List ℕ → Bool
are_word_chars [] = true
are_word_chars (c ∷ cs) = is_word_char c && are_word_chars cs

abbrev is_name : List ℕ → Bool
is_name [] = false
is_name (c ∷ cs) = are_word_chars (c ∷ cs)

abbrev is_empty_text : List ℕ → Bool
is_empty_text [] = true
is_empty_text (c ∷ cs) = false

-- The format `name='command'` of what follows the word `alias`; `none` for a line that it refuses.
unfoldable pub parse_alias : (cmd_line : List ℕ) → Option Alias
parse_alias cmd_line =
    let text = trim (remaining cmd_line) in
    if not (contains (codes "='") text) || not (ends_in quote text)
    then none
    else if is_empty_text (behind_quote text)
    then none
    else if not (ends_in equals (before_quote text))
    then none
    else (let name = but_last (before_quote text) in
        if is_name name
        then some (record { name = name; command = but_last (behind_quote text) })
        else none)
