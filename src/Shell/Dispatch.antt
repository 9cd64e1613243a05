-- ===== src/Shell/Dispatch.antt =====
-- Which command a line is: `CreateCommand` of Commands.cpp, and the constructors that cut a line.
use operating_systems_course.Prelude.{
  ℕ, Bool, true, false, ◌||◌, List, [], ◌∷◌, ◌++◌, ◌==◌, if◌then◌else◌,
}
use operating_systems_course.Server.Run.{Run, ok, ◌>>=◌}
use operating_systems_course.Server.Stats.{codes}
use operating_systems_course.Shell.Text.{
  same_text, ampersand, trim, parse_command_line, remove_background_sign, is_background,
}
use operating_systems_course.Shell.Alias.{Alias, convert_alias_to_original}

-- The subclasses of `Command`
pub data Kind : Type 0 where
  chprompt_kind : Kind
  alias_kind : Kind
  pipe_kind : Kind
  redirection_kind : Kind
  showpid_kind : Kind
  pwd_kind : Kind
  cd_kind : Kind
  jobs_kind : Kind
  fg_kind : Kind
  quit_kind : Kind
  kill_kind : Kind
  unalias_kind : Kind
  unsetenv_kind : Kind
  sysinfo_kind : Kind
  du_kind : Kind
  whoami_kind : Kind
  usbinfo_kind : Kind
  external_kind : Kind

-- `s.substr(0, s.find_first_of(" \n"))`
abbrev pub up_to_space : List ℕ → List ℕ
up_to_space [] = []
up_to_space (c ∷ cs) = if c == 32 || c == 10 then [] else c ∷ up_to_space cs

abbrev pub has_char : (c : ℕ) → List ℕ → Bool
has_char c [] = false
has_char c (d ∷ ds) = d == c || has_char c ds

-- The commands that are asked for behind `pwd`, with `plain` for a name and `either` for a name that
-- may have a `&` behind it.
abbrev later_kind : (plain either : List ℕ → Bool) → Kind
later_kind plain either =
    if plain (codes "cd")
    then cd_kind
    else if either (codes "jobs")
    then jobs_kind
    else if either (codes "fg")
    then fg_kind
    else if either (codes "quit")
    then quit_kind
    else if plain (codes "kill")
    then kill_kind
    else if plain (codes "unalias")
    then unalias_kind
    else if plain (codes "unsetenv")
    then unsetenv_kind
    else if either (codes "sysinfo")
    then sysinfo_kind
    else if plain (codes "du")
    then du_kind
    else if either (codes "whoami")
    then whoami_kind
    else if either (codes "usbinfo")
    then usbinfo_kind
    else external_kind

-- The tests of `CreateCommand`, on the trimmed line.
unfoldable pub kind_of : List ℕ → Kind
kind_of cmd =
    let word = up_to_space cmd in
    let plain : List ℕ → Bool = λ name. same_text word name in
    let either : List ℕ → Bool =
      λ name. same_text word name || same_text word (name ++ (ampersand ∷ [])) in
    if either (codes "chprompt")
    then chprompt_kind
    else if either (codes "alias")
    then alias_kind
    else if has_char 124 cmd
    then pipe_kind
    else if has_char 62 cmd
    then redirection_kind
    else if either (codes "showpid")
    then showpid_kind
    else if either (codes "pwd")
    then pwd_kind
    else later_kind plain either

-- Whether a command gets the line as `CreateCommand` got it, or converted once more.
abbrev keeps_line : Kind → Bool
keeps_line pipe_kind = true
keeps_line redirection_kind = true
keeps_line k = false

-- `CreateCommand`: the subclass, and the line for its constructor.
unfoldable pub create_command : List Alias → (cmd_line : List ℕ) → Kind × List ℕ
unfolding kind_of
create_command aliases cmd_line =
    let line = convert_alias_to_original aliases cmd_line in
    let kind = kind_of (trim line) in (kind, if keeps_line kind then cmd_line else line)

-- What `executeCommand` makes of a line, which it converts before `CreateCommand` does.
unfoldable pub command_of : List Alias → (cmd_line : List ℕ) → Kind × List ℕ
unfolding create_command
command_of aliases cmd_line = create_command aliases (convert_alias_to_original aliases cmd_line)

-- The constructor of `BuiltInCommand`: the words of the line without its sign.
unfoldable pub built_in_args : (cmd_line : List ℕ) → Run (List (List ℕ))
built_in_args cmd_line = remove_background_sign cmd_line >>= λ line.
    parse_command_line line >>= λ args. is_background line >>= λ background. ok args

-- The string in front of the first `sign`, and behind it.
abbrev pub before_sign : (sign : ℕ) → List ℕ → List ℕ
before_sign sign [] = []
before_sign sign (c ∷ cs) = if c == sign then [] else c ∷ before_sign sign cs

abbrev pub behind_sign : (sign : ℕ) → List ℕ → List ℕ
behind_sign sign [] = []
behind_sign sign (c ∷ cs) = if c == sign then cs else behind_sign sign cs

-- The fields of `RedirectionCommand`
pub record Redirection : Type 0 where
  pub cmd_to_run : List ℕ
  pub override_flag : Bool
  pub output_file : List ℕ

-- The constructor of `RedirectionCommand`, on a line with a `>`, without its sign.
abbrev pub redirect_to : (cmd rest : List ℕ) → Redirection
redirect_to cmd [] = record { cmd_to_run = cmd; override_flag = true; output_file = [] }
redirect_to cmd (c ∷ cs) =
    if c == 62
    then record { cmd_to_run = cmd; override_flag = false; output_file = trim cs }
    else record { cmd_to_run = cmd; override_flag = true; output_file = trim (c ∷ cs) }

unfoldable pub parse_redirection : List ℕ → Redirection
parse_redirection cmd_str = redirect_to (trim (before_sign 62 cmd_str)) (behind_sign 62 cmd_str)

-- The fields of `PipeCommand`
pub record Piped : Type 0 where
  pub command1 : List ℕ
  pub command2 : List ℕ
  pub stderr_pipe : Bool

-- The constructor of `PipeCommand`, on a line with a `|`, without its sign.
abbrev pub pipe_to : (command1 rest : List ℕ) → Piped
pipe_to command1 [] = record { command1 = command1; command2 = []; stderr_pipe = false }
pipe_to command1 (c ∷ cs) =
    if c == ampersand
    then record { command1 = command1; command2 = trim cs; stderr_pipe = true }
    else record { command1 = command1; command2 = trim (c ∷ cs); stderr_pipe = false }

unfoldable pub parse_pipe : List ℕ → Piped
parse_pipe cmd_str = pipe_to (trim (before_sign 124 cmd_str)) (behind_sign 124 cmd_str)
