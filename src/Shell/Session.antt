-- ===== src/Shell/Session.antt =====
-- The state of the shell, and what it prints: `SmallShell` of Commands.h, and Commands.cpp.
--
-- A pid of -1 for no process is `none`.
use operating_systems_course.Prelude.{ℕ, Option, none, List, [], ℤ}
use operating_systems_course.Server.Stats.{codes}
use operating_systems_course.Shell.Jobs.{JobsList, no_jobs}
use operating_systems_course.Shell.Alias.{Alias}

-- `SmallShell`
pub record SmallShell : Type 0 where
  pub shell_name : List ℕ
  pub last_pwd : List ℕ
  pub jobs_list : JobsList
  pub aliases : List Alias
  pub fg_pid : Option ℕ

-- The constructor of `SmallShell`
abbrev pub small_shell : SmallShell
small_shell = record {
  shell_name = codes "smash";
  last_pwd = [];
  jobs_list = no_jobs;
  aliases = [];
  fg_pid = none;
}

-- What is printed.
pub data Message : Type 0 where
  cd_too_many_arguments : Message
  oldpwd_not_set : Message
  chdir_failed : Message
  jobs_list_is_empty : Message
  fg_invalid_arguments : Message
  fg_no_job : (arg : List ℕ) → Message
  command_and_pid : (cmd_str : List ℕ) → (pid : ℕ) → Message
  waitpid_failed : Message
  kill_invalid_arguments : Message
  kill_no_job : (job_id : ℤ) → Message
  signal_sent : (signal : ℤ) → (pid : ℕ) → Message
  kill_failed : Message
  sending_sigkill : (jobs : ℕ) → Message
  alias_invalid_format : Message
  alias_exists : (name : List ℕ) → Message
  text_line : List ℕ → Message
  unalias_not_enough_arguments : Message
  unalias_no_alias : (name : List ℕ) → Message
  got_ctrl_c : Message
  process_killed : (pid : ℕ) → Message

abbrev pub Effect : Type 0
Effect = SmallShell × List Message
