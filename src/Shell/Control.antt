-- ===== src/Shell/Control.antt =====
-- The commands for jobs, and the handler of ctrl-C: Commands.cpp and signals.cpp.
--
-- An exception that nothing catches is a fault, as the invalid accesses are.
use operating_systems_course.Prelude.{
  ℕ, ◌+◌, ◌*◌, ◌-◌, Bool, true, false, not, ◌&&◌, Option, none, some, List, [], ◌∷◌, ◌==◌, leb, ltb,
  map, length, ℤ, pos, negsuc, if◌then◌else◌,
}
use operating_systems_course.Server.Run.{Run, ok, fault, ◌>>=◌}
use operating_systems_course.Server.Stats.{codes}
use operating_systems_course.Shell.Text.{same_text, arg}
use operating_systems_course.Shell.Jobs.{
  JobEntry, JobsList, remove_finished_jobs, add_job, get_job_by_id, remove_job_by_id, last_job,
  kill_all_jobs, update_max_id,
}
use operating_systems_course.Shell.Session.{
  SmallShell, Message, Effect, jobs_list_is_empty, fg_invalid_arguments, fg_no_job, command_and_pid,
  waitpid_failed, kill_invalid_arguments, kill_no_job, signal_sent, kill_failed, sending_sigkill,
  got_ctrl_c, process_killed,
}

abbrev pub is_digit : ℕ → Bool
is_digit c = leb 48 c && leb c 57

-- `isNum`
abbrev pub is_num : List ℕ → Bool
is_num [] = true
is_num (c ∷ cs) = is_digit c && is_num cs

abbrev pub int_max : ℕ
int_max = 2147483647

abbrev pub value : (acc : ℕ) → List ℕ → ℕ
value acc [] = acc
value acc (c ∷ cs) = value (acc * 10 + (c - 48)) cs

-- `stoi` of digits, and of a minus sign and digits
abbrev pub stoi : List ℕ → Run ℤ
stoi [] = fault
stoi (c ∷ cs) = let n = value 0 (c ∷ cs) in if ltb int_max n then fault else ok (pos n)

abbrev pub stoi_neg : List ℕ → Run ℤ
stoi_neg [] = fault
stoi_neg (c ∷ cs) =
    let n = value 0 (c ∷ cs) in
    if ltb (int_max + 1) n then fault else ok (if n == 0 then pos 0 else negsuc (n - 1))

-- `isNumber`, with the number
abbrev pub is_number : List ℕ → Run (Option ℤ)
is_number [] = fault
is_number (c ∷ cs) =
    if c == 45
    then (if is_num cs then (stoi_neg cs >>= λ n. ok (some n)) else ok none)
    else (if is_num (c ∷ cs) then (stoi (c ∷ cs) >>= λ n. ok (some n)) else ok none)

-- `getJobById` of an `int`
abbrev pub get_job : ℤ → JobsList → Option JobEntry
get_job (pos n) l = get_job_by_id n l
get_job (negsuc n) l = none

-- `ForegroundCommand::execute`: the job, or what is printed instead.
pub data Chosen : Type 0 where
  job : JobEntry → Chosen
  complaint : Message → Chosen

abbrev pub job_or : Message → Option JobEntry → Chosen
job_or m none = complaint m
job_or m (some x) = job x

abbrev pub fg_choose : JobsList → (args : List (List ℕ)) → Run Chosen
fg_choose l [] = fault
fg_choose l (name ∷ []) = ok (job_or jobs_list_is_empty (last_job l.job_list))
fg_choose l (name ∷ (a ∷ (b ∷ args))) = ok (complaint fg_invalid_arguments)
fg_choose l (name ∷ (a ∷ [])) =
    if is_num a
    then (stoi a >>= λ n. ok (job_or (fg_no_job a) (get_job n l)))
    else ok (complaint fg_invalid_arguments)

-- The waiting of `ForegroundCommand::execute`: the shell while it waits, and behind it. The result of
-- `waitpid` is `waited`.
abbrev pub waiting : SmallShell → JobEntry → SmallShell
waiting s x = record s { fg_pid = some x.pid }

abbrev pub fg_done : (waited : Bool) → SmallShell → JobEntry → Effect
fg_done waited s x = (
  record (waiting s x) { jobs_list = remove_job_by_id x.job_id s.jobs_list; fg_pid = none },
  command_and_pid x.cmd_str x.pid ∷ (if waited then [] else waitpid_failed ∷ []),
)

pub fg : (waitpid : ℕ → Bool) → SmallShell → (args : List (List ℕ)) → Run Effect
fg waitpid s args = fg_choose s.jobs_list args >>= λ c. elim c [
  | complaint m ↦ ok (s, m ∷ [])
  | job x ↦ ok (fg_done (waitpid x.pid) s x)
]

-- What `kill` names: a signal and the process of a job.
abbrev pub Target : Type 0
Target = ℤ × JobEntry

abbrev pub kill_invalid : Run (Option Target × List Message)
kill_invalid = ok (none, kill_invalid_arguments ∷ [])

abbrev pub kill_job : (signal job_id : ℤ) → JobsList → Option Target × List Message
kill_job signal job_id l = elim (get_job job_id l) [
  | none ↦ (none, kill_no_job job_id ∷ [])
  | some x ↦ (some (signal, x), [])
]

-- The two numbers of `KillCommand::execute`; `sign` is `args[1]` and `a` is `args[2]`.
abbrev pub kill_numbers : (sign a : List ℕ) → JobsList → Run (Option Target × List Message)
kill_numbers [] a l = kill_invalid
kill_numbers (c ∷ []) a l = kill_invalid
kill_numbers (c ∷ (d ∷ ds)) a l =
    if not (c == 45)
    then kill_invalid
    else (is_number (d ∷ ds) >>= λ signal. elim signal [
      | none ↦ kill_invalid
      | some n ↦ is_number a >>= λ job_id. elim job_id [
        | none ↦ kill_invalid
        | some i ↦ ok (kill_job n i l)
      ]
    ])

abbrev pub kill_target : JobsList → (args : List (List ℕ)) → Run (Option Target × List Message)
kill_target l [] = fault
kill_target l (name ∷ []) = kill_invalid
kill_target l (name ∷ (sign ∷ [])) = kill_invalid
kill_target l (name ∷ (sign ∷ (a ∷ []))) = kill_numbers sign a l
kill_target l (name ∷ (sign ∷ (a ∷ (b ∷ args)))) = kill_invalid

-- `KillCommand::execute`: what is printed; `kill` says whether the call succeeds.
unfoldable pub kill_command :
    (kill : ℕ → ℤ → Bool) → JobsList → (args : List (List ℕ)) → Run (List Message)
kill_command kill l args = kill_target l args >>= λ (target, messages). elim target [
  | none ↦ ok messages
  | some (signal, x) ↦
      ok (signal_sent signal x.pid ∷ (if kill x.pid signal then [] else kill_failed ∷ []))
]

-- The listing of `QuitCommand::execute`
abbrev pub listing : JobsList → List Message
listing l =
    sending_sigkill (length l.job_list) ∷ map (λ x. command_and_pid x.cmd_str x.pid) l.job_list

abbrev pub wants_kill : Option (List ℕ) → Bool
wants_kill none = false
wants_kill (some a) = same_text a (codes "kill")

-- `QuitCommand::execute`, before `exit(0)`: what is printed, the processes that get SIGKILL, and the
-- list.
pub quit :
    (own : Bool)
    → (finished : ℕ → Bool) → JobsList
    → (args : List (List ℕ)) → Run (List Message × List ℕ × JobsList)
quit own finished l args = arg args 1 >>= λ a.
    if wants_kill a
    then (let l' = remove_finished_jobs own finished l in
        let (pids, left) = kill_all_jobs l' in
        update_max_id (record left { job_list = [] }) >>= λ end. ok (listing l', pids, end))
    else (update_max_id (record l { job_list = [] }) >>= λ end. ok ([], [], end))

-- The part of `executeCommand` for a command that is not built in, in the parent: `pid` is what `fork`
-- returned, `waited` whether `waitpid` succeeded. The job keeps the line as it was typed.
abbrev pub external_done : (waited : Bool) → SmallShell → Effect
external_done waited s = (record s { fg_pid = none }, if waited then [] else waitpid_failed ∷ [])

abbrev pub external_added :
    (own : Bool) → (finished : ℕ → Bool) → (pid : ℕ) → (cmd_str : List ℕ) → SmallShell → SmallShell
external_added own finished pid cmd_str s = record s {
  jobs_list = add_job own finished pid cmd_str s.jobs_list;
}

-- `ctrlCHandler`; `kill` says whether the call succeeds.
pub ctrl_c_handler : (kill : ℕ → Bool) → SmallShell → Effect
ctrl_c_handler kill s = elim s.fg_pid [
  | none ↦ (s, got_ctrl_c ∷ [])
  | some pid ↦ (
    record s { fg_pid = none },
    got_ctrl_c ∷ ((if kill pid then process_killed pid else kill_failed) ∷ []),
  )
]
