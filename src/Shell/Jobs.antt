-- ===== src/Shell/Jobs.antt =====
-- `JobsList` of hw01-small-shell/Commands.h and Commands.cpp.
--
-- Which processes have ended, by `waitpid`, is the argument `finished`; `own` is whether the caller is
-- the process of the shell, and not a child of it that has a copy of the list.
pub mod Order
use operating_systems_course.Prelude.{
  ℕ, ◌+◌, Bool, true, false, Option, none, some, List, [], ◌∷◌, ◌++◌, ◌==◌, ltb, map, length,
  if◌then◌else◌,
}
use operating_systems_course.Server.Run.{Run, ok, fault, ◌>>=◌}
use operating_systems_course.Server.Stats.{codes, decimal}

pub record JobEntry : Type 0 where
  pub job_id : ℕ
  pub pid : ℕ
  pub cmd_str : List ℕ

pub record JobsList : Type 0 where
  pub job_list : List JobEntry
  pub max_job_id : ℕ

abbrev pub no_jobs : JobsList
no_jobs = record { job_list = []; max_job_id = 0 }

-- `sort`, by `JobEntry::operator<`
abbrev pub insert_job : JobEntry → List JobEntry → List JobEntry
insert_job e [] = e ∷ []
insert_job e (x ∷ xs) = if ltb x.job_id e.job_id then x ∷ insert_job e xs else e ∷ (x ∷ xs)

abbrev pub sort_jobs : List JobEntry → List JobEntry
sort_jobs [] = []
sort_jobs (x ∷ xs) = insert_job x (sort_jobs xs)

-- The id of the last job, or `id` if there is none.
abbrev pub last_id : (id : ℕ) → List JobEntry → ℕ
last_id id [] = id
last_id id (x ∷ xs) = last_id x.job_id xs

-- The end of `removeFinishedJobs` and `removeJobById`, on the jobs that stay.
abbrev pub settle : List JobEntry → JobsList
settle jobs = record { job_list = sort_jobs jobs; max_job_id = last_id 0 (sort_jobs jobs) }

abbrev pub without : (JobEntry → Bool) → List JobEntry → List JobEntry
without leaves [] = []
without leaves (x ∷ xs) = if leaves x then without leaves xs else x ∷ without leaves xs

-- `removeFinishedJobs`
abbrev pub remove_finished_jobs : (own : Bool) → (finished : ℕ → Bool) → JobsList → JobsList
remove_finished_jobs own finished l =
    if own then settle (without (λ x. finished x.pid) l.job_list) else l

-- `addJob`, behind the removal of finished jobs
abbrev pub push_job : (pid : ℕ) → (cmd_str : List ℕ) → JobsList → JobsList
push_job pid cmd_str l = record {
  job_list =
      l.job_list ++ (record { job_id = l.max_job_id + 1; pid = pid; cmd_str = cmd_str } ∷ []);
  max_job_id = l.max_job_id + 1;
}

-- `addJob`
abbrev pub add_job :
    (own : Bool) → (finished : ℕ → Bool) → (pid : ℕ) → (cmd_str : List ℕ) → JobsList → JobsList
add_job own finished pid cmd_str l = push_job pid cmd_str (remove_finished_jobs own finished l)

-- The loop of `getJobById`
abbrev pub find_job : (job_id : ℕ) → List JobEntry → Option JobEntry
find_job job_id [] = none
find_job job_id (x ∷ xs) = if x.job_id == job_id then some x else find_job job_id xs

-- `getJobById`
abbrev pub get_job_by_id : (job_id : ℕ) → JobsList → Option JobEntry
get_job_by_id job_id l = find_job job_id l.job_list

-- `removeJobById`
abbrev pub remove_job_by_id : (job_id : ℕ) → JobsList → JobsList
remove_job_by_id job_id l = settle (without (λ x. x.job_id == job_id) l.job_list)

-- `getLastJob`, on the jobs
abbrev pub last_job : List JobEntry → Option JobEntry
last_job [] = none
last_job (x ∷ []) = some x
last_job (x ∷ (y ∷ xs)) = last_job (y ∷ xs)

-- `killAllJobs`: the processes that get SIGKILL, and the list.
abbrev pub kill_all_jobs : JobsList → List ℕ × JobsList
kill_all_jobs l = (map (λ x. x.pid) l.job_list, no_jobs)

-- `updateMaxId`, which reads the id behind the last job.
abbrev pub update_max_id : JobsList → Run JobsList
update_max_id l = elim l.job_list [ [] ↦ ok (record l { max_job_id = 0 }) | x ∷ xs ↦ fault ]

-- A line of `printJobsList`
abbrev pub job_line : JobEntry → List ℕ
job_line x = codes "[" ++ (decimal x.job_id ++ (codes "] " ++ x.cmd_str))

-- `printJobsList`: the lines, and the list.
abbrev pub print_jobs_list :
    (own : Bool) → (finished : ℕ → Bool) → JobsList → List (List ℕ) × JobsList
print_jobs_list own finished l =
    let l' = remove_finished_jobs own finished l in (map job_line l'.job_list, l')

-- A change of the list, with what `waitpid` says at that time.
pub data Change : Type 0 where
  added : (own : Bool) → (finished : ℕ → Bool) → (pid : ℕ) → (cmd_str : List ℕ) → Change
  refreshed : (own : Bool) → (finished : ℕ → Bool) → Change
  removed : (job_id : ℕ) → Change
  killed : Change

abbrev pub change : Change → JobsList → JobsList
change (added own finished pid cmd_str) l = add_job own finished pid cmd_str l
change (refreshed own finished) l = remove_finished_jobs own finished l
change (removed job_id) l = remove_job_by_id job_id l
change killed l = (kill_all_jobs l).1

abbrev pub changes : List Change → JobsList → JobsList
changes [] l = l
changes (c ∷ cs) l = changes cs (change c l)
