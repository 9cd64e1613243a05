-- ===== src/Shell/Jobs/Order.antt =====
-- The order of the jobs and their ids: Commands.cpp.
use operating_systems_course.Prelude.{
  ℕ, ◌+◌, ◌≤◌, ◌<◌, Bool, true, false, none, some, List, [], ◌∷◌, ◌++◌, ◌==◌, ◌≡◌, refl, arith, ap,
  sym, ◌∙◌, if◌then◌else◌, Bool-cases, inl, inr,
}
use operating_systems_course.Shell.Jobs.{
  JobEntry, JobsList, insert_job, sort_jobs, last_id, settle, without, remove_finished_jobs,
  push_job, add_job, find_job, get_job_by_id, Change, change, changes, added, refreshed, removed,
  killed,
}

-- The ids ascend, from above `lo`.
abbrev pub Ascending : ℕ → List JobEntry → Type 0
Ascending lo [] = Unit {0}
Ascending lo (x ∷ xs) = (lo < x.job_id) × Ascending x.job_id xs

-- The ids are positive and ascend, and the last one is `max_job_id`.
pub record IsOrdered (l : JobsList) : Type 0 where
  pub ascending : Ascending 0 l.job_list
  pub last : l.max_job_id ≡ last_id 0 l.job_list

Ascending-weaken : (a b : ℕ) (xs : List JobEntry) → a ≤ b → Ascending b xs → Ascending a xs
Ascending-weaken a b [] le c = c
Ascending-weaken a b (x ∷ xs) le (lt, c) = (omega arith, c)

without-Ascending :
    (leaves : JobEntry → Bool) (lo : ℕ) (xs : List JobEntry)
    → Ascending lo xs
    → Ascending lo (without leaves xs)
without-Ascending leaves lo [] c = c
without-Ascending leaves lo (x ∷ xs) (lt, c) =
    let c' = without-Ascending leaves x.job_id xs c in
    elim (Bool-cases (leaves x)) [
      | inl out ↦ rw out (Ascending-weaken lo x.job_id (without leaves xs) (omega arith) c')
      | inr stays ↦ rw stays (lt, c')
    ]

insert_job-first :
    (x : JobEntry) (xs : List JobEntry) → Ascending x.job_id xs → insert_job x xs ≡ x ∷ xs
insert_job-first x [] c = refl
insert_job-first x (y ∷ ys) (lt, c) = ground arith

sort_jobs-Ascending : (lo : ℕ) (xs : List JobEntry) → Ascending lo xs → sort_jobs xs ≡ xs
sort_jobs-Ascending lo [] c = refl
sort_jobs-Ascending lo (x ∷ xs) (lt, c) =
    ap (insert_job x) (sort_jobs-Ascending x.job_id xs c) ∙ insert_job-first x xs c

settle-IsOrdered : (xs : List JobEntry) → Ascending 0 xs → IsOrdered (settle xs)
settle-IsOrdered xs c = record { ascending = rw (sort_jobs-Ascending 0 xs c) c; last = refl }

append-Ascending :
    (lo : ℕ) (xs : List JobEntry) (e : JobEntry)
    → last_id lo xs < e.job_id
    → Ascending lo xs
    → Ascending lo (xs ++ (e ∷ []))
append-Ascending lo [] e lt c = (lt, _)
append-Ascending lo (x ∷ xs) e lt (lo_lt, c) = (lo_lt, append-Ascending x.job_id xs e lt c)

last_id-append :
    (lo : ℕ) (xs : List JobEntry) (e : JobEntry) → last_id lo (xs ++ (e ∷ [])) ≡ e.job_id
last_id-append lo [] e = refl
last_id-append lo (x ∷ xs) e = last_id-append x.job_id xs e

push_job-IsOrdered :
    (pid : ℕ) (cmd_str : List ℕ) (l : JobsList) → IsOrdered l → IsOrdered (push_job pid cmd_str l)
push_job-IsOrdered pid cmd_str l o = record {
  ascending = append-Ascending 0 l.job_list _ (omega (arith, o.last)) o.ascending;
  last = sym (last_id-append 0 l.job_list _);
}

remove_finished_jobs-IsOrdered :
    (own : Bool) (finished : ℕ → Bool) (l : JobsList)
    → IsOrdered l
    → IsOrdered (remove_finished_jobs own finished l)
remove_finished_jobs-IsOrdered true finished l o =
    settle-IsOrdered _ (without-Ascending (λ x. finished x.pid) 0 l.job_list o.ascending)
remove_finished_jobs-IsOrdered false finished l o = o

change-IsOrdered : (c : Change) (l : JobsList) → IsOrdered l → IsOrdered (change c l)
change-IsOrdered (added own finished pid cmd_str) l o =
    push_job-IsOrdered pid cmd_str (remove_finished_jobs own finished l)
      (remove_finished_jobs-IsOrdered own finished l o)
change-IsOrdered (refreshed own finished) l o = remove_finished_jobs-IsOrdered own finished l o
change-IsOrdered (removed job_id) l o =
    settle-IsOrdered _ (without-Ascending (λ x. x.job_id == job_id) 0 l.job_list o.ascending)
change-IsOrdered killed l o = record { ascending = _; last = refl }

-- Whatever changes are made to the list, and whatever `waitpid` says in between: from a list in which
-- the ids are positive and ascend, with the last one as `maxJobId`, the changes lead to such a list.
pub changes-IsOrdered : (cs : List Change) (l : JobsList) → IsOrdered l → IsOrdered (changes cs l)
changes-IsOrdered [] l o = o
changes-IsOrdered (c ∷ cs) l o = changes-IsOrdered cs (change c l) (change-IsOrdered c l o)

find_job-above :
    (lo id : ℕ) (xs : List JobEntry) → last_id lo xs < id → Ascending lo xs → find_job id xs ≡ none
find_job-above lo id [] lt c = refl
find_job-above lo id (x ∷ xs) lt (lo_lt, c) =
    ground (arith, find_job-above x.job_id id xs lt c, last_id-ge x.job_id xs c)
  where
    last_id-ge : (lo : ℕ) (xs : List JobEntry) → Ascending lo xs → lo ≤ last_id lo xs
    last_id-ge lo [] c = omega arith
    last_id-ge lo (x ∷ xs) (lt, c) = omega (arith, last_id-ge x.job_id xs c)

find_job-append :
    (id : ℕ) (xs : List JobEntry) (e : JobEntry)
    → find_job e.job_id xs ≡ none
    → find_job id (xs ++ (e ∷ [])) ≡ (if e.job_id == id then some e else find_job id xs)
find_job-append id [] e new = refl
find_job-append id (x ∷ xs) e new = elim (Bool-cases (x.job_id == e.job_id)) [
  | inl same ↦ absurd (cc (rw same at new))
  | inr other ↦
      let new' : find_job e.job_id xs ≡ none = rw other at new in
      ground (arith, find_job-append id xs e new')
]

-- `addJob` on such a list gives the new job an id that no job has, under which `getJobById` finds it;
-- under any other id it finds what it finds once the finished jobs are removed.
pub get_job_by_id-add_job :
    (own : Bool) (finished : ℕ → Bool) (pid : ℕ) (cmd_str : List ℕ) (l : JobsList) (id : ℕ)
    → IsOrdered l
    → let kept = remove_finished_jobs own finished l in
      let id' = kept.max_job_id + 1 in
      (get_job_by_id id' kept ≡ none)
      × ((get_job_by_id id (add_job own finished pid cmd_str l)) ≡ (
          if id' == id
          then some (record { job_id = id'; pid = pid; cmd_str = cmd_str })
          else get_job_by_id id kept))
get_job_by_id-add_job own finished pid cmd_str l id o =
    let kept = remove_finished_jobs own finished l in
    let k = remove_finished_jobs-IsOrdered own finished l o in
    let id' = kept.max_job_id + 1 in
    let e : JobEntry = record { job_id = id'; pid = pid; cmd_str = cmd_str } in
    let absent : find_job id' kept.job_list ≡ none =
      find_job-above 0 id' kept.job_list (omega (arith, k.last)) k.ascending in
    (absent, find_job-append id kept.job_list e absent)
