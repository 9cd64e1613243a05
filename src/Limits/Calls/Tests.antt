-- ===== src/Limits/Calls/Tests.antt =====
-- Calls on the limits of two tasks.
use operating_systems_course.Prelude.{
  ℕ, ◌≡◌, refl, true, false, Option, none, some, List, [], ◌∷◌, ◌==◌, if◌then◌else◌, pos, neg,
  eperm, arith,
}
use operating_systems_course.Limits.{Limit, set_limit, change_limit, do_prlimit}
use operating_systems_course.Limits.Tests.{env, task}
use operating_systems_course.Limits.Calls.{
  Ids, Subject, Caller, compat_setrlimit, compat_getrlimit, prlimit64,
}
use operating_systems_course.Limits.Calls.Compat.{stored, compat_getrlimit-compat_setrlimit}
use operating_systems_course.Limits.Calls.Guard.{Request, Guarded, run, run-Guarded}

-- The ids of one user, and of another.
abbrev ids : ℕ → Ids
ids u = record { uid = u; euid = u; suid = u; gid = 100; egid = 100; sgid = 100 }

-- The caller has the pid 7, and a task of another user the pid 8.
abbrev caller : Caller
caller = record {
  current = 7;
  cred = ids 1000;
  env = λ pid. env;
  ns_capable = λ pid. false;
  security = λ pid flags. pos 0;
}

abbrev tasks : ℕ → Option Subject
tasks pid =
    if pid == 7
    then some (record { process = task; ids = ids 1000 })
    else if pid == 8
    then some (record { process = task; ids = ids 1001 })
    else none

abbrev lower : Limit
lower = record { rlim_cur = 4; rlim_max = 4 }

-- A task of another user is refused.
other_user : (prlimit64 caller tasks 8 3 (some (some lower)) none).result ≡ neg eperm
unfolding prlimit64
other_user = refl

-- The caller lowers a limit of its own, by the pid 0, and reads one.
abbrev requests : List Request
requests =
    record { pid = 0; resource = 3; new = some (some lower); old = some true }
    ∷ (record { pid = 8; resource = 3; new = none; old = some true } ∷ [])

run-Guarded_example :
    (t' : Subject) × (run caller requests tasks 7 ≡ some t')
    × Guarded caller 7 (record { process = task; ids = ids 1000 }) t'
run-Guarded_example =
    run-Guarded caller (λ pid. refl) (λ pid. refl) requests tasks 7
      (record { process = task; ids = ids 1000 }) refl

lowered : compat_setrlimit env task 3 (some lower) ≡ (pos 0, set_limit task 3 lower)
unfolding compat_setrlimit do_prlimit change_limit
lowered = refl

compat_getrlimit-compat_setrlimit_example :
    compat_getrlimit env (set_limit task 3 lower) 3 true ≡ (pos 0, some (stored env 3 lower))
compat_getrlimit-compat_setrlimit_example =
    compat_getrlimit-compat_setrlimit env task (set_limit task 3 lower) 3 lower (omega arith)
      (omega arith) lowered
