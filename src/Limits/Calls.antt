-- ===== src/Limits/Calls.antt =====
-- The system calls on limits of hw02-linux-syscall-ban/kernel/sys.c: `getrlimit`, `setrlimit`, the
-- versions for 32 bits, `old_getrlimit`, and `prlimit64` with `check_prlimit_permission`.
--
-- A pointer of the caller is what can be read there, or whether it can be written; a call gives its
-- result with what it wrote. Pids lead to tasks, each with limits of its own, as threads of one group
-- share them; that of the caller is in the table.
pub mod Compat
pub mod Guard
mod Tests
use operating_systems_course.Prelude.{
  ℕ, zero, suc, ◌+◌, ◌-◌, ◌^◌, Bool, true, false, not, ◌&&◌, ◌||◌, Option, none, some, List, [],
  ◌∷◌, ◌==◌, leb, ltb, if◌then◌else◌, ℤ, pos, neg, eperm, esrch, einval, efault,
}
use operating_systems_course.Limits.{
  Limit, Process, Env, Result, done, refused, is_zero, do_prlimit,
}

-- RLIM_INFINITY and RLIM64_INFINITY, and COMPAT_RLIM_INFINITY
abbrev pub infinity : ℕ
infinity = 18446744073709551615

abbrev pub compat_infinity : ℕ
compat_infinity = 4294967295

-- What `setrlimit` returns, and the task.
pub settled : Process → Result → ℤ × Process
settled p (done old p') = (pos 0, p')
settled p (refused error) = (error, p)

pub setrlimit : Env → Process → ℕ → Option Limit → ℤ × Process
unfolding settled
setrlimit env p resource none = (neg efault, p)
setrlimit env p resource (some n) = settled p (do_prlimit env p resource (some n))

-- What a call that reads a limit returns and writes, where it writes `format` of it.
pub shown : (format : Limit → Limit) (writable : Bool) → Result → ℤ × Option Limit
shown format writable (done old p) =
    if writable then (pos 0, some (format old)) else (neg efault, none)
shown format writable (refused error) = (error, none)

pub getrlimit : Env → Process → ℕ → (writable : Bool) → ℤ × Option Limit
unfolding shown
getrlimit env p resource writable = shown (λ l. l) writable (do_prlimit env p resource none)

-- Limits of 32 bits
abbrev pub widen : ℕ → ℕ
widen w = if w == compat_infinity then infinity else w

abbrev pub narrow : ℕ → ℕ
narrow w = if ltb compat_infinity w then compat_infinity else w

pub compat_setrlimit : Env → Process → ℕ → Option Limit → ℤ × Process
unfolding settled
compat_setrlimit env p resource none = (neg efault, p)
compat_setrlimit env p resource (some n) = settled p (
    do_prlimit env p resource
      (some (record { rlim_cur = widen n.rlim_cur; rlim_max = widen n.rlim_max })))

pub compat_getrlimit : Env → Process → ℕ → (writable : Bool) → ℤ × Option Limit
unfolding shown
compat_getrlimit env p resource writable =
    shown (λ l. record { rlim_cur = narrow l.rlim_cur; rlim_max = narrow l.rlim_max }) writable
      (do_prlimit env p resource none)

-- At most 0x7FFFFFFF
abbrev clamp : ℕ → ℕ
clamp w = if ltb 2147483647 w then 2147483647 else w

pub old_getrlimit : Env → Process → ℕ → (writable : Bool) → ℤ × Option Limit
old_getrlimit env p resource writable =
    if leb env.nlimits resource
    then (neg einval, none)
    else if writable
    then (
      pos 0,
      some (record {
        rlim_cur = clamp (p.limits resource).rlim_cur;
        rlim_max = clamp (p.limits resource).rlim_max;
      }),
    )
    else (neg efault, none)

-- The user and group ids of a task that `prlimit64` compares.
pub record Ids : Type 0 where
  pub uid : ℕ
  pub euid : ℕ
  pub suid : ℕ
  pub gid : ℕ
  pub egid : ℕ
  pub sgid : ℕ

pub record Subject : Type 0 where
  pub process : Process
  pub ids : Ids

-- The caller: its pid and its ids; for each task the parameters of `do_prlimit`, whether the caller
-- has CAP_SYS_RESOURCE in the name space of the task, and `security_task_prlimit`.
pub record Caller : Type 0 where
  pub current : ℕ
  pub cred : Ids
  pub env : ℕ → Env
  pub ns_capable : ℕ → Bool
  pub security : ℕ → (flags : ℕ) → ℤ

abbrev pub id_match : Ids → Ids → Bool
id_match cred tcred =
    cred.uid == tcred.euid
    && (cred.uid == tcred.suid
        && (cred.uid == tcred.uid
            && (cred.gid == tcred.egid && (cred.gid == tcred.sgid && cred.gid == tcred.gid))))

pub check_prlimit_permission : Caller → (pid : ℕ) → Ids → (flags : ℕ) → ℤ
check_prlimit_permission s pid tcred flags =
    if s.current == pid
    then pos 0
    else if not (id_match s.cred tcred) && not (s.ns_capable pid)
    then neg eperm
    else s.security pid flags

-- `rlim64_to_rlim` and `rlim_to_rlim64`, on 64 bits
abbrev same_infinity : ℕ → ℕ
same_infinity w = if w == infinity then infinity else w

abbrev pub rlim64_to_rlim : Limit → Limit
rlim64_to_rlim l = record {
  rlim_cur = same_infinity l.rlim_cur;
  rlim_max = same_infinity l.rlim_max;
}

abbrev pub rlim_to_rlim64 : Limit → Limit
rlim_to_rlim64 l = record {
  rlim_cur = same_infinity l.rlim_cur;
  rlim_max = same_infinity l.rlim_max;
}

-- The tasks, the result, and what was written to `old_rlim`.
pub record Outcome : Type 0 where
  pub tasks : ℕ → Option Subject
  pub result : ℤ
  pub written : Option Limit

pub set_task : (ℕ → Option Subject) → ℕ → Subject → ℕ → Option Subject
set_task tasks pid t = λ q. if q == pid then some t else tasks q

-- The end of `prlimit64`, for a task that it may look at; `old` is none for a null `old_rlim`.
pub finished : (ℕ → Option Subject) → ℕ → Subject → (old : Option Bool) → Result → Outcome
unfolding set_task
finished tasks pid t old (refused error) = record { tasks = tasks; result = error; written = none }
finished tasks pid t none (done limit p) = record {
  tasks = set_task tasks pid (record t { process = p });
  result = pos 0;
  written = none;
}
finished tasks pid t (some true) (done limit p) = record {
  tasks = set_task tasks pid (record t { process = p });
  result = pos 0;
  written = some (rlim_to_rlim64 limit);
}
finished tasks pid t (some false) (done limit p) = record {
  tasks = set_task tasks pid (record t { process = p });
  result = neg efault;
  written = none;
}

-- `prlimit64` behind the reading of `new_rlim`.
pub limit_task :
    Caller
    → (ℕ → Option Subject)
    → (pid resource flags : ℕ) → Option Limit
    → (old : Option Bool) → Option Subject
    → Outcome
unfolding check_prlimit_permission finished
limit_task s tasks pid resource flags new old none = record {
  tasks = tasks;
  result = neg esrch;
  written = none;
}
limit_task s tasks pid resource flags new old (some t) =
    let ret = check_prlimit_permission s pid t.ids flags in
    if not (is_zero ret)
    then record { tasks = tasks; result = ret; written = none }
    else finished tasks pid t old (do_prlimit (s.env pid) t.process resource new)

abbrev pub is_given : {A : Type 0} → Option A → Bool
is_given none = false
is_given (some x) = true

-- `checkflags`: LSM_PRLIMIT_READ and LSM_PRLIMIT_WRITE
abbrev pub check_flags : (new old : Bool) → ℕ
check_flags new old = (if old then 1 else 0) + (if new then 2 else 0)

-- `new` is none for a null `new_rlim`, and some none for one that cannot be read.
pub prlimit64 :
    Caller
    → (ℕ → Option Subject)
    → (pid resource : ℕ) → (new : Option (Option Limit)) → (old : Option Bool) → Outcome
unfolding limit_task
prlimit64 s tasks pid resource none old =
    let target = if pid == 0 then s.current else pid in
    limit_task s tasks target resource (check_flags false (is_given old)) none old (tasks target)
prlimit64 s tasks pid resource (some none) old = record {
  tasks = tasks;
  result = neg efault;
  written = none;
}
prlimit64 s tasks pid resource (some (some n)) old =
    let target = if pid == 0 then s.current else pid in
    limit_task s tasks target resource (check_flags true (is_given old)) (some (rlim64_to_rlim n))
      old (tasks target)
