-- ===== src/Limits.antt =====
-- Resource limits: `do_prlimit` of hw02-linux-syscall-ban/kernel/sys.c, on which `getrlimit`,
-- `setrlimit` and `prlimit64` stand.
--
-- The numbers of the resources, the tests of the caller and the security hook are parameters. The
-- timer that `update_rlimit_cpu` sets is left out: it changes no limit.
pub mod Calls
pub mod Bound
mod Tests
use operating_systems_course.Prelude.{
  ℕ, Bool, true, false, not, ◌&&◌, Option, none, some, List, [], ◌∷◌, ◌==◌, leb, ltb, if◌then◌else◌,
  ℤ, pos, neg, eperm, esrch, einval,
}

-- `struct rlimit`
pub record Limit : Type 0 where
  pub rlim_cur : ℕ
  pub rlim_max : ℕ

-- What `do_prlimit` uses of a task: its limits, and whether it has a `sighand`.
pub record Process : Type 0 where
  pub has_sighand : Bool
  pub limits : ℕ → Limit

-- RLIM_NLIMITS, RLIMIT_CPU and RLIMIT_NOFILE, `sysctl_nr_open`, whether the caller has
-- CAP_SYS_RESOURCE, and `security_task_setrlimit` for the task.
pub record Env : Type 0 where
  pub nlimits : ℕ
  pub cpu : ℕ
  pub nofile : ℕ
  pub nr_open : ℕ
  pub capable : Bool
  pub security : ℕ → Limit → ℤ

-- A call returns 0, with the old limit and the task as it leaves it, or an error.
pub data Result : Type 0 where
  done : (old : Limit) → Process → Result
  refused : (error : ℤ) → Result

abbrev pub is_zero : ℤ → Bool
is_zero (pos n) = n == 0
is_zero z = false

-- For the CPU time, 0 stands for no limit, so that 0 becomes 1.
abbrev pub adjusted : Env → ℕ → Limit → Limit
adjusted env resource n =
    if resource == env.cpu && n.rlim_cur == 0 then record n { rlim_cur = 1 } else n

abbrev pub set_limit : Process → ℕ → Limit → Process
set_limit p resource n = record p { limits = λ r. if r == resource then n else p.limits r }

-- `do_prlimit` with `new_rlim`, behind the checks of `resource` and `new_rlim`.
pub change_limit : Env → Process → ℕ → Limit → Result
change_limit env p resource n =
    if not p.has_sighand
    then refused (neg esrch)
    else if ltb (p.limits resource).rlim_max n.rlim_max && not env.capable
    then refused (neg eperm)
    else if not (is_zero (env.security resource n))
    then refused (env.security resource n)
    else done (p.limits resource) (set_limit p resource (adjusted env resource n))

-- `do_prlimit`; `none` is a null `new_rlim`.
pub do_prlimit : Env → Process → ℕ → Option Limit → Result
unfolding change_limit
do_prlimit env p resource none =
    if leb env.nlimits resource
    then refused (neg einval)
    else if not p.has_sighand
    then refused (neg esrch)
    else done (p.limits resource) p
do_prlimit env p resource (some n) =
    if leb env.nlimits resource
    then refused (neg einval)
    else if ltb n.rlim_max n.rlim_cur
    then refused (neg einval)
    else if resource == env.nofile && ltb env.nr_open n.rlim_max
    then refused (neg eperm)
    else change_limit env p resource n

-- The task that a call leaves.
abbrev pub after : Process → Result → Process
after p (done old p') = p'
after p (refused error) = p

-- Calls for one task, each with its resource and its new limit.
pub run : Env → List (ℕ × Option Limit) → Process → Process
unfolding do_prlimit
run env [] p = p
run env ((resource, new) ∷ rest) p = run env rest (after p (do_prlimit env p resource new))
