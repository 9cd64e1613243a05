-- ===== src/Limits/Tests.antt =====
-- A task with hard limits of 10, and a caller without CAP_SYS_RESOURCE.
use operating_systems_course.Prelude.{◌≡◌, refl, true, false, none, some, [], ◌∷◌, pos}
use operating_systems_course.Limits.{Process, Env, change_limit, do_prlimit, run}
use operating_systems_course.Limits.Bound.{Bounded, run-Bounded}

abbrev pub env : Env
env = record {
  nlimits = 16;
  cpu = 0;
  nofile = 7;
  nr_open = 1024;
  capable = false;
  security = λ r l. pos 0;
}

abbrev pub task : Process
task = record { has_sighand = true; limits = λ r. record { rlim_cur = 5; rlim_max = 10 } }

-- A soft limit of one second over a hard limit of none.
no_cpu_time :
    (run env ((0, some (record { rlim_cur = 0; rlim_max = 0 })) ∷ []) task).limits 0
    ≡ record { rlim_cur = 1; rlim_max = 0 }
unfolding run do_prlimit change_limit
no_cpu_time = refl

-- A hard limit lowered, the attempt to raise it, and a limit read.
three_calls : Bounded env task (
    run env
      ((3, some (record { rlim_cur = 4; rlim_max = 4 }))
        ∷ ((3, some (record { rlim_cur = 4; rlim_max = 9 })) ∷ ((0, none) ∷ [])))
      task)
three_calls =
    run-Bounded env refl
      ((3, some (record { rlim_cur = 4; rlim_max = 4 }))
        ∷ ((3, some (record { rlim_cur = 4; rlim_max = 9 })) ∷ ((0, none) ∷ [])))
      task
