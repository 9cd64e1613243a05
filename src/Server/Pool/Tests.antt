-- ===== src/Server/Pool/Tests.antt =====
-- A server with two workers and one place: both workers go to sleep, a connection comes and wakes
-- one, and `main` waits.
use operating_systems_course.Prelude.{
  ℕ, ◌+◌, ◌≤◌, ◌<◌, ◌≡◌, refl, true, ◌||◌, List, [], ◌∷◌, ◌++◌, arith, length, ℤ, pos,
}
use operating_systems_course.Server.Threads.{assign, count}
use operating_systems_course.Server.Pool.{
  getargs, Pool, ready, start, master_turn, worker_turn, master_enqueue, woken, master_tests,
  master_accepts, worker_tests, Reach, here, next,
}
use operating_systems_course.Server.Pool.Invariant.{is_ready, is_handling, Inv, Reach-Inv}
use operating_systems_course.Server.Pool.Safety.{
  load_bound, arrival_order, no_stranded_job, no_deadlock, getargs_range,
}

abbrev drowsy : Pool
drowsy = worker_turn (worker_turn (start 1) 0) 1

abbrev roomy : Pool
roomy = master_turn drowsy

abbrev queued : Pool
queued = master_enqueue roomy (pos 7) (assign roomy.pc 1 ready)

abbrev full : Pool
full = master_turn queued

full-Reach : Reach 2 1 full
unfolding worker_turn master_turn master_enqueue
full-Reach =
    next
      (next
        (next
          (next (next here (worker_tests 0 (omega arith) refl)) (worker_tests 1 (omega arith) refl))
          (master_tests refl))
        (master_accepts (pos 7) refl (woken 1 (omega arith) refl)))
      (master_tests refl)

Reach-Inv_example : Inv 2 full
Reach-Inv_example = Reach-Inv full-Reach

load_bound_example :
    (length full.queue + count is_handling 2 full.pc ≤ 1)
    × (full.active_jobs ≡ count is_handling 2 full.pc)
load_bound_example = load_bound full-Reach

arrival_order_example : full.accepted ≡ full.started ++ full.queue
arrival_order_example = arrival_order full-Reach

no_stranded_job_example : (j : ℕ) × (j < 2) × (is_ready (full.pc j) ≡ true)
unfolding worker_turn master_turn master_enqueue
no_stranded_job_example = no_stranded_job full-Reach 0 (omega arith) refl (omega arith)

no_deadlock_example : (j : ℕ) × (j < 2) × ((is_ready (full.pc j) || is_handling (full.pc j)) ≡ true)
unfolding worker_turn master_turn master_enqueue
no_deadlock_example = no_deadlock full-Reach (omega arith) (omega arith) refl

-- `atoi` on a text that is one number, for the test
abbrev number : List ℕ → ℤ
number [] = pos 0
number (n ∷ rest) = pos n

abbrev command : List (List ℕ)
command = [] ∷ ((8080 ∷ []) ∷ ((4 ∷ []) ∷ ((16 ∷ []) ∷ ([] ∷ []))))

four_arguments :
    (length command ≡ 5)
    × ((port : ℕ) × (pos 8080 ≡ pos port) × (1024 ≤ port) × (port ≤ 65534))
    × ((workers : ℕ) × (pos 4 ≡ pos workers) × (0 < workers))
    × ((places : ℕ) × (pos 16 ≡ pos places) × (0 < places))
unfolding getargs
four_arguments =
    getargs_range number (λ text. length text) command
      (record { port = pos 8080; num_threads = pos 4; queue_size = pos 16; debug_sleep = 0 }) refl
