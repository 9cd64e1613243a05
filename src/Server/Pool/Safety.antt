-- ===== src/Server/Pool/Safety.antt =====
-- What the pool promises: bounded load, arrival order, progress.
use native.Mathlib.Decide.{dec_lt}
use operating_systems_course.Prelude.{
  ℕ, ◌+◌, ◌≤◌, ◌<◌, ◌≡◌, refl, ◌≢◌, ◌⊎◌, inl, inr, Bool, true, false, ◌||◌, List, [], ◌∷◌, ◌++◌,
  arith, length, ℤ, pos, negsuc, ◌∙◌, ltb→le,
}
use operating_systems_course.Server.Run.{ok}
use operating_systems_course.Server.Threads.{count, count-pos, count-witness, count-three, bit}
use operating_systems_course.Server.Pool.{
  Args, getargs, below, Pool, Master, waiting, Worker, ready, master_turn, worker_turn, worker_done,
  master_enqueue, Step, master_tests, master_wakes, master_accepts, worker_tests, worker_wakes,
  worker_finishes, Reach, here, next,
}
use operating_systems_course.Server.Pool.Invariant.{is_ready, is_asleep, is_handling, Reach-Inv}

Step-max_size : {n : ℕ} {s t : Pool} → Step n s t → t.max_size ≡ s.max_size
unfolding master_turn worker_turn worker_done master_enqueue
Step-max_size (master_tests e) = ground arith
Step-max_size (master_wakes e) = refl
Step-max_size (master_accepts c e w) = refl
Step-max_size (worker_tests i lt e) = ground arith
Step-max_size (worker_wakes i lt e) = refl
Step-max_size (worker_finishes i lt e) = refl

Reach-max_size : {n max : ℕ} {s : Pool} → Reach n max s → s.max_size ≡ max
Reach-max_size here = refl
Reach-max_size (next r st) = Step-max_size st ∙ Reach-max_size r

-- The server never holds more than `queue_size` connections, queued or being handled; and the
-- workers that handle one are as many as `active_jobs` says.
pub load_bound :
    {n max : ℕ} {s : Pool}
    → Reach n max s
    → (length s.queue + count is_handling n s.pc ≤ max) × (s.active_jobs ≡ count is_handling n s.pc)
load_bound {n} {s} r =
    let inv = Reach-Inv r in (omega (arith, inv.active, inv.within, Reach-max_size r), inv.active)

-- Connections are started in the order in which they were accepted, each once: those started, then
-- those in the queue, are those accepted.
pub arrival_order : {n max : ℕ} {s : Pool} → Reach n max s → s.accepted ≡ s.started ++ s.queue
arrival_order r = (Reach-Inv r).order

-- No connection is left lying: while a worker sleeps and the queue is not empty, another worker is
-- about to test the queue.
pub no_stranded_job :
    {n max : ℕ} {s : Pool}
    → Reach n max s
    → (i : ℕ) → i < n
    → is_asleep (s.pc i) ≡ true
    → 0 < length s.queue
    → (j : ℕ) × (j < n) × (is_ready (s.pc j) ≡ true)
no_stranded_job {n} {s} r i lt sleeps some_job =
    count-witness is_ready n s.pc
      (omega (arith, (Reach-Inv r).sleeping, count-pos is_asleep n s.pc i lt sleeps))

-- `main` never waits in vain: with at least one worker and one place, while it waits some worker
-- handles a request or is about to test the queue.
pub no_deadlock :
    {n max : ℕ} {s : Pool}
    → Reach n max s
    → 0 < n
    → 0 < max
    → s.master ≡ waiting
    → (j : ℕ) × (j < n) × ((is_ready (s.pc j) || is_handling (s.pc j)) ≡ true)
no_deadlock {n} {max} {s} r some_worker some_place waits =
    let inv = Reach-Inv r in
    let busy : 0 < count is_ready n s.pc + count is_handling n s.pc = omega (
      arith,
      inv.active,
      inv.sleeping,
      full_when_waiting s.master inv.full waits,
      Reach-max_size r,
      count-three is_ready is_asleep is_handling n s.pc (λ i. one_of (s.pc i)),
    ) in
    elim (dec_lt 0 (count is_ready n s.pc)) [
      | yes some_ready ↦
          let (j, lt, hit) = count-witness is_ready n s.pc some_ready in (j, lt, rw hit)
      | no none_ready ↦
          let (j, lt, hit) = count-witness is_handling n s.pc (omega arith) in
          (j, lt, rw hit (or_true (is_ready (s.pc j))))
    ]
  where
    one_of : (w : Worker) → bit (is_ready w) + bit (is_asleep w) + bit (is_handling w) ≡ 1
    one_of ready = refl
    one_of _ = refl

    or_true : (b : Bool) → (b || true) ≡ true
    or_true true = refl
    or_true false = refl

    full_when_waiting : (m : Master) → {X : Type 0} → (m ≢ waiting) ⊎ X → m ≡ waiting → X
    full_when_waiting m (inl not_waiting) e = absurd (not_waiting e)
    full_when_waiting m (inr x) e = x

-- An integer that is not below a bound is a number from the bound on.
at_least : (z : ℤ) (m : ℕ) → below z m ≡ false → (n : ℕ) × (z ≡ pos n) × (m ≤ n)
at_least (pos n) m h = (n, refl, ground arith)
at_least (negsuc n) m h = absurd (omega (arith, ltb→le 0 1 h))

-- `getargs` lets `main` go on only with four arguments that read as a port in 1024..65534, and at
-- least one worker and one place.
pub getargs_range :
    {D : Type 0} (atoi : List ℕ → ℤ) (atof : List ℕ → D) (argv : List (List ℕ)) (a : Args D)
    → getargs atoi atof argv ≡ ok a
    → (length argv ≡ 5)
      × ((port : ℕ) × (a.port ≡ pos port) × (1024 ≤ port) × (port ≤ 65534))
      × ((workers : ℕ) × (a.num_threads ≡ pos workers) × (0 < workers))
      × ((places : ℕ) × (a.queue_size ≡ pos places) × (0 < places))
unfolding getargs
getargs_range atoi atof (name ∷ (p ∷ (t ∷ (q ∷ (d ∷ []))))) a h =
    let (n, e, ge) = at_least (atoi p) 1024 (ground arith) in
    let (w, ew, gw) = at_least (atoi t) 1 (ground arith) in
    let (z, ez, gz) = at_least (atoi q) 1 (ground arith) in
    (refl, (n, ground arith, ge, ground arith), (w, ground arith, gw), (z, ground arith, gz))
getargs_range atoi atof argv a h = absurd (ground arith)
