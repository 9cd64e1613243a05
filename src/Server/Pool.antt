-- ===== src/Server/Pool.antt =====
-- The thread pool of hw03-multithreaded-web-server/server.c: `main`, which accepts connections, and
-- the workers, which run `thread_function`.
--
-- As in RwLock, what a thread does between taking `queue_lock` and releasing it or waiting is one
-- step. The queue stands here for the descriptors of its jobs, in order; that queue.c keeps such a
-- queue is proved in Queue. `requestHandle` runs outside the lock, between two steps of its worker.
mod Invariant
mod Safety
mod Tests
use operating_systems_course.Prelude.{
  ℕ, ◌+◌, ◌-◌, ◌<◌, ◌≡◌, ◌≢◌, Bool, List, [], ◌∷◌, ◌++◌, leb, if◌then◌else◌, length, ℤ, pos, negsuc,
  ltb, ◌||◌, ◌==◌, not,
}
use operating_systems_course.Server.Run.{Run, ok, exit}
use operating_systems_course.Server.Threads.{assign}

-- The numbers that `getargs` reads; `D` stands for `double`.
pub record Args (D : Type 0) : Type 0 where
  pub port : ℤ
  pub num_threads : ℤ
  pub queue_size : ℤ
  pub debug_sleep : D

abbrev below : ℤ → ℕ → Bool
below (pos n) m = ltb n m
below (negsuc n) m = ltb 0 1

-- `getargs` on `argv`, with `atoi` and `atof` of the C library
pub getargs :
    {D : Type 0} (atoi : List ℕ → ℤ) (atof : List ℕ → D) → (argv : List (List ℕ)) → Run (Args D)
getargs atoi atof (name ∷ (p ∷ (t ∷ (q ∷ (d ∷ []))))) =
    if below (atoi p) 1024 || (not (below (atoi p) 65535) || (below (atoi t) 1 || below (atoi q) 1))
    then exit 1
    else ok
        (record { port = atoi p; num_threads = atoi t; queue_size = atoi q; debug_sleep = atof d })
getargs atoi atof argv = exit 1

-- Where `main` stands in its loop.
pub data Master : Type 0 where
  testing : Master  -- before a test of the loop that waits for room
  waiting : Master  -- in the wait on `queue_not_full`
  accepting : Master  -- past the loop and outside the lock, in `Accept`

-- Where a worker stands in its loop.
pub data Worker : Type 0 where
  ready : Worker  -- before a test of the loop that waits for a job
  asleep : Worker  -- in the wait on `queue_not_empty`
  handling : ℤ → Worker  -- with a job, outside the lock

-- `accepted` and `started` are histories: the descriptors that `main` queued and that workers took.
pub record Pool : Type 0 where
  pub max_size : ℕ
  pub queue : List ℤ
  pub active_jobs : ℕ
  pub master : Master
  pub pc : ℕ → Worker
  pub accepted : List ℤ
  pub started : List ℤ

-- `pthread_cond_signal(&queue_not_full)`, for which only `main` waits
pub signal_master : Master → Master
signal_master waiting = testing
signal_master m = m

-- `main` tests for room.
pub master_turn : Pool → Pool
master_turn s =
    if leb s.max_size (length s.queue + s.active_jobs)
    then record s { master = waiting }
    else record s { master = accepting }

-- Worker `i` tests for a job, and takes the first one.
pub worker_turn : Pool → ℕ → Pool
unfolding signal_master
worker_turn s i = elim s.queue [
  | [] ↦ record s { pc = assign s.pc i asleep }
  | c ∷ rest ↦ record s {
    queue = rest;
    active_jobs = s.active_jobs + 1;
    master = signal_master s.master;
    pc = assign s.pc i (handling c);
    started = s.started ++ (c ∷ []);
  }
]

-- Worker `i` has handled its request.
pub worker_done : Pool → ℕ → Pool
unfolding signal_master
worker_done s i = record s {
  active_jobs = s.active_jobs - 1;
  master = signal_master s.master;
  pc = assign s.pc i ready;
}

-- `main` queues a connection; `pc` is what `pthread_cond_signal(&queue_not_empty)` makes of the
-- workers.
pub master_enqueue : Pool → ℤ → (ℕ → Worker) → Pool
master_enqueue s c pc = record s {
  queue = s.queue ++ (c ∷ []);
  master = testing;
  pc = pc;
  accepted = s.accepted ++ (c ∷ []);
}

-- A signal wakes one sleeping worker, any one, or nobody if none sleeps.
pub data Woken (n : ℕ) (pc : ℕ → Worker) : (ℕ → Worker) → Type 0 where
  woken : (j : ℕ) → j < n → pc j ≡ asleep → Woken n pc (assign pc j ready)
  lost : ((j : ℕ) → j < n → pc j ≢ asleep) → Woken n pc pc

-- `n` workers and `main`, interleaved in any order, with wake-ups for no reason.
pub data Step (n : ℕ) (s : Pool) : Pool → Type 0 where
  master_tests : s.master ≡ testing → Step n s (master_turn s)
  master_wakes : s.master ≡ waiting → Step n s (record s { master = testing })
  master_accepts :
      (c : ℤ) {pc : ℕ → Worker}
      → s.master ≡ accepting
      → Woken n s.pc pc
      → Step n s (master_enqueue s c pc)
  worker_tests : (i : ℕ) → i < n → s.pc i ≡ ready → Step n s (worker_turn s i)
  worker_wakes :
      (i : ℕ) → i < n → s.pc i ≡ asleep → Step n s (record s { pc = assign s.pc i ready })
  worker_finishes : (i : ℕ) {c : ℤ} → i < n → s.pc i ≡ handling c → Step n s (worker_done s i)

-- `main` at the head of its loop, every worker just created
abbrev pub start : ℕ → Pool
start max = record {
  max_size = max;
  queue = [];
  active_jobs = 0;
  master = testing;
  pc = λ i. ready;
  accepted = [];
  started = [];
}

pub data Reach (n max : ℕ) : Pool → Type 0 where
  here : Reach n max (start max)
  next : {s t : Pool} → Reach n max s → Step n s t → Reach n max t
