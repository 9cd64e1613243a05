-- ===== src/Server/RwLock.antt =====
-- The reader-writer lock with writer priority of hw03-multithreaded-web-server/log.c: `reader_lock`,
-- `reader_unlock`, `writer_lock`, `writer_unlock`, and any number of threads that call them.
--
-- Each part of these functions between taking the mutex and releasing it, or waiting on a condition,
-- is one step: the mutex lets no other thread touch the three counters meanwhile. A wait releases
-- the mutex, and a thread may wake from it for no reason.
mod Counts
mod Invariant
mod Safety
mod Tests
use operating_systems_course.Prelude.{
  ℕ, ◌+◌, ◌-◌, ◌<◌, ◌≡◌, ◌≢◌, Bool, true, false, ◌||◌, Option, none, some, ◌==◌, ltb, if◌then◌else◌,
}
use operating_systems_course.Server.Threads.{assign}

-- The counters of `struct Server_Log`.
pub record Lock : Type 0 where
  pub readers : ℕ
  pub waiting_writers : ℕ
  pub writers : ℕ

-- `create_log` on the counters
abbrev pub unlocked : Lock
unlocked = record { readers = 0; waiting_writers = 0; writers = 0 }

-- What a function does to the sleepers before it releases the mutex.
pub data Wake : Type 0 where
  nobody one_writer all_readers : Wake

-- One turn of the loop in `reader_lock`: `none` is a wait on `readers_allowed`.
pub reader_try : Lock → Option Lock
reader_try l =
    if ltb 0 l.writers || ltb 0 l.waiting_writers
    then none
    else some (record l { readers = l.readers + 1 })

pub reader_unlock : Lock → Lock × Wake
reader_unlock l =
    let left = l.readers - 1 in
    (record l { readers = left }, if left == 0 then one_writer else nobody)

-- `writer_lock` before its loop
abbrev pub writer_arrive : Lock → Lock
writer_arrive l = record l { waiting_writers = l.waiting_writers + 1 }

-- One turn of the loop in `writer_lock`: `none` is a wait on `writers_allowed`.
pub writer_try : Lock → Option Lock
writer_try l =
    if ltb 0 l.readers || ltb 0 l.writers
    then none
    else some (record l { waiting_writers = l.waiting_writers - 1; writers = 1 })

pub writer_unlock : Lock → Lock × Wake
writer_unlock l =
    (record l { writers = 0 }, if ltb 0 l.waiting_writers then one_writer else all_readers)

-- Where a thread stands.
pub data Pc : Type 0 where
  idle : Pc  -- in none of the four functions, and holding nothing
  reader_asleep : Pc  -- in the wait of `reader_lock`
  reader_woken : Pc  -- woken there, and about to test again
  reading : Pc  -- between `reader_lock` and `reader_unlock`
  writer_asleep : Pc  -- in the wait of `writer_lock`
  writer_woken : Pc  -- woken there, and about to test again
  writing : Pc  -- between `writer_lock` and `writer_unlock`

pub record System : Type 0 where
  pub lock : Lock
  pub pc : ℕ → Pc

-- The loop of `reader_lock` from a test on, for thread `i`.
pub reader_turn : Lock → (ℕ → Pc) → ℕ → System
reader_turn l pc i = elim (reader_try l) [
  | none ↦ record { lock = l; pc = assign pc i reader_asleep }
  | some l' ↦ record { lock = l'; pc = assign pc i reading }
]

-- The loop of `writer_lock` from a test on.
pub writer_turn : Lock → (ℕ → Pc) → ℕ → System
writer_turn l pc i = elim (writer_try l) [
  | none ↦ record { lock = l; pc = assign pc i writer_asleep }
  | some l' ↦ record { lock = l'; pc = assign pc i writing }
]

-- `pthread_cond_broadcast(&readers_allowed)` for one thread
abbrev pub rouse : Pc → Pc
rouse reader_asleep = reader_woken
rouse p = p

-- What the conditions may do with `n` threads: a signal wakes one sleeping writer, any one, or
-- nobody if none sleeps; a broadcast wakes all sleeping readers.
pub data Woken (n : ℕ) (w : Wake) (pc : ℕ → Pc) : (ℕ → Pc) → Type 0 where
  quiet : w ≡ nobody → Woken n w pc pc
  signal :
      (j : ℕ)
      → w ≡ one_writer
      → j < n
      → pc j ≡ writer_asleep
      → Woken n w pc (assign pc j writer_woken)
  lost : w ≡ one_writer → ((j : ℕ) → j < n → pc j ≢ writer_asleep) → Woken n w pc pc
  broadcast : w ≡ all_readers → Woken n w pc (λ j. rouse (pc j))

pub data Step (n : ℕ) (s : System) : System → Type 0 where
  reader_enters : (i : ℕ) → i < n → s.pc i ≡ idle → Step n s (reader_turn s.lock s.pc i)
  reader_retries : (i : ℕ) → i < n → s.pc i ≡ reader_woken → Step n s (reader_turn s.lock s.pc i)
  reader_leaves :
      (i : ℕ) {pc : ℕ → Pc}
      → i < n
      → s.pc i ≡ reading
      → Woken n (reader_unlock s.lock).1 (assign s.pc i idle) pc
      → Step n s (record { lock = (reader_unlock s.lock).0; pc = pc })
  writer_enters :
      (i : ℕ) → i < n → s.pc i ≡ idle → Step n s (writer_turn (writer_arrive s.lock) s.pc i)
  writer_retries : (i : ℕ) → i < n → s.pc i ≡ writer_woken → Step n s (writer_turn s.lock s.pc i)
  writer_leaves :
      (i : ℕ) {pc : ℕ → Pc}
      → i < n
      → s.pc i ≡ writing
      → Woken n (writer_unlock s.lock).1 (assign s.pc i idle) pc
      → Step n s (record { lock = (writer_unlock s.lock).0; pc = pc })
  reader_wakes :
      (i : ℕ)
      → i < n
      → s.pc i ≡ reader_asleep
      → Step n s (record s { pc = assign s.pc i reader_woken })
  writer_wakes :
      (i : ℕ)
      → i < n
      → s.pc i ≡ writer_asleep
      → Step n s (record s { pc = assign s.pc i writer_woken })

abbrev pub start : System
start = record { lock = unlocked; pc = λ i. idle }

pub data Reach (n : ℕ) : System → Type 0 where
  here : Reach n start
  next : {s t : System} → Reach n s → Step n s t → Reach n t
