-- ===== src/Server/Queue.antt =====
-- The job queue of hw03-multithreaded-web-server: queue.h and queue.c, over an explicit heap of jobs.
mod Chain
mod Fifo
mod Drain
mod Tests
use operating_systems_course.Prelude.{ℕ, ◌+◌, ◌-◌, Bool, Option, none, some, ◌==◌, if◌then◌else◌, ℤ}
use operating_systems_course.Server.Run.{Run, ok, exit, fault, ◌>>=◌, Timeval}

abbrev pub Ptr : Type 0
Ptr = ℕ

abbrev pub null : Ptr
null = 0

pub record Job : Type 0 where
  pub job_fd : ℤ
  pub arrival_time : Timeval
  pub next : Ptr

-- `none` at an address that holds no job
abbrev pub Heap : Type 0
Heap = Ptr → Option Job

-- The one `Queue` object lies outside the heap; a function that changes it returns the new one.
pub record Queue : Type 0 where
  pub curr_size : ℕ
  pub max_size : ℕ
  pub head : Ptr
  pub tail : Ptr

abbrev pub write : Heap → Ptr → Option Job → Heap
write h p c a = if a == p then c else h a

-- `*p`
abbrev pub load : Heap → Ptr → Run Job
load h p = if p == null then fault else elim (h p) [ none ↦ fault | some j ↦ ok j ]

-- `fresh` is what `malloc` returns.
pub create_job : (fresh : Ptr) → ℤ → Timeval → Heap → Run (Heap × Ptr)
create_job fresh fd time h =
    if fresh == null
    then exit 1
    else ok (write h fresh (some (record { job_fd = fd; arrival_time = time; next = null })), fresh)

pub create_queue : (fresh : Ptr) → (size : ℕ) → Run Queue
create_queue fresh size =
    if fresh == null
    then exit 1
    else ok (record { curr_size = 0; max_size = size; head = null; tail = null })

pub enqueue : Queue → Ptr → Heap → Run (Heap × Queue)
enqueue q job h =
    if q.tail == null
    then ok (h, record q { head = job; tail = job; curr_size = q.curr_size + 1 })
    else (do
      last ← load h q.tail
      ok (
        write h q.tail (some (record last { next = job })),
        record q { tail = job; curr_size = q.curr_size + 1 },
      ))

-- `null` for an empty queue
pub dequeue : Queue → Heap → Run (Heap × Queue × Ptr)
dequeue q h =
    if q.curr_size == 0 then ok (h, q, null) else if q.head == null then ok (h, q, null) else (do
      temp ← load h q.head
      ok (
        write h q.head (some (record temp { next = null })),
        record q {
          head = temp.next;
          tail = if temp.next == null then null else q.tail;
          curr_size = q.curr_size - 1;
        },
        q.head,
      ))

pub is_empty : Queue → Bool
is_empty q = q.head == null
