-- ===== src/Server/Queue/Tests.antt =====
-- A queue with one job at address 5, and a second job at address 7.
use operating_systems_course.Prelude.{◌≡◌, refl, false, none, some, [], ◌∷◌, arith, ◌==◌, has, pos}
use operating_systems_course.Server.Run.{Returns, Timeval, Run, ◌>>=◌}
use operating_systems_course.Server.Queue.{
  Ptr, null, Heap, Queue, write, create_job, create_queue, enqueue, dequeue, is_empty,
}
use operating_systems_course.Server.Queue.Chain.{Entry, job, IsQueue}
use operating_systems_course.Server.Queue.Fifo.{
  IsFresh, enqueue_lem, submit_lem, dequeue_lem, is_empty_lem,
}
use operating_systems_course.Server.Queue.Drain.{Drained, drain, drain_lem}

abbrev noon : Timeval
noon = record { tv_sec = 43200; tv_usec = 0 }

abbrev first : Entry
first = record { addr = 5; fd = pos 11; arrival = noon }

abbrev second : Entry
second = record { addr = 7; fd = pos 12; arrival = noon }

abbrev heap : Heap
heap = write (write (λ a. none) 5 (some (job first 0))) 7 (some (job second 0))

abbrev queue : Queue
queue = record { curr_size = 1; max_size = 4; head = 5; tail = 5 }

abbrev no_jobs : Queue
no_jobs = record { curr_size = 0; max_size = 4; head = 0; tail = 0 }

queue-IsQueue : IsQueue heap queue (first ∷ [])
queue-IsQueue = record {
  chain = (refl, omega arith, refl, (0, refl, refl));
  tail = refl;
  size = refl;
}

no_jobs-IsQueue : IsQueue heap no_jobs []
no_jobs-IsQueue = record { chain = refl; tail = refl; size = refl }

second-IsFresh : IsFresh heap (first ∷ []) second
second-IsFresh = record { holds = refl; ne_null = omega arith; unqueued = refl }

-- Two jobs in, the first out.
round : Run (Heap × Queue × Ptr)
unfolding create_queue create_job enqueue dequeue
round = do
  q ← create_queue 1 4
  (h, a) ← create_job 5 (pos 11) noon (λ p. none)
  (h, q) ← enqueue q a h
  (h, b) ← create_job 7 (pos 12) noon h
  (h, q) ← enqueue q b h
  dequeue q h

enqueue_lem_example :
    Returns
      (λ (h', q'). IsQueue h' q' (first ∷ (second ∷ [])) × (q'.max_size ≡ 4))
      (enqueue queue 7 heap)
enqueue_lem_example = enqueue_lem heap queue (first ∷ []) second queue-IsQueue second-IsFresh

submit_lem_example :
    Returns
      (λ (h', q'). IsQueue h' q' (second ∷ []) × (q'.max_size ≡ 4))
      (create_job 7 (pos 12) noon (λ a. none) >>= (λ (h', p). enqueue no_jobs p h'))
submit_lem_example =
    submit_lem (λ a. none) no_jobs [] second (record { chain = refl; tail = refl; size = refl })
      (omega arith) refl

dequeue_lem_example :
    Returns
      (λ (h', q', p).
        (p ≡ 5)
        × (h' ≡ write heap 5 (some (job first null)))
        × IsQueue h' q' []
        × (has p [] ≡ false)
        × (q'.max_size ≡ 4))
      (dequeue queue heap)
dequeue_lem_example = dequeue_lem heap queue first [] queue-IsQueue

is_empty_lem_example : (is_empty queue ≡ (queue.curr_size == 0)) × (queue.curr_size ≡ 1)
is_empty_lem_example = is_empty_lem heap queue (first ∷ []) queue-IsQueue

drain_lem_example : Returns (Drained heap (first ∷ []) []) (drain 2 queue heap [])
drain_lem_example = drain_lem 2 heap queue (first ∷ []) [] queue-IsQueue (omega arith)
