-- ===== src/Server/Queue/Fifo.antt =====
-- The queue is first in, first out, and its pointers stay sound: queue.c.
use operating_systems_course.Prelude.{
  ◌≡◌, refl, ◌≢◌, false, none, some, List, [], ◌∷◌, ◌++◌, arith, ◌==◌, if◌then◌else◌, has, length,
  length-append, eq→eqb, ne→eqb, sym,
}
use operating_systems_course.Server.Run.{ok, ◌>>=◌, Returns, returns}
use operating_systems_course.Server.Queue.{
  Ptr, null, Job, Heap, Queue, write, create_job, enqueue, dequeue, is_empty,
}
use operating_systems_course.Server.Queue.Chain.{
  Entry, job, addrs, Chain, last_addr, IsQueue, frame, link, last_addr_snoc,
}

-- A job that `create_job` made and nobody queued yet.
pub record IsFresh (h : Heap) (es : List Entry) (x : Entry) : Type 0 where
  pub holds : h x.addr ≡ some (job x null)
  pub ne_null : x.addr ≢ null
  pub unqueued : has x.addr (addrs es) ≡ false

last_holds :
    (h : Heap) (p : Ptr) (e : Entry) (es : List Entry)
    → Chain h p (e ∷ es)
    → (n : Job) × (h (last_addr (e ∷ es)) ≡ some n) × (last_addr (e ∷ es) ≢ null)
last_holds h p e [] (at_p, ne, fresh, (q, holds, rest)) = (job e q, holds, ne)
last_holds h p e (f ∷ es) (at_p, ne, fresh, (q, holds, rest)) = last_holds h q f es rest

-- `enqueue` puts a new job behind the others: no fault, and the queue then stands for one entry more
-- at the end.
pub enqueue_lem :
    (h : Heap) (q : Queue) (es : List Entry) (x : Entry)
    → IsQueue h q es
    → IsFresh h es x
    → Returns
        (λ (h', q'). IsQueue h' q' (es ++ (x ∷ [])) × (q'.max_size ≡ q.max_size))
        (enqueue q x.addr h)
unfolding enqueue
enqueue_lem h q [] x is f = rw (eq→eqb _ _ is.tail) (
    returns (
      record {
        chain = (refl, f.ne_null, refl, (null, f.holds, refl));
        tail = refl;
        size = omega (arith, is.size);
      },
      refl,
    ))
enqueue_lem h q (e ∷ es) x is f =
    let (n, holds, ne) = last_holds h q.head e es is.chain in
    rw (is.tail, ne→eqb _ _ ne, holds)
      (returns (
        record {
          chain = link h q.head e es x n is.chain f.holds f.ne_null f.unqueued holds;
          tail = sym (last_addr_snoc (e ∷ es) x);
          size = omega (arith, is.size, length-append (e ∷ es) (x ∷ []));
        },
        refl,
      ))

-- An address that holds no job is not in the queue.
unqueued_of_none :
    (h : Heap) (p a : Ptr) (es : List Entry) → Chain h p es → h a ≡ none → has a (addrs es) ≡ false
unqueued_of_none h p a [] ch unused = refl
unqueued_of_none h p a (e ∷ es) (at_p, ne, fresh, (q, holds, rest)) unused =
    ground (arith, unqueued_of_none h q a es rest unused)

-- What `main` does with a connection: make a job and queue it. If `malloc` returns an address that is
-- not null and not in use, there is no fault and the queue stands for one entry more, at the end.
pub submit_lem :
    (h : Heap) (q : Queue) (es : List Entry) (x : Entry)
    → IsQueue h q es
    → x.addr ≢ null
    → h x.addr ≡ none
    → Returns
        (λ (h', q'). IsQueue h' q' (es ++ (x ∷ [])) × (q'.max_size ≡ q.max_size))
        (create_job x.addr x.fd x.arrival h >>= (λ (h', p). enqueue q p h'))
unfolding create_job
submit_lem h q es x is ne unused =
    let out = unqueued_of_none h q.head x.addr es is.chain unused in
    rw (ne→eqb _ _ ne) (
      enqueue_lem (write h x.addr (some (job x null))) q es x
        (record { chain = frame h q.head x.addr _ es out is.chain; tail = is.tail; size = is.size })
        (record { holds = rw (eq→eqb x.addr x.addr refl); ne_null = ne; unqueued = out }))

tail-of_rest :
    (h : Heap) (n t : Ptr) (e : Entry) (es : List Entry)
    → Chain h n es
    → t ≡ last_addr (e ∷ es)
    → (if n == null then null else t) ≡ last_addr es
tail-of_rest h n t e [] rest at = ground arith
tail-of_rest h n t e (f ∷ es) (at_n, ne, fresh, more) at = ground arith

-- `dequeue` of a queue with entries takes the first one out and clears its `next`, writing nowhere
-- else; the others stay in order.
pub dequeue_lem :
    (h : Heap) (q : Queue) (e : Entry) (es : List Entry)
    → IsQueue h q (e ∷ es)
    → Returns
        (λ (h', q', p).
          (p ≡ e.addr)
          × (h' ≡ write h e.addr (some (job e null)))
          × IsQueue h' q' es
          × (has p (addrs es) ≡ false)
          × (q'.max_size ≡ q.max_size))
        (dequeue q h)
unfolding dequeue
dequeue_lem h q e es is =
    let (at_head, ne, fresh, (n, holds, rest)) = is.chain in
    rw (ne→eqb q.curr_size 0 (omega (arith, is.size)), at_head, ne→eqb _ _ ne, holds)
      (returns (
        refl,
        refl,
        record {
          chain = frame h n e.addr _ es fresh rest;
          tail = tail-of_rest h n q.tail e es rest is.tail;
          size = omega (arith, is.size);
        },
        fresh,
        refl,
      ))

-- An empty queue answers `NULL` and stays as it is.
pub dequeue_empty : (h : Heap) (q : Queue) → IsQueue h q [] → dequeue q h ≡ ok (h, q, null)
unfolding dequeue
dequeue_empty h q is = ground (arith, is.size)

-- The test on the head pointer, the count and the entries agree.
pub is_empty_lem :
    (h : Heap) (q : Queue) (es : List Entry)
    → IsQueue h q es
    → (is_empty q ≡ (q.curr_size == 0)) × (q.curr_size ≡ length es)
unfolding is_empty
is_empty_lem h q [] is = ground (arith, is.size, is.chain)
is_empty_lem h q (e ∷ es) is = ground (arith, is.size, is.chain)
