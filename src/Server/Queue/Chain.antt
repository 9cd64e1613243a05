-- ===== src/Server/Queue/Chain.antt =====
-- What a queue stands for: the jobs that its pointers lead through.
use operating_systems_course.Prelude.{
  ◌≡◌, refl, ◌≢◌, true, false, ◌||◌, Option, some, List, [], ◌∷◌, ◌++◌, arith, ◌==◌, has, length, ℤ,
}
use operating_systems_course.Server.Run.{Timeval}
use operating_systems_course.Server.Queue.{Ptr, null, Job, Heap, Queue, write}

-- A job in the queue: where it lies and what it carries.
pub record Entry : Type 0 where
  pub addr : Ptr
  pub fd : ℤ
  pub arrival : Timeval

abbrev pub job : Entry → Ptr → Job
job e q = record { job_fd = e.fd; arrival_time = e.arrival; next = q }

abbrev pub addrs : List Entry → List Ptr
addrs [] = []
addrs (e ∷ es) = e.addr ∷ addrs es

-- The `next` pointers lead from `p` through the entries to `NULL`, visiting no address twice.
abbrev pub Chain : Heap → Ptr → List Entry → Type 0
Chain h p [] = p ≡ null
Chain h p (e ∷ es) =
    (p ≡ e.addr)
    × (e.addr ≢ null)
    × (has e.addr (addrs es) ≡ false)
    × ((q : Ptr) × (h e.addr ≡ some (job e q)) × Chain h q es)

abbrev pub last_addr : List Entry → Ptr
last_addr [] = null
last_addr (e ∷ []) = e.addr
last_addr (e ∷ (f ∷ es)) = last_addr (f ∷ es)

pub record IsQueue (h : Heap) (q : Queue) (es : List Entry) : Type 0 where
  pub chain : Chain h q.head es
  pub tail : q.tail ≡ last_addr es
  pub size : q.curr_size ≡ length es

-- A chain is not disturbed by a write elsewhere.
pub frame :
    (h : Heap) (p a : Ptr) (c : Option Job) (es : List Entry)
    → has a (addrs es) ≡ false
    → Chain h p es
    → Chain (write h a c) p es
frame h p a c [] out ch = ch
frame h p a c (e ∷ es) out (at_p, ne, fresh, (q, holds, rest)) =
    (at_p, ne, fresh, (q, ground arith, frame h q a c es (ground arith) rest))

has-last_addr : (e : Entry) (es : List Entry) → has (last_addr (e ∷ es)) (addrs (e ∷ es)) ≡ true
has-last_addr e [] = ground arith
has-last_addr e (f ∷ es) = ground (arith, has-last_addr f es)

has-addrs_snoc :
    (a : Ptr) (es : List Entry) (x : Entry)
    → has a (addrs (es ++ (x ∷ []))) ≡ (has a (addrs es) || a == x.addr)
has-addrs_snoc a [] x = ground arith
has-addrs_snoc a (e ∷ es) x = ground (arith, has-addrs_snoc a es x)

pub last_addr_snoc : (es : List Entry) (x : Entry) → last_addr (es ++ (x ∷ [])) ≡ x.addr
last_addr_snoc [] x = refl
last_addr_snoc (e ∷ []) x = refl
last_addr_snoc (e ∷ (f ∷ es)) x = last_addr_snoc (f ∷ es) x

-- Linking a job behind the last one.
pub link :
    (h : Heap) (p : Ptr) (e : Entry) (es : List Entry) (x : Entry) (n : Job)
    → Chain h p (e ∷ es)
    → h x.addr ≡ some (job x null)
    → x.addr ≢ null
    → has x.addr (addrs (e ∷ es)) ≡ false
    → h (last_addr (e ∷ es)) ≡ some n
    → Chain
        (write h (last_addr (e ∷ es)) (some (record n { next = x.addr })))
        p
        ((e ∷ es) ++ (x ∷ []))
link h p e [] x n (at_p, ne, fresh, (q, holds, rest)) new x_ne out last =
    (at_p, ne, ground arith, (x.addr, ground arith, (refl, x_ne, refl, (null, ground arith, refl))))
link h p e (f ∷ es) x n (at_p, ne, fresh, (q, holds, rest)) new x_ne out last = (
  at_p,
  ne,
  ground (arith, has-addrs_snoc e.addr (f ∷ es) x),
  (q, ground (arith, has-last_addr f es), link h q f es x n rest new x_ne (ground arith) last),
)
