-- ===== src/Server/Queue/Drain.antt =====
-- The end of `main` in server.c, which empties the queue: every job left is closed and freed.
use operating_systems_course.Prelude.{
  ℕ, zero, suc, ◌<◌, ◌≡◌, refl, true, false, Option, none, some, List, [], ◌∷◌, ◌++◌, arith, ◌==◌,
  if◌then◌else◌, has, length, ℤ, ne→eqb, sym, ap, ◌∙◌, ◌≢◌,
}
use mathlib.Core.List.{append_assoc, append-nil}
use operating_systems_course.Server.Run.{Run, ok, exit, fault, ◌>>=◌, Returns, returns, bind, mono}
use operating_systems_course.Server.Queue.{
  Ptr, null, Job, Heap, Queue, write, load, dequeue, is_empty,
}
use operating_systems_course.Server.Queue.Chain.{Entry, job, addrs, IsQueue, frame}
use operating_systems_course.Server.Queue.Fifo.{dequeue_lem, is_empty_lem}

-- `free(p)`
abbrev free : Heap → Ptr → Run Heap
free h p = elim (load h p) [ ok j ↦ ok (write h p none) | exit n ↦ exit n | fault ↦ fault ]

-- `while (!isEmpty(waitingQueue))`, with the descriptors closed so far
pub drain : (fuel : ℕ) → Queue → Heap → List ℤ → Run (Heap × Queue × List ℤ)
drain zero q h closed = fault
drain (suc fuel) q h closed = if is_empty q then ok (h, q, closed) else (do
  (h', q', p) ← dequeue q h
  if p == null
      then drain fuel q' h' closed
      else (do j ← load h' p; h'' ← free h' p; drain fuel q' h'' (closed ++ (j.job_fd ∷ []))))

abbrev pub fds : List Entry → List ℤ
fds [] = []
fds (e ∷ es) = e.fd ∷ fds es

-- What the loop leaves: an empty queue, every descriptor closed in order, and exactly the jobs of
-- the queue freed.
pub record Drained (h : Heap) (es : List Entry) (closed : List ℤ) (out : Heap × Queue × List ℤ)
    : Type 0 where
  pub empty : is_empty out.1 ≡ true
  pub in_order : out.2 ≡ closed ++ fds es
  pub freed : (a : Ptr) → out.0 a ≡ (if has a (addrs es) then none else h a)

free_ok : (h : Heap) (p : Ptr) (j : Job) → p ≢ null → h p ≡ some j → free h p ≡ ok (write h p none)
free_ok h p j ne held = rw (free, ne→eqb _ _ ne, held)

write_self : (h : Heap) (p : Ptr) (c : Option Job) → write h p c p ≡ c
write_self h p c = ground arith

-- Emptying a queue of `n` jobs takes `n + 1` tests of the loop: with fuel for them it ends without a
-- fault, with every job closed once, in order, and freed, and nothing else freed.
pub drain_lem :
    (fuel : ℕ) (h : Heap) (q : Queue) (es : List Entry) (closed : List ℤ)
    → IsQueue h q es
    → length es < fuel
    → Returns (Drained h es closed) (drain fuel q h closed)
unfolding drain
drain_lem zero h q es closed is lt = absurd (omega arith)
drain_lem (suc fuel) h q [] closed is lt =
    let none_left : is_empty q ≡ true = ground (arith, is_empty_lem h q [] is) in
    rw none_left (
      returns (record { empty = none_left; in_order = sym (append-nil closed); freed = λ a. refl }))
drain_lem (suc fuel) h q (e ∷ es) closed is lt =
    let some_left : is_empty q ≡ false = ground (arith, is_empty_lem h q (e ∷ es) is) in
    rw some_left (
      bind (dequeue_lem h q e es is) λ (h', q', p) (at_p, same, is', fresh, max).
        let ne : e.addr ≢ null = is.chain.1 in
        let held : h' e.addr ≡ some (job e null) =
          ap (λ (g : Heap). g e.addr) same ∙ write_self h e.addr _ in
        let left : IsQueue (write h' e.addr none) q' es = record {
          chain = frame h' q'.head e.addr none es is.chain.2 is'.chain;
          tail = is'.tail;
          size = is'.size;
        } in
        rw (at_p, ne→eqb _ _ ne, held, free_ok h' e.addr (job e null) ne held)
          (mono
            (drain_lem fuel (write h' e.addr none) q' es (closed ++ (e.fd ∷ [])) left (omega arith))
            λ out d. record {
              empty = d.empty;
              in_order = d.in_order ∙ append_assoc closed (e.fd ∷ []) (fds es);
              freed = λ a. ground (arith, d.freed a, ap (λ (g : Heap). g a) same);
            }))
