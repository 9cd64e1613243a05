-- ===== src/Server/RwLock/Invariant.antt =====
-- What the counters mean, and that every step keeps it.
use operating_systems_course.Prelude.{ℕ, ◌+◌, ◌≤◌, ◌<◌, ◌≡◌, refl, ◌⊎◌, inl, arith, sym}
use operating_systems_course.Server.Threads.{assign, count, count-zero}
use operating_systems_course.Server.RwLock.{
  Lock, reader_try, reader_unlock, writer_arrive, writer_try, writer_unlock, Pc, idle,
  reader_asleep, reader_woken, reading, writer_asleep, writer_woken, writing, System, reader_turn,
  writer_turn, Woken, quiet, signal, lost, broadcast, Step, reader_enters, reader_retries,
  reader_leaves, writer_enters, writer_retries, writer_leaves, reader_wakes, writer_wakes, start,
  Reach, here, next,
}
use operating_systems_course.Server.RwLock.Counts.{
  is_reading, is_writing, is_waiting, is_sleeping_writer, is_sleeping_reader, moved,
  sleeping_writer-le-waiting, sleeping_writer-zero, roused,
}

-- The counters count; at most one writer, and no reader beside one; and nobody sleeps without a
-- reason: a reader only while a writer holds the lock or waits, a writer only while the lock is held
-- or another waiting writer has been woken.
pub record Inv (n : ℕ) (l : Lock) (pc : ℕ → Pc) : Type 0 where
  pub readers : l.readers ≡ count is_reading n pc
  pub writers : l.writers ≡ count is_writing n pc
  pub waiting : l.waiting_writers ≡ count is_waiting n pc
  pub one_writer : l.writers ≤ 1
  pub exclusive : (l.writers ≡ 0) ⊎ (l.readers ≡ 0)
  pub sleeping_readers : (count is_sleeping_reader n pc ≡ 0) ⊎ (0 < l.writers + l.waiting_writers)
  pub sleeping_writers :
      (count is_sleeping_writer n pc ≡ 0)
      ⊎ ((0 < l.readers + l.writers) ⊎ (count is_sleeping_writer n pc < count is_waiting n pc))

abbrev Holds : ℕ → System → Type 0
Holds n s = Inv n s.lock s.pc

module _ {n : ℕ} {l : Lock} {pc : ℕ → Pc} (inv : Inv n l pc) (i : ℕ) (lt : i < n) where
  reader_enters-Inv : pc i ≡ idle → Holds n (reader_turn l pc i)
  unfolding reader_turn reader_try
  reader_enters-Inv e =
      ground (arith, moved n pc i idle reading lt e, moved n pc i idle reader_asleep lt e)

  reader_retries-Inv : pc i ≡ reader_woken → Holds n (reader_turn l pc i)
  unfolding reader_turn reader_try
  reader_retries-Inv e =
      ground (
        arith,
        moved n pc i reader_woken reading lt e,
        moved n pc i reader_woken reader_asleep lt e,
      )

  writer_enters-Inv : pc i ≡ idle → Holds n (writer_turn (writer_arrive l) pc i)
  unfolding writer_turn writer_try
  writer_enters-Inv e =
      ground (arith, moved n pc i idle writing lt e, moved n pc i idle writer_asleep lt e)

  writer_retries-Inv : pc i ≡ writer_woken → Holds n (writer_turn l pc i)
  unfolding writer_turn writer_try
  writer_retries-Inv e =
      ground (
        arith,
        moved n pc i writer_woken writing lt e,
        moved n pc i writer_woken writer_asleep lt e,
      )

  reader_wakes-Inv : pc i ≡ reader_asleep → Inv n l (assign pc i reader_woken)
  reader_wakes-Inv e = ground (arith, moved n pc i reader_asleep reader_woken lt e)

  writer_wakes-Inv : pc i ≡ writer_asleep → Inv n l (assign pc i writer_woken)
  writer_wakes-Inv e =
      ground (arith, moved n pc i writer_asleep writer_woken lt e, sleeping_writer-le-waiting n pc)

  reader_leaves-Inv :
      {pc' : ℕ → Pc}
      → pc i ≡ reading
      → Woken n (reader_unlock l).1 (assign pc i idle) pc'
      → Inv n (reader_unlock l).0 pc'
  unfolding reader_unlock
  reader_leaves-Inv e (quiet w) = ground (arith, moved n pc i reading idle lt e)
  reader_leaves-Inv e (signal j w at sleeps) = ground (
    arith,
    moved n pc i reading idle lt e,
    moved n (assign pc i idle) j writer_asleep writer_woken at sleeps,
    sleeping_writer-le-waiting n (assign pc i idle),
  )
  reader_leaves-Inv e (lost w none_asleep) =
      ground (
        arith,
        moved n pc i reading idle lt e,
        sleeping_writer-zero n (assign pc i idle) none_asleep,
      )
  reader_leaves-Inv e (broadcast w) = ground arith

  writer_leaves-Inv :
      {pc' : ℕ → Pc}
      → pc i ≡ writing
      → Woken n (writer_unlock l).1 (assign pc i idle) pc'
      → Inv n (writer_unlock l).0 pc'
  unfolding writer_unlock
  writer_leaves-Inv e (quiet w) = ground arith
  writer_leaves-Inv e (signal j w at sleeps) = ground (
    arith,
    moved n pc i writing idle lt e,
    moved n (assign pc i idle) j writer_asleep writer_woken at sleeps,
    sleeping_writer-le-waiting n (assign pc i idle),
  )
  writer_leaves-Inv e (lost w none_asleep) =
      ground (
        arith,
        moved n pc i writing idle lt e,
        sleeping_writer-zero n (assign pc i idle) none_asleep,
      )
  writer_leaves-Inv e (broadcast w) = ground (
    arith,
    moved n pc i writing idle lt e,
    roused n (assign pc i idle),
    sleeping_writer-le-waiting n (assign pc i idle),
  )

start-Inv : (n : ℕ) → Holds n start
start-Inv n = record {
  readers = sym (count-zero is_reading n _ (λ i. refl));
  writers = sym (count-zero is_writing n _ (λ i. refl));
  waiting = sym (count-zero is_waiting n _ (λ i. refl));
  one_writer = omega arith;
  exclusive = inl refl;
  sleeping_readers = inl (count-zero is_sleeping_reader n _ (λ i. refl));
  sleeping_writers = inl (count-zero is_sleeping_writer n _ (λ i. refl));
}

-- Every step keeps the invariant.
pub Step-Inv : {n : ℕ} {s t : System} → Step n s t → Inv n s.lock s.pc → Inv n t.lock t.pc
Step-Inv (reader_enters i lt e) inv = reader_enters-Inv inv i lt e
Step-Inv (reader_retries i lt e) inv = reader_retries-Inv inv i lt e
Step-Inv (reader_leaves i lt e w) inv = reader_leaves-Inv inv i lt e w
Step-Inv (writer_enters i lt e) inv = writer_enters-Inv inv i lt e
Step-Inv (writer_retries i lt e) inv = writer_retries-Inv inv i lt e
Step-Inv (writer_leaves i lt e w) inv = writer_leaves-Inv inv i lt e w
Step-Inv (reader_wakes i lt e) inv = reader_wakes-Inv inv i lt e
Step-Inv (writer_wakes i lt e) inv = writer_wakes-Inv inv i lt e

-- The invariant holds in every state that `n` threads can reach.
pub Reach-Inv : {n : ℕ} {s : System} → Reach n s → Inv n s.lock s.pc
Reach-Inv {n} here = start-Inv n
Reach-Inv (next r st) = Step-Inv st (Reach-Inv r)
