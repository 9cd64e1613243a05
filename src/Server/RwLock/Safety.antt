-- ===== src/Server/RwLock/Safety.antt =====
-- What the lock promises its callers: exclusion, priority of writers, no sleep for ever.
use operating_systems_course.Prelude.{
  ℕ, ◌+◌, ◌<◌, ◌≡◌, refl, ◌⊎◌, inl, inr, Bool, true, false, ◌||◌, arith, ◌==◌, Bool-cases, eqb→eq,
  eqb→ne, sym, ◌∙◌,
}
use native.Mathlib.Decide.{dec_lt}
use operating_systems_course.Server.Threads.{count, count-pos, count-two, count-witness}
use operating_systems_course.Server.RwLock.{
  Lock, Wake, Pc, writer_woken, System, Step, Reach, reader_turn, reader_try, writer_turn,
  writer_try, Woken, quiet, signal, lost, broadcast, reader_enters, reader_retries, reader_leaves,
  writer_enters, writer_retries, writer_leaves, reader_wakes, writer_wakes,
}
use operating_systems_course.Server.RwLock.Counts.{
  is_reading, is_writing, is_waiting, is_sleeping_writer, is_sleeping_reader, rouse-keeps,
  is_woken_writer, waiting-split,
}
use operating_systems_course.Server.RwLock.Invariant.{Inv, Reach-Inv}

absent : (p : Pc → Bool) (n : ℕ) (pc : ℕ → Pc) (k : ℕ) → k < n → count p n pc ≡ 0 → p (pc k) ≡ false
absent p n pc k lt zero_count = elim (Bool-cases (p (pc k))) [
  | inl hit ↦ absurd (omega (arith, count-pos p n pc k lt hit))
  | inr miss ↦ miss
]

-- Inside the lock, one way or the other.
abbrev pub is_inside : Pc → Bool
is_inside p = is_reading p || is_writing p

-- While a thread writes, no other thread reads or writes.
pub mutual_exclusion :
    {n : ℕ} {s : System}
    → Reach n s
    → (i j : ℕ) → i < n
    → j < n
    → is_writing (s.pc i) ≡ true
    → is_inside (s.pc j) ≡ true
    → i ≡ j
mutual_exclusion {n} {s} r i j hi hj wi inside = elim (Bool-cases (i == j)) [
  | inl same ↦ eqb→eq i j same
  | inr other ↦ elim (Bool-cases (is_writing (s.pc j))) [
    | inl wj ↦ absurd (
        omega (
          arith,
          (Reach-Inv r).writers,
          (Reach-Inv r).one_writer,
          count-two is_writing n s.pc i j hi hj (eqb→ne i j other) wi wj,
        ))
    | inr not_wj ↦ absurd (
        omega (
          arith,
          (Reach-Inv r).writers,
          (Reach-Inv r).readers,
          (Reach-Inv r).exclusive,
          count-pos is_writing n s.pc i hi wi,
          count-pos is_reading n s.pc j hj (ground arith),
        ))
  ]
]

-- Where a thread gets to read in a step, the lock let it: no writer was inside, none waiting.
admitted :
    (l : Lock) (pc : ℕ → Pc) (i j : ℕ)
    → is_reading (pc j) ≡ false
    → is_reading ((reader_turn l pc i).pc j) ≡ true
    → (l.writers ≡ 0) × (l.waiting_writers ≡ 0)
unfolding reader_turn reader_try
admitted l pc i j out got = ground arith

-- No step but a turn of `reader_lock` makes a thread read.
Woken-reading :
    {n : ℕ} {w : Wake} {pc pc' : ℕ → Pc} (j : ℕ)
    → Woken n w pc pc'
    → is_reading (pc' j) ≡ true
    → is_reading (pc j) ≡ true
Woken-reading j (quiet w) h = h
Woken-reading j (signal k w lt e) h = ground arith
Woken-reading j (lost w h') h = h
Woken-reading {pc} j (broadcast w) h = sym (rouse-keeps (pc j)).0 ∙ h

-- Who begins to read.
admitted_by-Step :
    {n : ℕ} {s t : System} (j : ℕ)
    → Step n s t
    → is_reading (s.pc j) ≡ false
    → is_reading (t.pc j) ≡ true
    → (s.lock.writers ≡ 0) × (s.lock.waiting_writers ≡ 0)
unfolding writer_turn writer_try
admitted_by-Step {s} j (reader_enters i lt e) out got = admitted s.lock s.pc i j out got
admitted_by-Step {s} j (reader_retries i lt e) out got = admitted s.lock s.pc i j out got
admitted_by-Step j (reader_leaves i lt e w) out got = ground (arith, Woken-reading j w)
admitted_by-Step j (writer_enters i lt e) out got = ground arith
admitted_by-Step j (writer_retries i lt e) out got = ground arith
admitted_by-Step j (writer_leaves i lt e w) out got = ground (arith, Woken-reading j w)
admitted_by-Step j (reader_wakes i lt e) out got = ground arith
admitted_by-Step j (writer_wakes i lt e) out got = ground arith

-- Writers have priority: in a step by which some thread begins to read, no thread holds the lock as a
-- writer and none waits for it as one.
pub writer_priority :
    {n : ℕ} {s t : System}
    → Reach n s
    → Step n s t
    → (j : ℕ) → is_reading (s.pc j) ≡ false
    → is_reading (t.pc j) ≡ true
    → (k : ℕ) → k < n
    → (is_writing (s.pc k) ≡ false) × (is_waiting (s.pc k) ≡ false)
writer_priority {n} {s} r st j out got k lt =
    let (no_writer, no_waiting) = admitted_by-Step j st out got in
    (
      absent is_writing n s.pc k lt (omega (arith, no_writer, (Reach-Inv r).writers)),
      absent is_waiting n s.pc k lt (omega (arith, no_waiting, (Reach-Inv r).waiting)),
    )

-- Asleep in one of the two waits.
abbrev pub is_asleep : Pc → Bool
is_asleep p = is_sleeping_reader p || is_sleeping_writer p

-- Able to go on: inside the lock, or a writer that has been woken.
abbrev pub is_active : Pc → Bool
is_active writer_woken = true
is_active p = is_inside p

-- While somebody sleeps, somebody is active: by the counters alone.
active_count :
    {n : ℕ} {s : System}
    → Inv n s.lock s.pc
    → 0 < count is_sleeping_reader n s.pc + count is_sleeping_writer n s.pc
    → 0 < count is_writing n s.pc + (count is_reading n s.pc + count is_woken_writer n s.pc)
active_count {n} {s} inv asleep = omega (arith, waiting-split n s.pc)

active_witness :
    (n : ℕ) (pc : ℕ → Pc)
    → 0 < count is_writing n pc + (count is_reading n pc + count is_woken_writer n pc)
    → (j : ℕ) × (j < n) × (is_active (pc j) ≡ true)
active_witness n pc h = elim (dec_lt 0 (count is_writing n pc)) [
  | yes w ↦
      let (j, lt, hit) = count-witness is_writing n pc w in (j, lt, active_of (pc j) (inl hit))
  | no not_w ↦ elim (dec_lt 0 (count is_reading n pc)) [
    | yes r ↦
        let (j, lt, hit) = count-witness is_reading n pc r in
        (j, lt, active_of (pc j) (inr (inl hit)))
    | no not_r ↦
        let (j, lt, hit) = count-witness is_woken_writer n pc (omega arith) in
        (j, lt, active_of (pc j) (inr (inr hit)))
  ]
]
  where
    active_of :
        (p : Pc)
        → (is_writing p ≡ true) ⊎ ((is_reading p ≡ true) ⊎ (is_woken_writer p ≡ true))
        → is_active p ≡ true
    active_of writer_woken h = refl
    active_of p h = ground arith

sleeper_count :
    (n : ℕ) (pc : ℕ → Pc) (i : ℕ)
    → i < n
    → is_asleep (pc i) ≡ true
    → 0 < count is_sleeping_reader n pc + count is_sleeping_writer n pc
sleeper_count n pc i lt asleep = elim (Bool-cases (is_sleeping_reader (pc i))) [
  | inl r ↦ omega (arith, count-pos is_sleeping_reader n pc i lt r)
  | inr w ↦ omega (arith, count-pos is_sleeping_writer n pc i lt (ground arith))
]

-- Nobody is left asleep for good: while a thread sleeps, some thread is inside the lock, or a writer
-- has been woken and is about to test.
pub no_lost_wakeup :
    {n : ℕ} {s : System}
    → Reach n s
    → (i : ℕ) → i < n
    → is_asleep (s.pc i) ≡ true
    → (j : ℕ) × (j < n) × (is_active (s.pc j) ≡ true)
no_lost_wakeup {n} {s} r i lt asleep =
    active_witness n s.pc (active_count {s = s} (Reach-Inv r) (sleeper_count n s.pc i lt asleep))
