-- ===== src/Server/RwLock/Counts.antt =====
-- How many threads stand where, and how a move changes that.
use operating_systems_course.Prelude.{ℕ, ◌+◌, ◌≤◌, ◌<◌, ◌≡◌, ◌≢◌, refl, Bool, true, false, arith}
use native.Mathlib.Decide.{dec_lt}
use operating_systems_course.Server.Threads.{
  assign, count, bit, count-assign, count-congr, count_mono, count-sum, count-zero, count-witness,
}
use operating_systems_course.Server.RwLock.{
  Pc, reader_asleep, reading, writer_asleep, writer_woken, writing, rouse,
}

abbrev pub is_reading : Pc → Bool
is_reading reading = true
is_reading _ = false

abbrev pub is_writing : Pc → Bool
is_writing writing = true
is_writing _ = false

abbrev pub is_waiting : Pc → Bool
is_waiting writer_asleep = true
is_waiting writer_woken = true
is_waiting _ = false

abbrev pub is_sleeping_writer : Pc → Bool
is_sleeping_writer writer_asleep = true
is_sleeping_writer _ = false

abbrev pub is_sleeping_reader : Pc → Bool
is_sleeping_reader reader_asleep = true
is_sleeping_reader _ = false

abbrev pub is_woken_writer : Pc → Bool
is_woken_writer writer_woken = true
is_woken_writer _ = false

-- Thread `i` goes from `pc i` to `b`.
pub record Moved (n : ℕ) (pc : ℕ → Pc) (a b : Pc) (pc' : ℕ → Pc) : Type 0 where
  pub of_reading :
      count is_reading n pc' + bit (is_reading a) ≡ count is_reading n pc + bit (is_reading b)
  pub of_writing :
      count is_writing n pc' + bit (is_writing a) ≡ count is_writing n pc + bit (is_writing b)
  pub of_waiting :
      count is_waiting n pc' + bit (is_waiting a) ≡ count is_waiting n pc + bit (is_waiting b)
  pub of_sleeping_writer :
      count is_sleeping_writer n pc' + bit (is_sleeping_writer a)
      ≡ count is_sleeping_writer n pc + bit (is_sleeping_writer b)
  pub of_sleeping_reader :
      count is_sleeping_reader n pc' + bit (is_sleeping_reader a)
      ≡ count is_sleeping_reader n pc + bit (is_sleeping_reader b)

pub moved :
    (n : ℕ) (pc : ℕ → Pc) (i : ℕ) (a b : Pc) → i < n → pc i ≡ a → Moved n pc a b (assign pc i b)
moved n pc i a b lt e = rw (← e) (record {
  of_reading = count-assign is_reading n pc i b lt;
  of_writing = count-assign is_writing n pc i b lt;
  of_waiting = count-assign is_waiting n pc i b lt;
  of_sleeping_writer = count-assign is_sleeping_writer n pc i b lt;
  of_sleeping_reader = count-assign is_sleeping_reader n pc i b lt;
})

-- A sleeping writer is a waiting one.
pub sleeping_writer-le-waiting :
    (n : ℕ) (pc : ℕ → Pc) → count is_sleeping_writer n pc ≤ count is_waiting n pc
sleeping_writer-le-waiting n pc = count_mono is_sleeping_writer is_waiting n pc (λ i. bits (pc i))
  where
    bits : (p : Pc) → bit (is_sleeping_writer p) ≤ bit (is_waiting p)
    bits writer_asleep = omega arith
    bits _ = omega arith

-- If no thread is a sleeping writer, their count is 0.
pub sleeping_writer-zero :
    (n : ℕ) (pc : ℕ → Pc)
    → ((j : ℕ) → j < n → pc j ≢ writer_asleep)
    → count is_sleeping_writer n pc ≡ 0
sleeping_writer-zero n pc none_asleep = elim (dec_lt 0 (count is_sleeping_writer n pc)) [
  | yes some_asleep ↦
      let (j, lt, hit) = count-witness is_sleeping_writer n pc some_asleep in
      absurd (none_asleep j lt (asleep_of (pc j) hit))
  | no none_left ↦ omega arith
]
  where
    asleep_of : (p : Pc) → is_sleeping_writer p ≡ true → p ≡ writer_asleep
    asleep_of writer_asleep h = refl
    asleep_of p h = cc

-- A broadcast moves the sleeping readers and nobody else.
pub record Roused (n : ℕ) (pc : ℕ → Pc) : Type 0 where
  pub of_reading : count is_reading n (λ j. rouse (pc j)) ≡ count is_reading n pc
  pub of_writing : count is_writing n (λ j. rouse (pc j)) ≡ count is_writing n pc
  pub of_waiting : count is_waiting n (λ j. rouse (pc j)) ≡ count is_waiting n pc
  pub of_sleeping_writer :
      count is_sleeping_writer n (λ j. rouse (pc j)) ≡ count is_sleeping_writer n pc
  pub of_sleeping_reader : count is_sleeping_reader n (λ j. rouse (pc j)) ≡ 0

pub rouse-keeps :
    (p : Pc)
    → (is_reading (rouse p) ≡ is_reading p)
      × (is_writing (rouse p) ≡ is_writing p)
      × (is_waiting (rouse p) ≡ is_waiting p)
      × (is_sleeping_writer (rouse p) ≡ is_sleeping_writer p)
      × (is_sleeping_reader (rouse p) ≡ false)
rouse-keeps reader_asleep = (refl, refl, refl, refl, refl)
rouse-keeps _ = (refl, refl, refl, refl, refl)

pub roused : (n : ℕ) (pc : ℕ → Pc) → Roused n pc
roused n pc = record {
  of_reading = count-congr is_reading n _ pc (λ j. (rouse-keeps (pc j)).0);
  of_writing = count-congr is_writing n _ pc (λ j. (rouse-keeps (pc j)).1);
  of_waiting = count-congr is_waiting n _ pc (λ j. (rouse-keeps (pc j)).2);
  of_sleeping_writer = count-congr is_sleeping_writer n _ pc (λ j. (rouse-keeps (pc j)).3);
  of_sleeping_reader = count-zero is_sleeping_reader n _ (λ j. (rouse-keeps (pc j)).4);
}

-- A waiting writer sleeps or has been woken.
pub waiting-split :
    (n : ℕ) (pc : ℕ → Pc)
    → count is_waiting n pc ≡ count is_sleeping_writer n pc + count is_woken_writer n pc
waiting-split n pc = count-sum is_waiting is_sleeping_writer is_woken_writer n pc (λ i. bits (pc i))
  where
    bits : (p : Pc) → bit (is_waiting p) ≡ bit (is_sleeping_writer p) + bit (is_woken_writer p)
    bits writer_asleep = refl
    bits _ = refl
