-- ===== src/Server/RwLock/Tests.antt =====
-- Two threads: thread 0 writes and thread 1 comes to read.
use operating_systems_course.Prelude.{ℕ, ◌<◌, ◌≡◌, refl, true, false, arith}
use operating_systems_course.Server.RwLock.{
  idle, System, start, unlocked, reader_turn, reader_try, writer_turn, writer_try, writer_arrive,
  Step, reader_enters, writer_enters, Reach, here, next,
}
use operating_systems_course.Server.RwLock.Counts.{is_writing, is_waiting}
use operating_systems_course.Server.RwLock.Invariant.{Inv, Reach-Inv}
use operating_systems_course.Server.RwLock.Safety.{
  is_active, mutual_exclusion, writer_priority, no_lost_wakeup,
}

abbrev written : System
written = writer_turn (writer_arrive unlocked) (λ i. idle) 0

abbrev blocked : System
blocked = reader_turn written.lock written.pc 1

written-Reach : Reach 2 written
written-Reach = next here (writer_enters 0 (omega arith) refl)

blocked-Reach : Reach 2 blocked
unfolding writer_turn writer_try
blocked-Reach = next written-Reach (reader_enters 1 (omega arith) refl)

mutual_exclusion_example : ◌≡◌ {A = ℕ} 0 0
unfolding writer_turn writer_try
mutual_exclusion_example = mutual_exclusion written-Reach 0 0 (omega arith) (omega arith) refl refl

first-Step : Step 2 start (reader_turn unlocked (λ i. idle) 0)
first-Step = reader_enters 0 (omega arith) refl

writer_priority_example : (is_writing (start.pc 1) ≡ false) × (is_waiting (start.pc 1) ≡ false)
unfolding reader_turn reader_try
writer_priority_example = writer_priority here first-Step 0 refl refl 1 (omega arith)

no_lost_wakeup_example : (j : ℕ) × (j < 2) × (is_active (blocked.pc j) ≡ true)
unfolding reader_turn reader_try writer_turn writer_try
no_lost_wakeup_example = no_lost_wakeup blocked-Reach 1 (omega arith) refl

Reach-Inv_example : Inv 2 blocked.lock blocked.pc
Reach-Inv_example = Reach-Inv blocked-Reach
