-- ===== src/Allocator/Calls/Smalloc.antt =====
-- `smalloc` of malloc_3.cpp on a request that the table serves.
use operating_systems_course.Prelude.{ℕ, ◌+◌, ◌≤◌, ◌<◌, ◌≡◌, true, arith}
use operating_systems_course.Server.Run.{ok, Returns, same}
use operating_systems_course.Allocator.{block_size, meta_size}
use operating_systems_course.Allocator.Buddy.{Tracker, split_block_buddy}
use operating_systems_course.Allocator.Buddy.Invariant.{Blocks, Inv}
use operating_systems_course.Allocator.Buddy.Hand.{Allocation, split_block_buddy-Allocation}
use operating_systems_course.Allocator.Calls.{Os, smalloc, allocate, mmap_min_limit}

-- A request of 1 to 131040 bytes goes to the table.
smalloc-split :
    (fuel : ℕ) (os : Os) (t : Tracker) (size : ℕ)
    → t.initialized ≡ true
    → 0 < size
    → size + meta_size ≤ mmap_min_limit
    → smalloc fuel os t size ≡ split_block_buddy fuel t size
unfolding smalloc allocate
smalloc-split fuel os t size started pos fits = ground arith

-- `smalloc` of no bytes returns NULL.
pub smalloc_zero :
    (fuel : ℕ) (os : Os) (t : Tracker) → t.initialized ≡ true → smalloc fuel os t 0 ≡ ok (t, 0)
unfolding smalloc allocate
smalloc_zero fuel os t started = ground arith

-- Where the invariant holds, and with fuel above 1, `smalloc` of 1 to 131040 bytes returns. The
-- invariant holds again, and the blocks tile a heap that they tiled before. The result is the address
-- behind the header of a block of the least order that fits, which shares no byte with a block that
-- was handed out before; or NULL, where no order that fits has a free block.
pub smalloc-Allocation :
    (fuel : ℕ) (os : Os) (B : Blocks) (t : Tracker) (size : ℕ)
    → 1 < fuel
    → 0 < size
    → size + meta_size ≤ mmap_min_limit
    → Inv B t
    → Returns (Allocation B t size) (smalloc fuel os t size)
unfolding block_size
smalloc-Allocation fuel os B t size room pos fits inv =
    same (smalloc-split fuel os t size inv.started pos fits)
      (split_block_buddy-Allocation fuel B t size room fits inv)
