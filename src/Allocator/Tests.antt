-- ===== src/Allocator/Tests.antt =====
-- Small heaps: two blocks of order 0, and a table with one free block of order 1.
mod Halved
use operating_systems_course.Prelude.{
  ◌⊎◌, ℕ, ◌+◌, ◌≡◌, refl, true, false, none, some, List, [], ◌∷◌, ◌==◌, if◌then◌else◌, arith, inl,
  inr, Bool-cases, eqb→eq,
}
use operating_systems_course.Server.Run.{Run, ok, ◌>>=◌, Returns}
use operating_systems_course.Allocator.{Heap, block_size, meta_size, write}
use operating_systems_course.Allocator.Links.{insert_block, remove_block, remove_first}
use operating_systems_course.Allocator.Links.Chain.{linked}
use operating_systems_course.Allocator.Links.Insert.{Inserted, insert_block-Inserted}
use operating_systems_course.Allocator.Links.Remove.{Removed, remove_block-Removed}
use operating_systems_course.Allocator.Buddy.{Tracker, merge_once, split_block_buddy}
use operating_systems_course.Allocator.Buddy.Invariant.{Blocks, In, Inv}
use operating_systems_course.Allocator.Buddy.Merge.{lower}
use operating_systems_course.Allocator.Buddy.Join.{IsJoined, merge_once-Inv}
use operating_systems_course.Allocator.Buddy.Hand.{Allocation}
use operating_systems_course.Allocator.Calls.{Os, padding, smalloc, sfree, count_free, init_heap}
use operating_systems_course.Allocator.Calls.Init.{initial, init_heap-Inv}
use operating_systems_course.Allocator.Calls.Sfree.{IsFreed, sfree-IsFreed}
use operating_systems_course.Allocator.Client.{Call, take, give, run}
use operating_systems_course.Allocator.Client.Session.{IsSound, run-IsSound}
use operating_systems_course.Allocator.Tests.Halved.{
  start, halved, halved_table, halved-Inv, halved-Tiled,
}
use operating_systems_course.Allocator.Calls.Smalloc.{smalloc-Allocation}
use operating_systems_course.Allocator.Calls.Counts.{count_free-Inv}

abbrev no_heap : Heap
no_heap = λ a. none

-- A list of one block, and a block to insert.
abbrev pair_heap : Heap
pair_heap = write (write no_heap 4096 (linked 96 0 0)) 8192 (linked 96 0 0)

insert_behind :
    Returns (Inserted 96 pair_heap 8192 (4096 ∷ [])) (insert_block 2 pair_heap 4096 8192)
insert_behind =
    insert_block-Inserted 2 96 pair_heap 4096 8192 0 0 (4096 ∷ []) (omega arith)
      (refl, omega arith, (0, refl, refl)) (omega arith) refl refl

-- A list of two blocks.
abbrev list_heap : Heap
list_heap = write (write no_heap 4096 (linked 96 8192 0)) 8192 (linked 96 0 4096)

remove_last :
    Returns (Removed 96 list_heap 8192 (4096 ∷ (8192 ∷ []))) (remove_block list_heap 4096 8192)
remove_last =
    remove_block-Removed 96 list_heap 4096 8192 (4096 ∷ (8192 ∷ []))
      (refl, omega arith, (8192, refl, (refl, omega arith, (0, refl, refl)))) refl

abbrev blocks : Blocks
blocks = record { free = λ k. if k == 1 then 4096 ∷ [] else []; live = λ k. [] }

abbrev table : Tracker
table = record {
  heap = write no_heap 4096 (linked 224 0 0);
  heads = λ k. if k == 1 then 4096 else 0;
  allocated_blocks = 1;
  allocated_bytes = 224;
  metadata_bytes = 32;
  initialized = true;
}

only_block : (k a : ℕ) → In blocks k a → (k ≡ 1) × (a ≡ 4096)
only_block k a (inl a_free) = elim (Bool-cases (k == 1)) [
  | inl here ↦ (eqb→eq k 1 here, ground arith)
  | inr other ↦ absurd (cc (rw other at a_free))
]
only_block k a (inr a_live) = absurd (cc)

table-Inv : Inv blocks table
unfolding block_size
table-Inv = record {
  lists = λ k. elim (Bool-cases (k == 1)) [
    | inl here ↦ rw (here, eqb→eq k 1 here) (refl, omega arith, (0, refl, refl))
    | inr other ↦ rw other refl
  ];
  held = λ k a a_live. absurd (cc);
  apart =
      λ j a k c x y. let (p, q) = only_block j a x in let (r, s) = only_block k c y in inl (cc, cc);
  started = refl;
  counted = refl;
}

abbrev os : Os
os = record { current_break = 8192; sbrk = λ n. some 8192; mmap = λ n. none; munmap = λ a n. true }

smalloc-Allocation_example : Returns (Allocation blocks table 40) (smalloc 2 os table 40)
smalloc-Allocation_example =
    smalloc-Allocation 2 os blocks table 40 (omega arith) (omega arith) (omega arith) table-Inv

-- A request that splits the block of order 1.
split_table : Run (ℕ × ℕ × ℕ)
unfolding smalloc block_size
split_table = smalloc 2 os table 40 >>= λ (t, p). ok (p, t.heads 0, t.heads 1)

smalloc_small : split_table ≡ ok (4128, 4224, 0)
unfolding split_table split_block_buddy remove_first insert_block
smalloc_small = refl

-- The counts of the free blocks and their bytes.
table_counts : count_free 2 11 table ≡ ok (1, 224)
unfolding block_size
table_counts = count_free-Inv 2 11 blocks table table-Inv λ k. ground arith

-- Two free blocks of order 0, side by side.
abbrev halves : Blocks
halves = record { free = λ k. if k == 0 then 4096 ∷ (4224 ∷ []) else []; live = λ k. [] }

abbrev half_table : Tracker
half_table = record {
  heap = write (write no_heap 4096 (linked 96 4224 0)) 4224 (linked 96 0 4096);
  heads = λ k. if k == 0 then 4096 else 0;
  allocated_blocks = 2;
  allocated_bytes = 192;
  metadata_bytes = 64;
  initialized = true;
}

half_block : (k a : ℕ) → In halves k a → (k ≡ 0) × ((a ≡ 4096) ⊎ (a ≡ 4224))
half_block k a (inl a_free) = elim (Bool-cases (k == 0)) [
  | inl here ↦ (eqb→eq k 0 here, ground arith)
  | inr other ↦ absurd (cc (rw other at a_free))
]
half_block k a (inr a_live) = absurd (cc)

half_table-Inv : Inv halves half_table
unfolding block_size
half_table-Inv = record {
  lists = λ k. elim (Bool-cases (k == 0)) [
    | inl here ↦
        rw (here, eqb→eq k 0 here)
          (refl, omega arith, (4224, refl, (refl, omega arith, (0, refl, refl))))
    | inr other ↦ rw other refl
  ];
  held = λ k a a_live. absurd (cc);
  apart = λ j a k c x y.
      let (p, q) = half_block j a x in
      let (r, s) = half_block k c y in rw (p, r) (ground (arith, q, s));
  started = refl;
  counted = refl;
}

-- A round of the loop merges them.
merge_halves : Returns (IsJoined halves 0 4224 4096) (merge_once 1 half_table 0 4224 4096)
unfolding block_size
merge_halves =
    merge_once-Inv 1 halves half_table 0 4224 4096 half_table-Inv (omega arith) refl refl (inr refl)
      (omega arith)

abbrev fresh : Tracker
fresh = record {
  heap = no_heap;
  heads = λ k. 0;
  allocated_blocks = 0;
  allocated_bytes = 0;
  metadata_bytes = 0;
  initialized = false;
}

-- A fresh heap.
init_fresh : Returns (Inv (initial (8192 + padding os.current_break))) (init_heap os fresh)
init_fresh = init_heap-Inv os fresh 8192 refl (omega arith) λ k. refl

sfree-IsFreed_example :
    Returns (IsFreed start halved 9 start) (sfree 64 os halved_table (start + meta_size))
unfolding block_size
sfree-IsFreed_example =
    sfree-IsFreed 64 os start halved halved_table 9 start (omega arith) (32, refl) halved-Inv
      halved-Tiled refl λ j. ground arith

-- A small request, a block of the highest order, and both are given back.
abbrev calls : List Call
calls = take 40 ∷ (take 131040 ∷ (give 1 ∷ (give 0 ∷ [])))

run-IsSound_example :
    Returns (IsSound os fresh true) (run 32779 os (record { table = fresh; held = [] }) calls)
run-IsSound_example =
    run-IsSound 32779 os fresh (omega arith) (omega arith) refl (λ k. refl) refl calls
      (omega arith, (omega arith, tt))
