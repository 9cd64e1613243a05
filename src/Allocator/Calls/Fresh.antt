-- ===== src/Allocator/Calls/Fresh.antt =====
-- The heap that `initHeap` of malloc_3.cpp sets up: its blocks tile it.
use operating_systems_course.Prelude.{
  ℕ, zero, suc, ◌+◌, ◌*◌, ◌%◌, ◌/◌, ◌≤◌, ◌<◌, ◌≡◌, refl, true, ◌==◌, ltb, arith, has, inl, inr,
  Bool-cases, eqb→eq, eq→eqb,
}
use operating_systems_course.Allocator.{block_size, max_block_order}
use operating_systems_course.Allocator.Buddy.Grid.{IsAligned}
use operating_systems_course.Allocator.Buddy.Tiling.{Tiled}
use operating_systems_course.Allocator.Calls.{
  block_size_bytes, num_initial_blocks, heap_alignment, padding,
}
use operating_systems_course.Allocator.Calls.Init.{
  blocks_from, initial, initial_top, blocks_from-ge, top_size,
}

-- A block of the list lies on the grid of the first one, and before the end.
pub blocks_from-within :
    (left curr a : ℕ)
    → IsAligned block_size_bytes curr
    → has a (blocks_from left curr) ≡ true
    → IsAligned block_size_bytes a × (a + block_size_bytes ≤ curr + left * block_size_bytes)
blocks_from-within zero curr a on a_in = absurd (cc)
blocks_from-within (suc left) curr a on a_in = elim (Bool-cases (a == curr)) [
  | inl here ↦ rw (eqb→eq a curr here) (on, omega arith)
  | inr there ↦
      let (a_on, lt) =
        blocks_from-within left (curr + block_size_bytes) a
          (let (q, e) = on in (q + 1, omega (arith, e))) (ground arith) in
      (a_on, omega (arith, lt))
]

-- The blocks of the list leave no gap.
pub blocks_from-covers :
    (left curr x : ℕ)
    → curr ≤ x
    → x < curr + left * block_size_bytes
    → (c : ℕ) × (has c (blocks_from left curr) ≡ true) × (c ≤ x) × (x < c + block_size_bytes)
blocks_from-covers zero curr x lo hi = absurd (omega arith)
blocks_from-covers (suc left) curr x lo hi = elim (Bool-cases (ltb x (curr + block_size_bytes))) [
  | inl here ↦ (curr, ground (arith, eq→eqb curr curr refl), lo, ground arith)
  | inr there ↦
      let (c, c_in, le, lt) =
        blocks_from-covers left (curr + block_size_bytes) x (ground arith) (omega arith) in
      (c, ground arith, le, lt)
]

-- The blocks of a fresh heap tile it.
pub initial-Tiled :
    (base : ℕ) → IsAligned (block_size max_block_order) base → Tiled base (initial base)
initial-Tiled base on = record {
  order = λ k a a_in. let (at_k, a_from) = initial_top base k a a_in in omega (arith, at_k);
  aligned = λ k a a_in.
      let (at_k, a_from) = initial_top base k a a_in in
      let (a_on, lt) = blocks_from-within num_initial_blocks base a on' a_from in
      rw (at_k, top_size) a_on;
  within = λ k a a_in.
      let (at_k, a_from) = initial_top base k a a_in in
      let (a_on, lt) = blocks_from-within num_initial_blocks base a on' a_from in
      rw (at_k, top_size) (blocks_from-ge num_initial_blocks base a a_from, omega (arith, lt));
  covered = λ x lo hi.
      let (c, c_from, le, lt) = blocks_from-covers num_initial_blocks base x lo (omega arith) in
      (max_block_order, c, inl c_from, le, rw top_size lt);
}
  where
    on' : IsAligned block_size_bytes base
    on' = rw top_size at on

-- The padding of `initHeap` takes the program break to a multiple of the size of the heap.
pub padding-IsAligned : (addr : ℕ) → IsAligned (block_size max_block_order) (addr + padding addr)
padding-IsAligned addr =
    let d = addr / heap_alignment in
    elim (Bool-cases (addr % heap_alignment == 0)) [
      | inl on ↦ (32 * d, rw (on, top_size) (ground arith))
      | inr off ↦ (32 * (d + 1), rw (off, top_size) (ground arith))
    ]
