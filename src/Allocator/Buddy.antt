-- ===== src/Allocator/Buddy.antt =====
-- `MemoryTracker` of malloc_3.cpp, and the splitting and merging of blocks.
--
-- The counters are `size_t`, which wraps around. A request is at most 10^8 bytes and a block at most
-- 2^27, so that the sizes of blocks are plain sums.
pub mod Sizes
pub mod Grid
mod Split
pub mod Invariant
mod Take
pub mod Tiling
pub mod Room
pub mod Change
pub mod Drop
pub mod Merge
pub mod Join
pub mod Release
mod Moves
pub mod Tiles
mod MergeStep
pub mod MergeLoop
mod Smalloc
pub mod Hand
use Prim.Native.Nat.{bit_xor}
use operating_systems_course.Prelude.{
  ℕ, zero, suc, ◌+◌, ◌*◌, ◌-◌, ◌/◌, ◌%◌, ◌^◌, Bool, true, false, not, ◌&&◌, ◌||◌, Option, none,
  some, ◌==◌, leb, ltb, if◌then◌else◌,
}
use operating_systems_course.Server.Run.{Run, ok, fault, ◌>>=◌}
use operating_systems_course.Allocator.{
  MetaData, Heap, meta_size, max_block_order, block_size, write, load,
}
use operating_systems_course.Allocator.Links.{insert_block, remove_first, remove_block, set_next}

abbrev pub word : ℕ
word = 2 ^ 64

-- `x += y;` and `x -= y;` on a `size_t`
abbrev pub add : ℕ → ℕ → ℕ
add x y = (x + y) % word

abbrev pub sub : ℕ → ℕ → ℕ
sub x y = (x + word - y) % word

-- `blocksOrderTable`, with the headers that its lists lead through.
pub record Tracker : Type 0 where
  pub heap : Heap
  pub heads : ℕ → ℕ
  pub allocated_blocks : ℕ
  pub allocated_bytes : ℕ
  pub metadata_bytes : ℕ
  pub initialized : Bool

abbrev pub set_head : (ℕ → ℕ) → ℕ → ℕ → ℕ → ℕ
set_head heads k p j = if j == k then p else heads j

-- The loop of `getRequiredOrder` and `getBlockOrder`, with `left` orders to try; `none` is -1.
unfoldable pub fitting_order : (left order full : ℕ) → Option ℕ
fitting_order zero order full = none
fitting_order (suc left) order full = elim (leb full (block_size order)) [
  | true ↦ some order
  | false ↦ fitting_order left (order + 1) full
]

unfoldable pub required_order : ℕ → Option ℕ
unfolding fitting_order
required_order size = fitting_order (max_block_order + 1) 0 (size + meta_size)

-- `getBlockOrder`, on the size in the header
pub block_order : ℕ → Option ℕ
unfolding fitting_order
block_order size = fitting_order (max_block_order + 1) 0 (size + meta_size)

-- `findBuddy` on the header's size, and `findBuddyWithSize`
abbrev pub find_buddy : ℕ → ℕ → ℕ
find_buddy block size = bit_xor block (size + meta_size)

-- The index of an order, or a write beyond the table for -1.
abbrev pub index : Option ℕ → Run ℕ
index none = fault
index (some k) = ok k

-- `freeBlocksList[k].insertBlock(block)`
unfoldable pub insert_free : (fuel : ℕ) → Tracker → (k block : ℕ) → Run Tracker
insert_free fuel t k block = insert_block fuel t.heap (t.heads k) block >>= λ (h, head).
    ok (record t { heap = h; heads = set_head t.heads k head })

-- `freeBlocksList[k].removeFirst()`
unfoldable pub remove_first_free : Tracker → (k : ℕ) → Run (Tracker × ℕ)
remove_first_free t k = remove_first t.heap (t.heads k) >>= λ (h, head, block).
    ok (record t { heap = h; heads = set_head t.heads k head }, block)

-- `freeBlocksList[k].removeBlock(block)`
pub remove_free : Tracker → (k block : ℕ) → Run Tracker
remove_free t k block = remove_block t.heap (t.heads k) block >>= λ (h, head, block').
    ok (record t { heap = h; heads = set_head t.heads k head })

-- A free header with no links, of a block of `total` bytes.
abbrev pub free_meta : ℕ → MetaData
free_meta total = record { size = total - meta_size; is_free = true; next = 0; prev = 0 }

-- One round of the loop of `splitBlockBuddy`, from order `k + 1` to order `k`.
unfoldable pub split_once : (fuel : ℕ) → Tracker → (k : ℕ) → Run Tracker
unfolding insert_free remove_first_free
split_once fuel t k = remove_first_free t (suc k) >>= λ (t1, block). load t1.heap block >>= λ m.
    let total = (m.size + meta_size) / 2 in
    let right = block + total in
    let h = write (write t1.heap block (free_meta total)) right (free_meta total) in
    insert_free fuel (record t1 { heap = h }) k block >>= λ t2.
    insert_free fuel t2 k right >>= λ t3. ok (record t3 {
      allocated_blocks = add t3.allocated_blocks 1;
      allocated_bytes = sub t3.allocated_bytes meta_size;
      metadata_bytes = add t3.metadata_bytes meta_size;
    })

-- The loop, from a current order on.
unfoldable pub split_down : (fuel : ℕ) → Tracker → (order requested : ℕ) → Run Tracker
unfolding split_once
split_down fuel t zero requested = ok t
split_down fuel t (suc k) requested = load t.heap (t.heads (suc k)) >>= λ m.
    elim (leb requested ((m.size + meta_size) / 2 - meta_size)) [
      | true ↦ split_once fuel t k >>= λ t'. split_down fuel t' k requested
      | false ↦ ok t
    ]

-- The first order from `order` on whose list is not empty, with `left` to try.
unfoldable pub nonempty_order : (left order : ℕ) → (ℕ → ℕ) → Option ℕ
nonempty_order zero order heads = none
nonempty_order (suc left) order heads = elim (heads order == 0) [
  | true ↦ nonempty_order left (order + 1) heads
  | false ↦ some order
]

-- The end of `splitBlockBuddy`: the first block of the wanted order, and the address behind its header.
unfoldable pub take_block : Tracker → (order : ℕ) → Run (Tracker × ℕ)
unfolding remove_first_free
take_block t order = remove_first_free t order >>= λ (t1, block). load t1.heap block >>= λ m.
    ok (record t1 { heap = write t1.heap block (record m { is_free = false }) }, block + meta_size)

-- `splitBlockBuddy`; `current` is where the search for a block ended.
unfoldable pub split_from :
    (fuel : ℕ) → Tracker → (target requested : ℕ) → (current : Option ℕ) → Run (Tracker × ℕ)
unfolding split_down take_block
split_from fuel t target requested none = ok (t, 0)
split_from fuel t target requested (some current) =
    split_down fuel t current requested >>= λ t'. take_block t' target

unfoldable pub split_block_buddy : (fuel : ℕ) → Tracker → (requested : ℕ) → Run (Tracker × ℕ)
unfolding split_from required_order nonempty_order
split_block_buddy fuel t requested = index (required_order requested) >>= λ target.
    split_from fuel t target requested
      (nonempty_order (max_block_order + 1 - target) target t.heads)

-- `mergeBuddyBlocks`: 0 where the two do not merge.
pub merge_buddy_blocks : Heap → (a b : ℕ) → Run (Heap × ℕ)
unfolding block_order
merge_buddy_blocks h a b =
    if a == 0 || b == 0
    then ok (h, 0)
    else (load h a >>= λ ma. load h b >>= λ mb.
        if not (ma.size == mb.size)
        then ok (h, 0)
        else (index (block_order ma.size) >>= λ order.
            if ma.is_free && (mb.is_free && not (order == max_block_order))
            then (let merged = if ltb a b then a else b in
                load h merged >>= λ m.
                ok (write h merged (record m { size = ma.size * 2 + meta_size }), merged))
            else ok (h, 0)))

-- What a round of `attemptFreeBuddyMerge` does with two buddies: the merged block, and its order.
pub merge_once : (fuel : ℕ) → Tracker → (order current buddy : ℕ) → Run (Tracker × ℕ × ℕ)
unfolding insert_free remove_free merge_buddy_blocks block_order
merge_once fuel t order current buddy = remove_free t order current >>= λ t1.
    remove_free t1 order buddy >>= λ t2. merge_buddy_blocks t2.heap current buddy >>= λ (h, merged).
    load h merged >>= λ m. index (block_order m.size) >>= λ order'.
    insert_free fuel
      (record t2 {
        heap = h;
        allocated_blocks = sub t2.allocated_blocks 1;
        allocated_bytes = add t2.allocated_bytes meta_size;
        metadata_bytes = sub t2.metadata_bytes meta_size;
      })
      order' merged
    >>= λ t3. ok (t3, order', merged)

-- The loop of `attemptFreeBuddyMerge`; `final` is the block that it would return now.
pub merge_loop : (fuel : ℕ) → Tracker → (target order current buddy final : ℕ) → Run (Tracker × ℕ)
unfolding merge_once
merge_loop zero t target order current buddy final = fault
merge_loop (suc fuel) t target order current buddy final = load t.heap buddy >>= λ mb.
    load t.heap current >>= λ m. elim (mb.is_free && (m.size == mb.size && not (order == target))) [
      | false ↦ ok (t, final)
      | true ↦ merge_once fuel t order current buddy >>= λ (t', order', merged).
          load t'.heap merged >>= λ m'.
          let current' = if order' == target then current else merged in
          let buddy' = if order' == target then buddy else find_buddy merged m'.size in
          merge_loop fuel t' target order' current' buddy' merged
    ]

-- `attemptFreeBuddyMerge`
unfoldable pub attempt_free_buddy_merge :
    (fuel : ℕ) → Tracker → (block target : ℕ) → Run (Tracker × ℕ)
unfolding merge_loop block_order
attempt_free_buddy_merge fuel t block target =
    if block == 0
    then ok (t, 0)
    else (load t.heap block >>= λ m. index (block_order m.size) >>= λ order.
        if order == target
        then ok (t, 0)
        else (let buddy = find_buddy block m.size in
            load t.heap buddy >>= λ mb.
            if m.size == mb.size
            then merge_loop fuel t target order block buddy block
            else ok (t, block)))
