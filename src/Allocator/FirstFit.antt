-- ===== src/Allocator/FirstFit.antt =====
-- The allocator of hw04-custom-memory-allocator/stages/malloc_2.cpp: a list of blocks, first fit.
--
-- The heap is that of Allocator: headers by their addresses. `sbrk` is a parameter: what it answers to
-- a number of bytes.
mod Blocks
pub mod Keeps
pub mod Grows
mod Tests
use operating_systems_course.Prelude.{
  ℕ, zero, suc, ◌+◌, ◌*◌, ◌-◌, ◌%◌, Bool, true, false, ◌&&◌, ◌||◌, Option, none, some, ◌==◌, leb,
  ltb, if◌then◌else◌,
}
use operating_systems_course.Server.Run.{Run, ok, fault, ◌>>=◌}
use operating_systems_course.Allocator.{MetaData, Heap, meta_size, write, load}
use operating_systems_course.Allocator.Links.{set_next, set_prev}
use operating_systems_course.Allocator.Buddy.{word, add, sub}

abbrev pub max_size : ℕ
max_size = 100000000

-- `MemoryTracker`
pub record BlockList : Type 0 where
  pub heap : Heap
  pub head : ℕ
  pub free_blocks : ℕ
  pub free_bytes : ℕ
  pub total_blocks : ℕ
  pub total_bytes : ℕ
  pub meta_data_bytes : ℕ

-- The last block of the list from `curr` on.
pub last_block : (fuel : ℕ) → Heap → (curr : ℕ) → Run ℕ
last_block zero h curr = fault
last_block (suc fuel) h curr =
    load h curr >>= λ m. elim (m.next == 0) [ true ↦ ok curr | false ↦ last_block fuel h m.next ]

-- `addNewBlock`: the heap and the head.
pub add_new_block : (fuel : ℕ) → Heap → (head block : ℕ) → Run (Heap × ℕ)
unfolding last_block
add_new_block fuel h head block =
    if head == 0
    then ok (h, block)
    else (last_block fuel h head >>= λ curr. set_next h curr block >>= λ h1.
        set_prev h1 block curr >>= λ h2. set_next h2 block 0 >>= λ h3. ok (h3, head))

-- The first free block that is large enough, or NULL.
pub find_fit : (fuel : ℕ) → Heap → (curr size : ℕ) → Run ℕ
find_fit zero h curr size = fault
find_fit (suc fuel) h curr size = elim (curr == 0) [
  | true ↦ ok 0
  | false ↦ load h curr >>= λ m. elim (m.is_free && leb size m.size) [
    | true ↦ ok curr
    | false ↦ find_fit fuel h m.next size
  ]
]

pub reuse : BlockList → (block : ℕ) → Run (BlockList × ℕ)
reuse t block = load t.heap block >>= λ m. ok (
  record t {
    heap = write t.heap block (record m { is_free = false });
    free_blocks = sub t.free_blocks 1;
    free_bytes = sub t.free_bytes m.size;
  },
  block + meta_size,
)

-- A block behind the program break, where `sbrk` gives one.
pub grow : (fuel : ℕ) → BlockList → (size : ℕ) → (mem : Option ℕ) → Run (BlockList × ℕ)
unfolding add_new_block
grow fuel t size none = ok (t, 0)
grow fuel t size (some mem) =
    add_new_block fuel
      (write t.heap mem (record { size = size; is_free = false; next = 0; prev = 0 })) t.head mem
    >>= λ (h, head). ok (
      record t {
        heap = h;
        head = head;
        total_blocks = add t.total_blocks 1;
        total_bytes = add t.total_bytes size;
        meta_data_bytes = add t.meta_data_bytes meta_size;
      },
      mem + meta_size,
    )

-- `smalloc`
pub smalloc_first :
    (fuel : ℕ) → (sbrk : ℕ → Option ℕ) → BlockList → (size : ℕ) → Run (BlockList × ℕ)
unfolding find_fit reuse grow
smalloc_first fuel sbrk t size =
    if size == 0 || ltb max_size size
    then ok (t, 0)
    else (find_fit fuel t.heap t.head size >>= λ block.
        if block == 0 then grow fuel t size (sbrk (size + meta_size)) else reuse t block)

-- `scalloc`, with the number of bytes that it clears.
pub scalloc_first :
    (fuel : ℕ) → (sbrk : ℕ → Option ℕ) → BlockList → (num size : ℕ) → Run (BlockList × ℕ × ℕ)
unfolding smalloc_first
scalloc_first fuel sbrk t num size =
    let total = num * size % word in
    smalloc_first fuel sbrk t total >>= λ (t', p). ok (t', p, if p == 0 then 0 else total)

-- `sfree`
pub sfree_first : BlockList → (p : ℕ) → Run BlockList
sfree_first t p =
    if p == 0
    then ok t
    else (load t.heap (p - meta_size) >>= λ m.
        if m.is_free
        then ok t
        else ok (record t {
          heap = write t.heap (p - meta_size) (record m { is_free = true });
          free_blocks = add t.free_blocks 1;
          free_bytes = add t.free_bytes m.size;
        }))

-- `srealloc`, with the number of bytes that it moves to the new block.
pub srealloc_first :
    (fuel : ℕ) → (sbrk : ℕ → Option ℕ) → BlockList → (oldp size : ℕ) → Run (BlockList × ℕ × ℕ)
unfolding smalloc_first sfree_first
srealloc_first fuel sbrk t oldp size =
    if size == 0 || ltb max_size size
    then ok (t, 0, 0)
    else if oldp == 0
    then (smalloc_first fuel sbrk t size >>= λ (t', p). ok (t', p, 0))
    else (load t.heap (oldp - meta_size) >>= λ m.
        if leb size m.size
        then ok (t, oldp, 0)
        else (smalloc_first fuel sbrk t size >>= λ (t1, p).
            if p == 0
            then ok (t1, 0, 0)
            else (load t1.heap (oldp - meta_size) >>= λ m1.
                sfree_first t1 oldp >>= λ t2. ok (t2, p, m1.size))))
