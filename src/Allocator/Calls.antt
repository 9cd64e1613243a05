-- ===== src/Allocator/Calls.antt =====
-- `initHeap`, `smalloc`, `scalloc`, `sfree`, `srealloc` and the counts of malloc_3.cpp.
--
-- `sbrk`, `mmap` and `munmap` are parameters. What a call copies or clears of the payloads is part of
-- its result; the payloads themselves are the caller's.
pub mod Init
pub mod Smalloc
pub mod Sfree
pub mod Fresh
pub mod Counts
use operating_systems_course.Prelude.{
  ℕ, zero, suc, ◌+◌, ◌*◌, ◌-◌, ◌%◌, Bool, true, false, not, ◌&&◌, ◌||◌, Option, none, some, ◌==◌,
  leb, ltb, if◌then◌else◌,
}
use operating_systems_course.Server.Run.{Run, ok, fault, ◌>>=◌}
use operating_systems_course.Allocator.{MetaData, Heap, meta_size, max_block_order, write, load}
use operating_systems_course.Allocator.Links.{set_next, remove_block}
use operating_systems_course.Allocator.Buddy.{
  word, add, sub, Tracker, set_head, required_order, block_order, find_buddy, index, insert_free,
  remove_free, split_block_buddy, attempt_free_buddy_merge,
}

abbrev pub max_allocation_size : ℕ
max_allocation_size = 100000000

abbrev pub block_size_bytes : ℕ
block_size_bytes = 131072

abbrev pub num_initial_blocks : ℕ
num_initial_blocks = 32

abbrev pub heap_alignment : ℕ
heap_alignment = 4194304

abbrev pub mmap_min_limit : ℕ
mmap_min_limit = 131072

-- The operating system: the program break, what `sbrk(n)` returns, a fresh mapping of `n` bytes, and
-- whether `munmap` succeeds.
pub record Os : Type 0 where
  pub current_break : ℕ
  pub sbrk : ℕ → Option ℕ
  pub mmap : ℕ → Option ℕ
  pub munmap : ℕ → ℕ → Bool

-- A free block of the highest order, behind `prev`.
abbrev initial_meta : ℕ → MetaData
initial_meta prev = record {
  size = block_size_bytes - meta_size;
  is_free = true;
  next = 0;
  prev = prev;
}

-- The loop of `initHeap`: `left` blocks, the next at `curr`.
pub init_blocks : (left curr prev : ℕ) → Heap → Run Heap
unfolding set_next
init_blocks zero curr prev h = ok h
init_blocks (suc left) curr prev h = set_next (write h curr (initial_meta prev)) prev curr >>= λ h'.
    init_blocks left (curr + block_size_bytes) curr h'

abbrev pub padding : ℕ → ℕ
padding addr = if addr % heap_alignment == 0 then 0 else heap_alignment - addr % heap_alignment

pub init_at : Tracker → (base : ℕ) → Run Tracker
unfolding init_blocks
init_at t base =
    init_blocks (num_initial_blocks - 1) (base + block_size_bytes) base
      (write t.heap base (initial_meta 0))
    >>= λ h. ok (record {
      heap = h;
      heads = set_head t.heads max_block_order base;
      allocated_blocks = num_initial_blocks;
      allocated_bytes = num_initial_blocks * (block_size_bytes - meta_size);
      metadata_bytes = num_initial_blocks * meta_size;
      initialized = true;
    })

-- `initHeap`, with what `sbrk` answers.
pub init_from : Tracker → (padding : ℕ) → Option ℕ → Run Tracker
unfolding init_at
init_from t padding none = ok t
init_from t padding (some base) = init_at t (base + padding)

pub init_heap : Os → Tracker → Run Tracker
unfolding init_from
init_heap os t =
    let pad = padding os.current_break in
    init_from t pad (os.sbrk (pad + num_initial_blocks * block_size_bytes))

-- The branch of `smalloc` for a large block, with what `mmap` answers.
pub map_block : Tracker → (size : ℕ) → Option ℕ → Tracker × ℕ
map_block t size none = (t, 0)
map_block t size (some block) = (
  record t {
    heap = write t.heap block (record { size = size; is_free = false; next = 0; prev = 0 });
    allocated_blocks = add t.allocated_blocks 1;
    allocated_bytes = add t.allocated_bytes size;
    metadata_bytes = add t.metadata_bytes meta_size;
  },
  block + meta_size,
)

-- `smalloc` on an initialized tracker
pub allocate : (fuel : ℕ) → Os → Tracker → (size : ℕ) → Run (Tracker × ℕ)
unfolding map_block
allocate fuel os t size =
    if size == 0 || ltb max_allocation_size size
    then ok (t, 0)
    else if ltb mmap_min_limit (size + meta_size)
    then ok (map_block t size (os.mmap (size + meta_size)))
    else split_block_buddy fuel t size

unfoldable pub smalloc : (fuel : ℕ) → Os → Tracker → (size : ℕ) → Run (Tracker × ℕ)
unfolding init_heap allocate
smalloc fuel os t size =
    (if t.initialized then ok t else init_heap os t) >>= λ t'. allocate fuel os t' size

-- `scalloc`; the last part of the result is the number of bytes cleared.
pub scalloc : (fuel : ℕ) → Os → Tracker → (num size : ℕ) → Run (Tracker × ℕ × ℕ)
unfolding smalloc
scalloc fuel os t num size =
    let total = num * size % word in
    if total == 0 || ltb max_allocation_size total
    then ok (t, 0, 0)
    else (smalloc fuel os t total >>= λ (t', p). ok (t', p, if p == 0 then 0 else total))

-- `sfree` of a pointer that is not null, with the address of its header.
pub free_block : (fuel : ℕ) → Os → Tracker → (block : ℕ) → Run Tracker
free_block fuel os t block = load t.heap block >>= λ m.
    if m.is_free
    then ok t
    else if ltb mmap_min_limit (m.size + meta_size)
    then ok (
        if os.munmap block (m.size + meta_size)
        then record t {
          allocated_blocks = sub t.allocated_blocks 1;
          allocated_bytes = sub t.allocated_bytes m.size;
          metadata_bytes = sub t.metadata_bytes meta_size;
        }
        else t)
    else (index (block_order m.size) >>= λ order.
        insert_free fuel (record t { heap = write t.heap block (record m { is_free = true }) })
          order block
        >>= λ t1. attempt_free_buddy_merge fuel t1 block max_block_order >>= λ (t2, merged). ok t2)

-- `sfree`
pub sfree : (fuel : ℕ) → Os → Tracker → (p : ℕ) → Run Tracker
unfolding free_block
sfree fuel os t p = if p == 0 then ok t else free_block fuel os t (p - meta_size)

-- The loop of `srealloc` that tries how far the buddies are free: whether they are, and the size.
pub try_merge : (fuel : ℕ) → Heap → (candidate buddy merged size : ℕ) → Run (Bool × ℕ)
try_merge zero h candidate buddy merged size = fault
try_merge (suc fuel) h candidate buddy merged size = elim (leb size merged) [
  | true ↦ ok (true, merged)
  | false ↦ elim (candidate == 0 || buddy == 0) [
    | true ↦ ok (false, merged)
    | false ↦ load h candidate >>= λ m. load h buddy >>= λ mb. elim (not (m.size == mb.size)) [
      | true ↦ ok (false, merged)
      | false ↦ index (block_order m.size) >>= λ order.
          elim (not m.is_free || (not mb.is_free || order == max_block_order)) [
            | true ↦ ok (false, merged)
            | false ↦
                let candidate' = if ltb buddy candidate then buddy else candidate in
                let merged' = merged * 2 + meta_size in
                try_merge fuel h candidate' (find_buddy candidate' (merged' - meta_size)) merged'
                  size
          ]
    ]
  ]
]

-- A copy that `memmove` makes: to, from, and how many bytes.
pub record Copy : Type 0 where
  pub dst : ℕ
  pub src : ℕ
  pub count : ℕ

-- A new block, with the payload of the old one.
pub move_block : (fuel : ℕ) → Os → Tracker → (oldp size : ℕ) → Run (Tracker × ℕ × Option Copy)
unfolding smalloc sfree
move_block fuel os t oldp size = smalloc fuel os t size >>= λ (t1, p).
    if p == 0
    then ok (t1, 0, none)
    else (load t1.heap (oldp - meta_size) >>= λ m. sfree fuel os t1 oldp >>= λ t2.
        ok (t2, p, some (record { dst = p; src = oldp; count = m.size })))

-- Growth in place, into the buddies that `try_merge` found.
pub grow_block : (fuel : ℕ) → Tracker → (block merged : ℕ) → Run (Tracker × ℕ × Option Copy)
grow_block fuel t block merged = load t.heap block >>= λ m. index (block_order m.size) >>= λ order.
    insert_free fuel (record t { heap = write t.heap block (record m { is_free = true }) }) order
      block
    >>= λ t1. index (required_order (merged - meta_size)) >>= λ target.
        attempt_free_buddy_merge fuel t1 block target >>= λ (t2, final).
        load t2.heap final >>= λ mf. index (block_order mf.size) >>= λ final_order.
        remove_free (record t2 { heap = write t2.heap final (record mf { is_free = false }) })
          final_order final
        >>= λ t3. load t3.heap block >>= λ mo. ok (
          t3,
          final + meta_size,
          some (record { dst = final + meta_size; src = block + meta_size; count = mo.size }),
        )

-- `srealloc`
pub srealloc : (fuel : ℕ) → Os → Tracker → (oldp size : ℕ) → Run (Tracker × ℕ × Option Copy)
unfolding smalloc move_block grow_block try_merge
srealloc fuel os t oldp size =
    if size == 0 || ltb max_allocation_size size
    then ok (t, 0, none)
    else if oldp == 0
    then (smalloc fuel os t size >>= λ (t', p). ok (t', p, none))
    else (let block = oldp - meta_size in
        load t.heap block >>= λ m.
        if leb size m.size
        then ok (t, oldp, none)
        else if ltb mmap_min_limit (size + meta_size)
        then move_block fuel os t oldp size
        else (try_merge fuel (write t.heap block (record m { is_free = true })) block
              (find_buddy block m.size) m.size size
            >>= λ (can_merge, merged).
                let t' = record t { heap = write t.heap block (record m { is_free = false }) } in
                if can_merge
                then grow_block fuel t' block merged
                else move_block fuel os t' oldp size))

-- The lengths and sizes of one list, with at most `fuel` blocks.
pub count_list : (fuel : ℕ) → Heap → (p : ℕ) → Run (ℕ × ℕ)
count_list zero h p = fault
count_list (suc fuel) h p = elim (p == 0) [
  | true ↦ ok (0, 0)
  | false ↦ load h p >>= λ m.
      count_list fuel h m.next >>= λ (blocks, bytes). ok (suc blocks, m.size + bytes)
]

-- `freeBlocksCount` and `freeBytesCount`, over the orders below `orders`.
pub count_free : (fuel orders : ℕ) → Tracker → Run (ℕ × ℕ)
unfolding count_list
count_free fuel zero t = ok (0, 0)
count_free fuel (suc k) t = count_free fuel k t >>= λ (blocks, bytes).
    count_list fuel t.heap (t.heads k) >>= λ (more, more_bytes).
    ok (blocks + more, bytes + more_bytes)
