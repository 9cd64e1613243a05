-- ===== src/Allocator/Links.antt =====
-- `BlockOrderList` of malloc_3.cpp: a doubly linked list of blocks, by address.
pub mod Chain
pub mod Insert
pub mod Remove
use operating_systems_course.Prelude.{
  ℕ, zero, suc, Bool, true, false, not, ◌&&◌, ◌==◌, ltb, if◌then◌else◌,
}
use operating_systems_course.Server.Run.{Run, ok, fault, ◌>>=◌}
use operating_systems_course.Allocator.{MetaData, Heap, write, load}

-- `p->next = q;` and `p->prev = q;`
unfoldable pub set_next : Heap → ℕ → ℕ → Run Heap
set_next h p q = load h p >>= λ m. ok (write h p (record m { next = q }))

unfoldable pub set_prev : Heap → ℕ → ℕ → Run Heap
set_prev h p q = load h p >>= λ m. ok (write h p (record m { prev = q }))

-- `if (p) p->prev = q;`
unfoldable pub set_prev_if : Heap → ℕ → ℕ → Run Heap
unfolding set_prev
set_prev_if h p q = if p == 0 then ok h else set_prev h p q

-- `if (p) p->next = q;`
unfoldable pub set_next_if : Heap → ℕ → ℕ → Run Heap
unfolding set_next
set_next_if h p q = if p == 0 then ok h else set_next h p q

unfoldable pub clear_links : Heap → ℕ → Run Heap
clear_links h p = load h p >>= λ m. ok (write h p (record m { next = 0; prev = 0 }))

-- `while (iter && block > iter)`: where the block belongs, between `prev` and `iter`.
unfoldable pub walk : (fuel : ℕ) → Heap → (block prev iter : ℕ) → Run (ℕ × ℕ)
walk zero h block prev iter = fault
walk (suc fuel) h block prev iter = elim (not (iter == 0) && ltb iter block) [
  | true ↦ load h iter >>= λ m. walk fuel h block iter m.next
  | false ↦ ok (prev, iter)
]

-- The end of `insertBlock`, with the places that the loop found.
unfoldable pub link_between : Heap → (head block prev iter : ℕ) → Run (Heap × ℕ)
unfolding set_next set_prev set_prev_if
link_between h head block prev iter =
    if prev == 0
    then (set_next h block head >>= λ h1.
        set_prev h1 head block >>= λ h2. set_prev h2 block 0 >>= λ h3. ok (h3, block))
    else (set_next h block iter >>= λ h1. set_prev h1 block prev >>= λ h2.
        set_next h2 prev block >>= λ h3. set_prev_if h3 iter block >>= λ h4. ok (h4, head))

-- `insertBlock` on the list with this `head`.
unfoldable pub insert_block : (fuel : ℕ) → Heap → (head block : ℕ) → Run (Heap × ℕ)
unfolding walk link_between clear_links
insert_block fuel h head block =
    if block == 0
    then ok (h, head)
    else if head == 0
    then (clear_links h block >>= λ h'. ok (h', block))
    else (walk fuel h block 0 head >>= λ (prev, iter). link_between h head block prev iter)

-- `removeFirst`: the new head, and the block.
unfoldable pub remove_first : Heap → (head : ℕ) → Run (Heap × ℕ × ℕ)
unfolding set_prev_if clear_links
remove_first h head =
    if head == 0
    then ok (h, head, 0)
    else (load h head >>= λ m.
        set_prev_if h m.next 0 >>= λ h1. clear_links h1 head >>= λ h2. ok (h2, m.next, head))

-- The end of `removeBlock`, for a block that is not the first.
unfoldable pub unlink : Heap → (block : ℕ) → Run Heap
unfolding set_next_if set_prev_if clear_links
unlink h block = load h block >>= λ m. set_next_if h m.prev m.next >>= λ h1.
    set_prev_if h1 m.next m.prev >>= λ h2. clear_links h2 block

-- `removeBlock`
unfoldable pub remove_block : Heap → (head block : ℕ) → Run (Heap × ℕ × ℕ)
unfolding remove_first unlink
remove_block h head block =
    if block == 0
    then ok (h, head, 0)
    else if block == head
    then remove_first h head
    else (unlink h block >>= λ h'. ok (h', head, block))
