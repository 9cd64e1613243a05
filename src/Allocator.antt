-- ===== src/Allocator.antt =====
-- The buddy allocator of hw04-custom-memory-allocator/malloc_3.cpp.
--
-- The heap holds block headers: an address has the header that was written there, and a read of an
-- address with none, or through the null pointer, is a fault. Links is the list of free blocks of an
-- order, Buddy the table of these lists with the splitting and merging of blocks, and Calls are
-- `smalloc`, `scalloc`, `sfree` and `srealloc`; Client is a program that uses them, and FirstFit an
-- earlier allocator, that of stages/malloc_2.cpp.
pub mod Links
pub mod Buddy
pub mod Calls
pub mod Client
pub mod FirstFit
mod Tests
use operating_systems_course.Prelude.{
  ℕ, ◌+◌, ◌*◌, ◌^◌, Bool, Option, none, some, ◌==◌, if◌then◌else◌,
}
use operating_systems_course.Server.Run.{Run, ok, fault, ◌>>=◌}

-- `struct MallocMetadata`; pointers are addresses, and 0 is NULL.
pub record MetaData : Type 0 where
  pub size : ℕ
  pub is_free : Bool
  pub next : ℕ
  pub prev : ℕ

-- `sizeof(MetaData)`
abbrev pub meta_size : ℕ
meta_size = 32

abbrev pub max_block_order : ℕ
max_block_order = 10

-- `BLOCK_SIZE_BY_ORDER(order)`
unfoldable pub block_size : ℕ → ℕ
block_size order = 128 * 2 ^ order

abbrev pub Heap : Type 0
Heap = ℕ → Option MetaData

abbrev pub write : Heap → ℕ → MetaData → Heap
write h p m q = if q == p then some m else h q

abbrev pub found : Option MetaData → Run MetaData
found none = fault
found (some m) = ok m

-- A read of `*p`.
abbrev pub load : Heap → ℕ → Run MetaData
load h p = if p == 0 then fault else found (h p)
