-- ===== src/Allocator/Buddy/Tiling.antt =====
-- The blocks tile the heap, and where the buddy of a block lies: malloc_3.cpp.
use operating_systems_course.Prelude.{
  ℕ, suc, ◌+◌, ◌*◌, ◌≤◌, ◌<◌, ◌≡◌, refl, true, arith, inl, inr, Bool-cases, ltb, has, some,
}
use operating_systems_course.Allocator.{MetaData, block_size, max_block_order}
use operating_systems_course.Allocator.Links.Chain.{linked, member}
use operating_systems_course.Allocator.Buddy.{Tracker, find_buddy}
use operating_systems_course.Allocator.Buddy.Sizes.{payload, block_size-ge}
use operating_systems_course.Allocator.Buddy.Grid.{
  IsAligned, IsAligned-next, IsAligned-finer, cell_within, grid_le, grid_lt, find_buddy-IsBuddy,
  IsPair, IsBuddy-IsPair,
}
use operating_systems_course.Allocator.Buddy.Invariant.{Blocks, In, busy, Inv}

-- The blocks that `initHeap` makes, in bytes.
abbrev pub heap_size : ℕ
heap_size = 4194304

-- The heap of `heap_size` bytes at `base` consists of the blocks; each is aligned to its size.
pub record Tiled (base : ℕ) (B : Blocks) : Type 0 where
  pub order : (k a : ℕ) → In B k a → k ≤ max_block_order
  pub aligned : (k a : ℕ) → In B k a → IsAligned (block_size k) a
  pub within : (k a : ℕ) → In B k a → (base ≤ a) × (a + block_size k ≤ base + heap_size)
  pub covered :
      (x : ℕ)
      → base ≤ x
      → x < base + heap_size
      → (j : ℕ) × (c : ℕ) × In B j c × (c ≤ x) × (x < c + block_size j)

heap_blocks : heap_size ≡ 32 * block_size max_block_order
unfolding block_size
heap_blocks = refl

-- The heap does not start at the null pointer.
pub block_pos : (base : ℕ) → 0 < base → (B : Blocks) (k a : ℕ) → Tiled base B → In B k a → 0 < a
block_pos base base_pos B k a tiled a_in = omega (arith, tiled.within k a a_in)

-- The header of a block.
pub header :
    (B : Blocks) (t : Tracker) (j c : ℕ)
    → Inv B t
    → In B j c
    → (m : MetaData) × (t.heap c ≡ some m)
      × (m.size ≡ payload j)
      × (m.is_free ≡ true → has c (B.free j) ≡ true)
header B t j c inv (inl c_free) =
    let (q, r, e) = member (payload j) t.heap 0 (t.heads j) c (B.free j) (inv.lists j) c_free in
    (linked (payload j) q r, e, refl, λ z. c_free)
header B t j c inv (inr c_live) =
    let (q, r, e) = inv.held j c c_live in (busy (payload j) q r, e, refl, λ z. absurd (cc))

module _ (base : ℕ) (B : Blocks) (t : Tracker) (inv : Inv B t) (tiled : Tiled base B)
    (base_on : IsAligned (block_size max_block_order) base) (k a : ℕ) (lt : k < max_block_order)
    (a_in : In B k a) where
  abbrev p : ℕ
  p = find_buddy a (payload k)

  a_on : IsAligned (block_size k) a
  a_on = tiled.aligned k a a_in

  -- The two lie in the heap.
  pair_within : (u : ℕ) → IsPair k a p u → (base ≤ u) × (u + block_size (suc k) ≤ base + heap_size)
  pair_within u pair =
      let T = block_size (suc k) in
      let top = block_size max_block_order in
      let (lo, hi) = tiled.within k a a_in in
      let next : IsAligned top (base + 32 * top) = IsAligned-next top base 32 base_on in
      let base_on' = IsAligned-finer (suc k) max_block_order base (omega arith) base_on in
      let end_on = IsAligned-finer (suc k) max_block_order (base + 32 * top) (omega arith) next in
      (
        grid_le T base u base_on' pair.parent (omega (arith, pair.first_in, block_size-ge k)),
        omega (
          arith,
          heap_blocks,
          grid_lt T u (base + 32 * top) pair.parent end_on
              (omega (arith, pair.first_in, heap_blocks, block_size-ge k)),
        ),
      )

  -- What covers the buddy's address is not larger than the block, and starts there.
  at_buddy :
      (u : ℕ)
      → IsPair k a p u
      → (j c : ℕ) → In B j c
      → c ≤ p
      → p < c + block_size j
      → (j ≤ k) × (c ≡ p)
  at_buddy u pair j c c_in lo hi = elim (Bool-cases (ltb k j)) [
    | inr small ↦
        let le : j ≤ k = ground arith in
        (
          le,
          omega (
            arith,
            grid_le (block_size j) p c (IsAligned-finer j k p le pair.buddy)
                (tiled.aligned j c c_in) hi,
          ),
        )
    | inl large ↦
        let (below, above) =
          cell_within (suc k) j u p c (ground arith) pair.parent (tiled.aligned j c c_in)
            (pair.buddy_in.0) (omega (arith, pair.buddy_in, block_size-ge k)) lo hi in
        absurd (
          ground
            (arith, inv.apart k a j c a_in c_in, pair.first_in, block_size-ge k, block_size-ge j))
  ]

  -- Where the buddy of a block lies, there is a block of the same order or a smaller one.
  pub buddy_block : (j : ℕ) × (j ≤ k) × In B j p
  buddy_block =
      let (u, pair) = IsBuddy-IsPair k a p a_on (find_buddy-IsBuddy k a a_on) in
      let (lo, hi) = pair_within u pair in
      let (j, c, c_in, le, lt') =
        tiled.covered p (omega (arith, pair.buddy_in))
          (omega (arith, pair.buddy_in, block_size-ge k)) in
      let (small, e) = at_buddy u pair j c c_in le lt' in (j, small, rw (← e) c_in)
