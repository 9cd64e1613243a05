-- ===== src/Allocator/Buddy/Room.antt =====
-- How many free blocks the heap of malloc_3.cpp has at most.
use operating_systems_course.Prelude.{
  ℕ, ◌+◌, ◌*◌, ◌≤◌, ◌≡◌, refl, true, List, [], ◌∷◌, arith, has, length, inl, eq→eqb,
}
use operating_systems_course.Allocator.{Heap, block_size}
use operating_systems_course.Allocator.Links.Chain.{Chain, in_above}
use operating_systems_course.Allocator.Buddy.{Tracker}
use operating_systems_course.Allocator.Buddy.Sizes.{payload, block_size_mono}
use operating_systems_course.Allocator.Buddy.Grid.{IsAligned, IsAligned-finer, grid_lt}
use operating_systems_course.Allocator.Buddy.Tiling.{Tiled, heap_size}
use operating_systems_course.Allocator.Buddy.Invariant.{Blocks, Inv}

least_size : block_size 0 ≡ 128
unfolding block_size
least_size = refl

-- The blocks of a chain of addresses on the grid of the smallest blocks have their room.
chain_room :
    (s : ℕ) (h : Heap) (lim pv p lo : ℕ) (xs : List ℕ)
    → lo ≤ lim
    → Chain s h pv p xs
    → ((a : ℕ) → has a xs ≡ true → IsAligned (block_size 0) a × (lo ≤ a) × (a + 128 ≤ lim))
    → length xs * 128 + lo ≤ lim
chain_room s h lim pv p lo [] le c all = omega arith
chain_room s h lim pv p lo (x ∷ xs) le (e, lt, (q, at_x, c)) all =
    let (x_on, x_lo, x_hi) = all x (ground (arith, eq→eqb x x refl)) in
    omega (
      arith,
      chain_room s h lim x q (x + 128) xs x_hi c λ a a_in.
          let (a_on, a_lo, a_hi) = all a (ground arith) in
          (
            a_on,
            omega (
              arith,
              least_size,
              grid_lt (block_size 0) x a x_on a_on (in_above s h x q a xs c a_in),
            ),
            a_hi,
          ),
    )

-- A list of the table has at most as many blocks as the heap has of the smallest.
pub free_count :
    (base : ℕ) (B : Blocks) (t : Tracker)
    → Inv B t
    → Tiled base B
    → (j : ℕ) → length (B.free j) ≤ 32768
free_count base B t inv tiled j = omega (
  arith,
  chain_room (payload j) t.heap (base + heap_size) 0 (t.heads j) base (B.free j) (omega arith)
      (inv.lists j)
      λ a a_in.
        let (lo, hi) = tiled.within j a (inl a_in) in
        (
          IsAligned-finer 0 j a (omega arith) (tiled.aligned j a (inl a_in)),
          lo,
          omega (arith, hi, least_size, block_size_mono 0 j (omega arith)),
        ),
)
