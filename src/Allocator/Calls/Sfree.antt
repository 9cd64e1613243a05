-- ===== src/Allocator/Calls/Sfree.antt =====
-- `sfree` of malloc_3.cpp keeps the invariant and the tiling.
use operating_systems_course.Prelude.{
  ℕ, ◌+◌, ◌-◌, ◌≤◌, ◌<◌, ◌≡◌, ◌≢◌, refl, true, false, some, ◌==◌, ltb, if◌then◌else◌, arith, has,
  length, ap, ◌∙◌, if_false, inl, inr, Bool-cases, eqb→eq, eqb→ne, ne→eqb,
}
use operating_systems_course.Server.Run.{ok, ◌>>=◌, Returns, returns, bind, step, same}
use operating_systems_course.Allocator.{MetaData, block_size, meta_size, max_block_order}
use operating_systems_course.Allocator.Links.Chain.{linked, load-some, member}
use operating_systems_course.Allocator.Buddy.{
  Tracker, index, insert_free, find_buddy, merge_loop, attempt_free_buddy_merge,
}
use operating_systems_course.Allocator.Buddy.Sizes.{payload, block_size-ge, block_size_mono}
use operating_systems_course.Allocator.Buddy.Grid.{IsAligned}
use operating_systems_course.Allocator.Buddy.Tiling.{Tiled, buddy_block, block_pos, header}
use operating_systems_course.Allocator.Buddy.Tiles.{released-Tiled}
use operating_systems_course.Allocator.Buddy.Invariant.{Blocks, In, busy, Inv}
use operating_systems_course.Allocator.Buddy.Change.{has-with_free}
use operating_systems_course.Allocator.Buddy.Merge.{block_order-payload}
use operating_systems_course.Allocator.Buddy.MergeLoop.{
  IsMerged, HasFuel, merge_loop-IsMerged, unmerged-IsMerged,
}
use operating_systems_course.Allocator.Buddy.Release.{
  drop_live, freed, released, insert_free-released,
}
use operating_systems_course.Allocator.Calls.{Os, mmap_min_limit, free_block, sfree}

top_size : block_size max_block_order ≡ mmap_min_limit
unfolding block_size
top_size = refl

module _ (fuel : ℕ) (os : Os) (t : Tracker) (k b q r : ℕ) (le : k ≤ max_block_order) (pos : 0 < b)
    (at_b : t.heap b ≡ some (busy (payload k) q r)) where
  small : ltb mmap_min_limit (payload k + meta_size) ≡ false
  small = ground (arith, block_size_mono k max_block_order le, top_size, block_size-ge k)

  free_block-insert : free_block fuel os t b ≡ (
      insert_free fuel (freed t b (busy (payload k) q r)) k b >>= λ t1.
      attempt_free_buddy_merge fuel t1 b max_block_order >>= λ (t2, merged). ok t2)
  unfolding free_block
  free_block-insert =
      step _ (load-some t.heap b (busy (payload k) q r) pos at_b)
      ∙ if_false (ltb mmap_min_limit (payload k + meta_size)) _ _ small
      ∙ step _ (ap index (block_order-payload k le))

  -- What `sfree` does with a block of the table: it marks the block, puts it into the list of its
  -- order, and tries to merge it.
  pub sfree-insert : sfree fuel os t (b + meta_size) ≡ (
      insert_free fuel (freed t b (busy (payload k) q r)) k b >>= λ t1.
      attempt_free_buddy_merge fuel t1 b max_block_order >>= λ (t2, merged). ok t2)
  unfolding sfree
  sfree-insert =
      let same_b : b + meta_size - meta_size ≡ b = omega arith in
      if_false (b + meta_size == 0) _ _ (ground arith)
      ∙ ap (free_block fuel os t) same_b
      ∙ free_block-insert

-- A block of the highest order is not merged.
attempt-top :
    (fuel : ℕ) (t : Tracker) (b n p : ℕ)
    → 0 < b
    → t.heap b ≡ some (linked (payload max_block_order) n p)
    → attempt_free_buddy_merge fuel t b max_block_order ≡ ok (t, 0)
unfolding attempt_free_buddy_merge
attempt-top fuel t b n p pos at_b =
    if_false (b == 0) _ _ (ground arith)
    ∙ step _ (load-some t.heap b (linked (payload max_block_order) n p) pos at_b)
    ∙ step _ (ap index (block_order-payload max_block_order (omega arith)))

-- The header that `member` finds, for the free block `b`.
free_header :
    (B : Blocks) (t : Tracker) (k b : ℕ)
    → Inv B t
    → has b (B.free k) ≡ true
    → (q : ℕ) × (r : ℕ) × (t.heap b ≡ some (linked (payload k) q r))
free_header B t k b inv b_free =
    member (payload k) t.heap 0 (t.heads k) b (B.free k) (inv.lists k) b_free

module _ (fuel : ℕ) (t : Tracker) (k target b n p : ℕ) (mb : MetaData) (le : k ≤ max_block_order)
    (pos : 0 < b) (at_b : t.heap b ≡ some (linked (payload k) n p)) (below : k ≢ target)
    (buddy_pos : 0 < find_buddy b (payload k))
    (at_buddy : t.heap (find_buddy b (payload k)) ≡ some mb) where
  -- A lower block is merged if the header of its buddy has the same size.
  attempt-loop : attempt_free_buddy_merge fuel t b target ≡ (
      if payload k == mb.size
      then merge_loop fuel t target k b (find_buddy b (payload k)) b
      else ok (t, b))
  unfolding attempt_free_buddy_merge
  attempt-loop =
      if_false (b == 0) _ _ (ground arith)
      ∙ step _ (load-some t.heap b (linked (payload k) n p) pos at_b)
      ∙ step _ (ap index (block_order-payload k le))
      ∙ if_false (k == target) _ _ (ne→eqb k target below)
      ∙ step _ (load-some t.heap (find_buddy b (payload k)) mb buddy_pos at_buddy)

module _ (base : ℕ) (base_pos : 0 < base)
    (base_on : IsAligned (block_size max_block_order) base) where
  -- `attemptFreeBuddyMerge` up to the order `target`, on a free block of a lower order.
  pub attempt-IsMerged :
      (fuel target : ℕ) (B : Blocks) (t : Tracker) (k b : ℕ)
      → target ≤ max_block_order
      → Inv B t
      → Tiled base B
      → has b (B.free k) ≡ true
      → k < target
      → HasFuel B k target fuel
      → Returns (IsMerged base B k b) (attempt_free_buddy_merge fuel t b target)
  attempt-IsMerged fuel target B t k b le inv tiled b_free lt room =
      let b_in : In B k b = inl b_free in
      let bud = find_buddy b (payload k) in
      let (n, p, at_b) = free_header B t k b inv b_free in
      let (j, small, p_in) = buddy_block base B t inv tiled base_on k b (omega arith) b_in in
      let (mb, at_bud, size_b, free_b) = header B t j bud inv p_in in
      same
        (attempt-loop fuel t k target b n p mb (omega arith)
          (block_pos base base_pos B k b tiled b_in) at_b (λ e. omega arith)
          (block_pos base base_pos B j bud tiled p_in) at_bud)
        (elim (Bool-cases (payload k == mb.size)) [
          | inl equal ↦ rw equal (
              merge_loop-IsMerged base base_pos base_on target le fuel B t k b inv tiled b_free lt
                room)
          | inr differ ↦ rw differ (returns (unmerged-IsMerged base t b B k inv tiled b_free))
        ])

-- The block at `b` of order `k`, handed out before, lies in a free block now. The others that were
-- handed out still are, and no others; the invariant holds and the heap is tiled.
pub record IsFreed (base : ℕ) (B : Blocks) (k b : ℕ) (t : Tracker) : Type 0 where
  pub blocks : Blocks
  pub inv : Inv blocks t
  pub tiled : Tiled base blocks
  pub live : blocks.live ≡ (drop_live B k b).live
  pub order : ℕ
  pub block : ℕ
  pub free : has block (blocks.free order) ≡ true
  pub spans : (block ≤ b) × (b + block_size k ≤ block + block_size order)

merged-IsFreed :
    (base : ℕ) (B : Blocks) (k b : ℕ) (out : Tracker × ℕ)
    → IsMerged base (released B k b) k b out
    → IsFreed base B k b out.0
merged-IsFreed base B k b out d = record {
  blocks = d.blocks;
  inv = d.inv;
  tiled = d.tiled;
  live = d.live;
  order = d.order;
  block = out.1;
  free = d.free;
  spans = d.spans;
}

-- The fuel that `sfree` needs: for each list, and a round for each order.
abbrev pub HasRoom : Blocks → (fuel : ℕ) → Type 0
HasRoom B fuel = (j : ℕ) → length (B.free j) + max_block_order < fuel

released_fuel :
    (B : Blocks) (k b fuel : ℕ) → HasRoom B fuel → HasFuel (released B k b) k max_block_order fuel
released_fuel B k b fuel room = (
  omega (arith, room 0),
  λ j above. rw (ne→eqb j k (λ e. absurd (omega arith))) (omega (arith, room j)),
)

-- Where the invariant holds, the heap starts at an aligned address and the blocks tile it, and with
-- fuel above the length of each list and 10, `sfree` of a pointer behind the header of a block that is
-- handed out returns. The block then lies in a free block; the others that were handed out still are,
-- and no others; the invariant holds and the blocks tile the heap.
pub sfree-IsFreed :
    (fuel : ℕ) (os : Os) (base : ℕ) (B : Blocks) (t : Tracker) (k b : ℕ)
    → 0 < base
    → IsAligned (block_size max_block_order) base
    → Inv B t
    → Tiled base B
    → has b (B.live k) ≡ true
    → HasRoom B fuel
    → Returns (IsFreed base B k b) (sfree fuel os t (b + meta_size))
sfree-IsFreed fuel os base B t k b base_pos base_on inv tiled b_live room =
    let (q, r, at_b) = inv.held k b b_live in
    let le = tiled.order k b (inr b_live) in
    let pos = block_pos base base_pos B k b tiled (inr b_live) in
    let tiled' = released-Tiled base B k b b_live tiled in
    let b_free = has-with_free (drop_live B k b) k b in
    same (sfree-insert fuel os t k b q r le pos at_b) (
      bind (insert_free-released B t k b q r inv b_live fuel (omega (arith, room k)) pos)
        λ t1 (inv1, kept). elim (Bool-cases (k == max_block_order)) [
          | inl top ↦
              let e = eqb→eq k max_block_order top in
              let (n, p, at_1) = free_header (released B k b) t1 k b inv1 b_free in
              same
                (step _ (
                  attempt-top fuel t1 b n p pos (at_1 ∙ ap (λ x. some (linked (payload x) n p)) e)))
                (returns (
                  merged-IsFreed base B k b (t1, b)
                    (unmerged-IsMerged base t1 b (released B k b) k inv1 tiled' b_free)))
          | inr lower ↦
              bind
                (attempt-IsMerged base base_pos base_on fuel max_block_order (released B k b) t1 k b
                  (omega arith) inv1 tiled' b_free (omega (arith, eqb→ne k max_block_order lower))
                  (released_fuel B k b fuel room))
                λ out d. returns (merged-IsFreed base B k b out d)
        ])
