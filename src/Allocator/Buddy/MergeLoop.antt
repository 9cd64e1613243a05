-- ===== src/Allocator/Buddy/MergeLoop.antt =====
-- The loop of `attemptFreeBuddyMerge` of malloc_3.cpp.
use operating_systems_course.Prelude.{
  ℕ, zero, suc, ◌+◌, ◌-◌, ◌≤◌, ◌<◌, ◌≡◌, refl, true, some, ◌==◌, if◌then◌else◌, arith, has, length,
  ap, sym, ◌∙◌, inl, inr, Bool-cases, eqb→eq, ne→eqb,
}
use operating_systems_course.Server.Run.{ok, Returns, mono, same, returns_at, value_of}
use operating_systems_course.Allocator.{MetaData, block_size, max_block_order}
use operating_systems_course.Allocator.Links.Chain.{member}
use operating_systems_course.Allocator.Buddy.{Tracker, find_buddy, merge_once, merge_loop}
use operating_systems_course.Allocator.Buddy.Sizes.{payload, block_size-ge, block_size-suc}
use operating_systems_course.Allocator.Buddy.Grid.{
  IsAligned, IsBuddy, right, left, find_buddy-IsBuddy,
}
use operating_systems_course.Allocator.Buddy.Tiling.{Tiled, buddy_block, block_pos, header}
use operating_systems_course.Allocator.Buddy.Tiles.{joined-Tiled}
use operating_systems_course.Allocator.Buddy.Invariant.{Blocks, In, Inv}
use operating_systems_course.Allocator.Buddy.Change.{has-with_free}
use operating_systems_course.Allocator.Buddy.Drop.{drop_free}
use operating_systems_course.Allocator.Buddy.Merge.{lower}
use operating_systems_course.Allocator.Buddy.Join.{Adjacent, joined, IsJoined, merge_once-Inv}
use operating_systems_course.Allocator.Buddy.MergeStep.{
  payload-injective, goes_on, merge_loop-stop, merge_loop-go,
}

-- What the loop leaves, where it started with the free block of order `k` at `cur`: the blocks that
-- are handed out are the same, the heap is tiled, and the block that it returns is free and holds
-- that at `cur`.
pub record IsMerged (base : ℕ) (B : Blocks) (k cur : ℕ) (out : Tracker × ℕ) : Type 0 where
  pub blocks : Blocks
  pub inv : Inv blocks out.0
  pub tiled : Tiled base blocks
  pub live : blocks.live ≡ B.live
  pub order : ℕ
  pub free : has out.1 (blocks.free order) ≡ true
  pub spans : (out.1 ≤ cur) × (cur + block_size k ≤ out.1 + block_size order)

pub unmerged-IsMerged :
    (base : ℕ) (t : Tracker) (cur : ℕ) (B : Blocks) (k : ℕ)
    → Inv B t
    → Tiled base B
    → has cur (B.free k) ≡ true
    → IsMerged base B k cur (t, cur)
unmerged-IsMerged base t cur B k inv tiled cur_free = record {
  blocks = B;
  inv = inv;
  tiled = tiled;
  live = refl;
  order = k;
  free = cur_free;
  spans = omega arith;
}

-- The fuel for the rounds that are left, and for the lists of the higher orders.
abbrev pub HasFuel : Blocks → (k target fuel : ℕ) → Type 0
HasFuel B k target fuel =
    (target - k < fuel) × ((j : ℕ) → k < j → length (B.free j) + (target - k) < fuel)

module _ (base : ℕ) (base_pos : 0 < base) (base_on : IsAligned (block_size max_block_order) base)
    (target : ℕ) (le : target ≤ max_block_order) where
  joined_fuel :
      (B : Blocks) (k a b fuel : ℕ)
      → k < target
      → HasFuel B k target (suc fuel)
      → HasFuel (joined B k a b) (suc k) target fuel
  joined_fuel B k a b fuel lt (rounds, lists) = (
    omega arith,
    λ j above.
        rw (ne→eqb j (suc k) (λ e. absurd (omega arith)), ne→eqb j k (λ e. absurd (omega arith)))
          (omega (arith, lists j (omega arith))),
  )

  -- At the wanted order the loop ends.
  at_target :
      (fuel : ℕ) (t : Tracker) (order current buddy final : ℕ)
      → 0 < fuel
      → order == target ≡ true
      → 0 < current
      → 0 < buddy
      → (m : MetaData) × (t.heap current ≡ some m)
      → (m : MetaData) × (t.heap buddy ≡ some m)
      → merge_loop fuel t target order current buddy final ≡ ok (t, final)
  at_target zero t order current buddy final room here cp bp h1 h2 = absurd (omega arith)
  at_target (suc fuel) t order current buddy final room here cp bp (m, e) (mb, f) =
      merge_loop-stop fuel t target order current buddy final mb m bp cp f e (ground arith)

  module _ (B : Blocks) (t : Tracker) (k cur : ℕ) (inv : Inv B t) (tiled : Tiled base B)
      (cur_free : has cur (B.free k) ≡ true) (lt : k < target) where
    abbrev bud : ℕ
    bud = find_buddy cur (payload k)

    buddies : IsBuddy k cur bud
    buddies = find_buddy-IsBuddy k cur (tiled.aligned k cur (inl cur_free))

    adjacent : Adjacent k cur bud
    adjacent = elim buddies [ right on e ↦ inl e | left on e ↦ inr e ]

    next-Tiled : has bud (B.free k) ≡ true → Tiled base (joined B k cur bud)
    next-Tiled bud_free =
        joined-Tiled base B k cur bud (omega arith) (inl cur_free) (inl bud_free) buddies tiled

    -- What is merged from the joined block is merged from this one.
    outer-IsMerged :
        (out : Tracker × ℕ)
        → IsMerged base (joined B k cur bud) (suc k) (lower cur bud) out
        → IsMerged base B k cur out
    outer-IsMerged out d = record {
      blocks = d.blocks;
      inv = d.inv;
      tiled = d.tiled;
      live = d.live;
      order = d.order;
      free = d.free;
      spans = ground (arith, d.spans, adjacent, block_size-suc k, block_size-ge k);
    }

    -- A test that the loop passes means that the buddy is a free block of the same order.
    buddy_free :
        (mb m : MetaData) (j : ℕ)
        → goes_on mb m k target ≡ true
        → m.size ≡ payload k
        → mb.size ≡ payload j
        → (mb.is_free ≡ true → has bud (B.free j) ≡ true)
        → has bud (B.free k) ≡ true
    buddy_free mb m j go at_cur at_bud free =
        let is_free : mb.is_free ≡ true = ground arith in
        let sizes : m.size ≡ mb.size = ground (arith, rw is_free at go, eqb→eq m.size mb.size) in
        let e : k ≡ j = payload-injective k j (sym at_cur ∙ sizes ∙ at_bud) in
        ap (λ x. has bud (B.free x)) e ∙ free is_free

    -- One round, to the loop on the joined block.
    round :
        (fuel : ℕ) (mb m : MetaData)
        → goes_on mb m k target ≡ true
        → t.heap bud ≡ some mb
        → t.heap cur ≡ some m
        → 0 < bud
        → has bud (B.free k) ≡ true
        → length (B.free (suc k)) < fuel
        → (t' : Tracker) × IsJoined B k cur bud (t', suc k, lower cur bud)
          × (merge_loop (suc fuel) t target k cur bud cur
              ≡ merge_loop fuel t' target
                  (suc k)
                  (if suc k == target then cur else lower cur bud)
                  (if suc k == target then bud else find_buddy (lower cur bud) (payload (suc k)))
                  (lower cur bud))
    round fuel mb m go at_bud at_cur bud_pos bud_free room =
        let ((t', order, merged), runs, jn) =
          value_of
            (merge_once-Inv fuel B t k cur bud inv (omega arith) cur_free bud_free adjacent room) in
        let low = lower cur bud in
        let e : merge_once fuel t k cur bud ≡ ok (t', suc k, low) =
          runs ∙ ap (λ x. ok (t', x, merged)) jn.order ∙ ap (λ x. ok (t', suc k, x)) jn.merged in
        let (q, r, at_low) =
          member (payload (suc k)) t'.heap 0 (t'.heads (suc k)) low
            ((joined B k cur bud).free (suc k)) (jn.inv.lists (suc k))
            (has-with_free (drop_free (drop_free B k cur) k bud) (suc k) low) in
        let low_pos : 0 < low =
          block_pos base base_pos (joined B k cur bud) (suc k) low (next-Tiled bud_free)
            (inl (has-with_free (drop_free (drop_free B k cur) k bud) (suc k) low)) in
        (
          t',
          record { inv = jn.inv; order = refl; merged = refl; there = jn.there },
          merge_loop-go fuel t target k cur bud cur mb m bud_pos
              (block_pos base base_pos B k cur tiled (inl cur_free)) at_bud at_cur t' low
              (payload (suc k)) q r go e low_pos at_low,
        )

  -- The loop on a free block of an order below the wanted one, with fuel for its rounds and lists,
  -- returns; it merges the block with its buddies as far as these are free.
  pub merge_loop-IsMerged :
      (fuel : ℕ) (B : Blocks) (t : Tracker) (k cur : ℕ)
      → Inv B t
      → Tiled base B
      → has cur (B.free k) ≡ true
      → k < target
      → HasFuel B k target fuel
      → Returns
          (IsMerged base B k cur)
          (merge_loop fuel t target k cur (find_buddy cur (payload k)) cur)
  merge_loop-IsMerged zero B t k cur inv tiled cur_free lt (rounds, lists) = absurd (omega arith)
  merge_loop-IsMerged (suc fuel) B t k cur inv tiled cur_free lt (rounds, lists) =
      let p = find_buddy cur (payload k) in
      let cur_in : In B k cur = inl cur_free in
      let (j, small, p_in) = buddy_block base B t inv tiled base_on k cur (omega arith) cur_in in
      let (mb, at_bud, size_b, free_b) = header B t j p inv p_in in
      let (m, at_cur, size_c, free_c) = header B t k cur inv cur_in in
      let bud_pos = block_pos base base_pos B j p tiled p_in in
      let cur_pos = block_pos base base_pos B k cur tiled cur_in in
      elim (Bool-cases (goes_on mb m k target)) [
        | inr stop ↦
            returns_at
              (merge_loop-stop fuel t target k cur p cur mb m bud_pos cur_pos at_bud at_cur stop)
              (unmerged-IsMerged base t cur B k inv tiled cur_free)
        | inl go ↦
            let p_free =
              buddy_free B t k cur inv tiled cur_free lt mb m j go size_c size_b free_b in
            let (t', jn, e) =
              round B t k cur inv tiled cur_free lt fuel mb m go at_bud at_cur bud_pos p_free
                (omega (arith, lists (suc k) (omega arith))) in
            let low_free =
              has-with_free (drop_free (drop_free B k cur) k p) (suc k) (lower cur p) in
            let tiled' = next-Tiled B t k cur inv tiled cur_free lt p_free in
            mono
              (same e (elim (Bool-cases (suc k == target)) [
                | inr n ↦ rw n (
                    merge_loop-IsMerged fuel (joined B k cur p) t' (suc k) (lower cur p) jn.inv
                      tiled' low_free (ground arith)
                      (joined_fuel B k cur p fuel lt (rounds, lists)))
                | inl last ↦ rw last (
                    returns_at
                      (at_target fuel t' (suc k) cur p (lower cur p) (omega arith) last cur_pos
                        bud_pos (jn.there cur (inl refl)) (jn.there p (inr refl)))
                      (unmerged-IsMerged base t' (lower cur p) (joined B k cur p) (suc k) jn.inv
                        tiled' low_free))
              ]))
              (outer-IsMerged B t k cur inv tiled cur_free lt)
      ]
