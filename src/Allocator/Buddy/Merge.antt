-- ===== src/Allocator/Buddy/Merge.antt =====
-- Two free buddies become one block: `mergeBuddyBlocks` of malloc_3.cpp.
use operating_systems_course.Prelude.{
  ℕ, suc, ◌+◌, ◌*◌, ◌≤◌, ◌<◌, ◌≡◌, refl, true, not, ◌||◌, some, ◌==◌, ltb, if◌then◌else◌, arith, ap,
  ◌∙◌, inl, inr, Bool-cases, eqb→eq, eq→eqb, if_true, if_false,
}
use operating_systems_course.Server.Run.{ok, step}
use operating_systems_course.Allocator.{Heap, block_size, meta_size, max_block_order, write}
use operating_systems_course.Allocator.Links.Chain.{linked, load-some}
use operating_systems_course.Allocator.Buddy.{index, block_order, merge_buddy_blocks}
use operating_systems_course.Allocator.Buddy.Sizes.{
  payload, block_size-ge, block_size-suc, block_size_mono, fitting_order-IsLeast,
}

-- The order of a header is the order of its block.
pub block_order-payload : (k : ℕ) → k ≤ max_block_order → block_order (payload k) ≡ some k
unfolding block_order
block_order-payload k le =
    let full = payload k + meta_size in
    let e : full ≡ block_size k = omega (arith, block_size-ge k) in
    let (j, runs, least, _) =
      fitting_order-IsLeast max_block_order 0 full
        (omega (arith, e, block_size_mono k max_block_order le)) in
    runs ∙ ap some (order_unique j least.fits least.least)
  where
    order_unique :
        (j : ℕ)
        → payload k + meta_size ≤ block_size j
        → ((i : ℕ) → 0 ≤ i → i < j → block_size i < payload k + meta_size)
        → j ≡ k
    order_unique j fits least = elim (Bool-cases (j == k)) [
      | inl here ↦ eqb→eq j k here
      | inr n ↦ elim (Bool-cases (ltb j k)) [
        | inl below ↦ absurd (
            omega (
              arith,
              fits,
              block_size-ge k,
              block_size-ge j,
              block_size-suc j,
              block_size_mono (suc j) k (ground arith),
            ))
        | inr above ↦ absurd (omega (arith, least k (omega arith) (ground arith), block_size-ge k))
      ]
    ]

-- The block of the lower address.
abbrev pub lower : ℕ → ℕ → ℕ
lower a b = if ltb a b then a else b

module _ (h : Heap) (k a b : ℕ) (lt : k < max_block_order) (a_pos : 0 < a) (b_pos : 0 < b)
    (at_a : h a ≡ some (linked (payload k) 0 0)) (at_b : h b ≡ some (linked (payload k) 0 0)) where
  lower_pos : 0 < lower a b
  lower_pos = ground arith

  lower_at : h (lower a b) ≡ some (linked (payload k) 0 0)
  lower_at = elim (Bool-cases (ltb a b)) [ inl below ↦ rw below at_a | inr above ↦ rw above at_b ]

  double : payload k * 2 + meta_size ≡ payload (suc k)
  double = omega (arith, block_size-ge k, block_size-suc k)

  same_size : (payload k == payload k) ≡ true
  same_size = eq→eqb (payload k) (payload k) refl

  -- Two free headers of an order below the highest merge into one of the next order, at the lower
  -- address.
  pub merge_buddy_blocks-run :
      merge_buddy_blocks h a b ≡ ok (write h (lower a b) (linked (payload (suc k)) 0 0), lower a b)
  unfolding merge_buddy_blocks
  merge_buddy_blocks-run =
      if_false (a == 0 || b == 0) _ _ (ground arith)
      ∙ step _ (load-some h a (linked (payload k) 0 0) a_pos at_a)
      ∙ step _ (load-some h b (linked (payload k) 0 0) b_pos at_b)
      ∙ if_false (not (payload k == payload k)) _ _ (ground (arith, same_size))
      ∙ step _ (ap index (block_order-payload k (omega arith)))
      ∙ if_true (not (k == max_block_order)) _ _ (ground arith)
      ∙ step _ (load-some h (lower a b) (linked (payload k) 0 0) lower_pos lower_at)
      ∙ ap (λ s. ok (write h (lower a b) (linked s 0 0), lower a b)) double
