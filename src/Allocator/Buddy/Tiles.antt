-- ===== src/Allocator/Buddy/Tiles.antt =====
-- Splitting, merging, handing out and freeing keep the heap tiled: malloc_3.cpp.
use operating_systems_course.Prelude.{
  ℕ, suc, ◌+◌, ◌≤◌, ◌<◌, ◌≡◌, true, List, [], ◌∷◌, arith, has, ap, ◌⊎◌, inl, inr, Bool-cases, ltb,
}
use operating_systems_course.Allocator.{block_size, max_block_order}
use operating_systems_course.Allocator.Buddy.Sizes.{block_size-suc, block_size-ge}
use operating_systems_course.Allocator.Buddy.Grid.{
  IsAligned, IsAligned-next, IsAligned-finer, IsBuddy, right, left,
}
use operating_systems_course.Allocator.Buddy.Tiling.{Tiled, heap_size}
use operating_systems_course.Allocator.Buddy.Invariant.{Blocks, In, split_blocks}
use operating_systems_course.Allocator.Buddy.Take.{hand_out}
use operating_systems_course.Allocator.Buddy.Change.{with_free-cases}
use operating_systems_course.Allocator.Buddy.Drop.{drop_free}
use operating_systems_course.Allocator.Buddy.Merge.{lower}
use operating_systems_course.Allocator.Buddy.Join.{joined}
use operating_systems_course.Allocator.Buddy.Release.{drop_live, released}
use operating_systems_course.Allocator.Buddy.Moves.{
  In-with_free, new-with_free, drop_free-old, drop_free-cases, drop_live-old, drop_live-cases,
  hand_out-old, In-hand_out, left-split_blocks, right-split_blocks, split_blocks-cases,
  split_blocks-old,
}

-- The same blocks, some of them free where they were not, or the other way round.
same-Tiled :
    (base : ℕ) (B B' : Blocks)
    → ((j a : ℕ) → In B' j a → In B j a)
    → ((j a : ℕ) → In B j a → In B' j a)
    → Tiled base B
    → Tiled base B'
same-Tiled base B B' old new tiled = record {
  order = λ k a a_in. tiled.order k a (old k a a_in);
  aligned = λ k a a_in. tiled.aligned k a (old k a a_in);
  within = λ k a a_in. tiled.within k a (old k a a_in);
  covered =
      λ x lo hi. let (j, c, c_in, le, lt) = tiled.covered x lo hi in (j, c, new j c c_in, le, lt);
}

pub hand_out-Tiled :
    (base : ℕ) (B : Blocks) (i b : ℕ) (rest : List ℕ)
    → B.free i ≡ b ∷ rest
    → Tiled base B
    → Tiled base (hand_out B i b rest)
hand_out-Tiled base B i b rest first =
    same-Tiled base B (hand_out B i b rest) (hand_out-old B i b rest first)
      (In-hand_out B i b rest first)

pub released-Tiled :
    (base : ℕ) (B : Blocks) (k b : ℕ)
    → has b (B.live k) ≡ true
    → Tiled base B
    → Tiled base (released B k b)
released-Tiled base B k b b_live =
    same-Tiled base B (released B k b)
      (λ j a a_in. elim (with_free-cases (drop_live B k b) k b j a a_in) [
        | inl (e, f) ↦ inr (rw (e, f) b_live)
        | inr old ↦ drop_live-old B k b j a old
      ])
      (λ j a a_in. elim (drop_live-cases B k b j a a_in) [
        | inl (e, f) ↦ rw (e, f) (new-with_free (drop_live B k b) k b)
        | inr kept ↦ In-with_free (drop_live B k b) k b j a kept
      ])

module _ (base : ℕ) (B : Blocks) (k b : ℕ) (rest : List ℕ) (first : B.free (suc k) ≡ b ∷ rest)
    (empty : B.free k ≡ []) (tiled : Tiled base B) where
  whole-In : In B (suc k) b
  whole-In = inl (rw first (ground arith))

  half :
      (j a : ℕ)
      → (j ≡ k) × ((a ≡ b) ⊎ (a ≡ b + block_size k))
      → (j ≤ max_block_order)
        × IsAligned (block_size j) a
        × (base ≤ a)
        × (a + block_size j ≤ base + heap_size)
  half j a (e, side) =
      let le = tiled.order (suc k) b whole-In in
      let (lo, hi) = tiled.within (suc k) b whole-In in
      let b_on = IsAligned-finer k (suc k) b (omega arith) (tiled.aligned (suc k) b whole-In) in
      elim side [
        | inl f ↦ rw (e, f) (omega arith, b_on, lo, omega (arith, block_size-suc k))
        | inr f ↦
            let (q, g) = IsAligned-next (block_size k) b 1 b_on in
            rw (e, f)
              (omega arith, (q, omega (arith, g)), omega arith, omega (arith, block_size-suc k))
      ]

  pub split-Tiled : Tiled base (split_blocks B k b rest)
  split-Tiled = record {
    order = λ j a a_in. elim (split_blocks-old B k b rest first empty j a a_in) [
      | inl part ↦ let (le, on, lo, hi) = half j a part in le
      | inr old ↦ tiled.order j a old
    ];
    aligned = λ j a a_in. elim (split_blocks-old B k b rest first empty j a a_in) [
      | inl part ↦ let (le, on, lo, hi) = half j a part in on
      | inr old ↦ tiled.aligned j a old
    ];
    within = λ j a a_in. elim (split_blocks-old B k b rest first empty j a a_in) [
      | inl part ↦ let (le, on, lo, hi) = half j a part in (lo, hi)
      | inr old ↦ tiled.within j a old
    ];
    covered = λ x lo hi.
        let (j, c, c_in, le, lt) = tiled.covered x lo hi in
        elim (split_blocks-cases B k b rest first empty j c c_in) [
          | inr kept ↦ (j, c, kept, le, lt)
          | inl (e, f) ↦ in_half x (omega (arith, f)) (rw (e, f) at lt)
        ];
  }
    where
      in_half :
          (x : ℕ)
          → b ≤ x
          → x < b + block_size (suc k)
          → (j : ℕ) × (c : ℕ) × In (split_blocks B k b rest) j c × (c ≤ x) × (x < c + block_size j)
      in_half x le lt = elim (Bool-cases (ltb x (b + block_size k))) [
        | inl near ↦ (k, b, left-split_blocks B k b rest first empty, le, ground arith)
        | inr far ↦ (
          k,
          b + block_size k,
          right-split_blocks B k b rest first empty,
          ground arith,
          omega (arith, block_size-suc k),
        )
      ]

module _ (base : ℕ) (B : Blocks) (k a b : ℕ) (lt : k < max_block_order) (a_in : In B k a)
    (b_in : In B k b) (buddies : IsBuddy k a b) (tiled : Tiled base B) where
  abbrev rest : Blocks
  rest = drop_free (drop_free B k a) k b

  old-joined : (j c : ℕ) → In (joined B k a b) j c → ((j ≡ suc k) × (c ≡ lower a b)) ⊎ In B j c
  old-joined j c c_in = elim (with_free-cases rest (suc k) (lower a b) j c c_in) [
    | inl new ↦ inl new
    | inr old ↦ inr (drop_free-old B k a j c (drop_free-old (drop_free B k a) k b j c old))
  ]

  In-joined : (j c : ℕ) → In B j c → ((j ≡ k) × ((c ≡ a) ⊎ (c ≡ b))) ⊎ In (joined B k a b) j c
  In-joined j c c_in = elim (drop_free-cases B k a j c c_in) [
    | inl (e, f) ↦ inl (e, inl f)
    | inr kept ↦ elim (drop_free-cases (drop_free B k a) k b j c kept) [
      | inl (e, f) ↦ inl (e, inr f)
      | inr kept' ↦ inr (In-with_free rest (suc k) (lower a b) j c kept')
    ]
  ]

  -- The joined block is the two.
  lower_span :
      IsAligned (block_size (suc k)) (lower a b)
      × (((lower a b ≡ a) × (b ≡ a + block_size k)) ⊎ ((lower a b ≡ b) × (a ≡ b + block_size k)))
  lower_span = span buddies
    where
      span :
          IsBuddy k a b
          → IsAligned (block_size (suc k)) (lower a b)
            × (((lower a b ≡ a) × (b ≡ a + block_size k))
                ⊎ ((lower a b ≡ b) × (a ≡ b + block_size k)))
      span (right on e) =
          let f : lower a b ≡ a = ground (arith, block_size-ge k) in (rw f on, inl (f, e))
      span (left on e) =
          let f : lower a b ≡ b = ground (arith, block_size-ge k) in (rw f on, inr (f, e))

  joined_within : (base ≤ lower a b) × (lower a b + block_size (suc k) ≤ base + heap_size)
  joined_within =
      let wa = tiled.within k a a_in in
      let wb = tiled.within k b b_in in
      elim lower_span.1 [
        | inl (f, g) ↦ rw f (omega (arith, block_size-suc k))
        | inr (f, g) ↦ rw f (omega (arith, block_size-suc k))
      ]

  in_either :
      (x c : ℕ)
      → (c ≡ a) ⊎ (c ≡ b)
      → c ≤ x
      → x < c + block_size k
      → (lower a b ≤ x) × (x < lower a b + block_size (suc k))
  in_either x c side le lt' = elim lower_span.1 [
    | inl (f, g) ↦ rw f (ground (arith, side, g, block_size-suc k))
    | inr (f, g) ↦ rw f (ground (arith, side, g, block_size-suc k))
  ]

  pub joined-Tiled : Tiled base (joined B k a b)
  joined-Tiled = record {
    order = λ j c c_in. elim (old-joined j c c_in) [
      | inl (e, f) ↦ omega arith
      | inr old ↦ tiled.order j c old
    ];
    aligned = λ j c c_in. elim (old-joined j c c_in) [
      | inl (e, f) ↦ rw (e, f) lower_span.0
      | inr old ↦ tiled.aligned j c old
    ];
    within = λ j c c_in. elim (old-joined j c c_in) [
      | inl (e, f) ↦ rw (e, f) joined_within
      | inr old ↦ tiled.within j c old
    ];
    covered = λ x lo hi.
        let (j, c, c_in, le, lt') = tiled.covered x lo hi in
        elim (In-joined j c c_in) [
          | inr kept ↦ (j, c, kept, le, lt')
          | inl (e, side) ↦
              let (above, below) = in_either x c side le (omega (arith, ap block_size e)) in
              (suc k, lower a b, new-with_free rest (suc k) (lower a b), above, below)
        ];
  }
