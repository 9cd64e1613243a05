-- ===== src/Allocator/Buddy/Change.antt =====
-- A block that becomes free, and the invariant: malloc_3.cpp.
use operating_systems_course.Prelude.{
  ℕ, ◌+◌, ◌*◌, ◌%◌, ◌≤◌, ◌<◌, ◌≡◌, ◌≢◌, refl, true, false, ◌||◌, some, List, [], ◌∷◌, ◌==◌, ltb,
  if◌then◌else◌, arith, has, length, ap, sym, ◌∙◌, ◌⊎◌, inl, inr, Bool-cases, eqb→eq, eq→eqb,
  eqb→ne,
}
use operating_systems_course.Server.Run.{Returns, mono}
use operating_systems_course.Allocator.{block_size, meta_size}
use operating_systems_course.Allocator.Links.Chain.{linked, insert, frame}
use operating_systems_course.Allocator.Buddy.{Tracker, word, insert_free}
use operating_systems_course.Allocator.Buddy.Sizes.{payload, block_size-ge}
use operating_systems_course.Allocator.Buddy.Split.{IsPut, insert_free-IsPut}
use operating_systems_course.Allocator.Buddy.Invariant.{Blocks, In, Inv, free_or_live}

pub has-insert : (c b : ℕ) (xs : List ℕ) → has c (insert b xs) ≡ c == b || has c xs
has-insert c b [] = refl
has-insert c b (x ∷ xs) = elim (Bool-cases (ltb x b)) [
  | inl below ↦ rw (below, has-insert c b xs) (ground arith)
  | inr above ↦ rw above refl
]

-- The blocks with one more free block.
abbrev pub with_free : Blocks → (k b : ℕ) → Blocks
with_free B k b = record {
  free = λ j. if j == k then insert b (B.free j) else B.free j;
  live = B.live;
}

pub has-with_free : (B : Blocks) (k b : ℕ) → has b ((with_free B k b).free k) ≡ true
has-with_free B k b =
    rw (eq→eqb k k refl) (has-insert b b (B.free k) ∙ ground (arith, eq→eqb b b refl))

-- A block of the extended blocks is the new one or an old one.
pub with_free-cases :
    (B : Blocks) (k b j a : ℕ) → In (with_free B k b) j a → ((j ≡ k) × (a ≡ b)) ⊎ In B j a
with_free-cases B k b j a (inr a_live) = inr (inr a_live)
with_free-cases B k b j a (inl a_free) = elim (Bool-cases (j == k)) [
  | inr other ↦ inr (inl (rw other at a_free))
  | inl here ↦
      let a_free' : a == b || has a (B.free j) ≡ true =
        sym (has-insert a b (B.free j)) ∙ (rw here at a_free) in
      elim (Bool-cases (a == b)) [
        | inl at_b ↦ inl (eqb→eq j k here, eqb→eq a b at_b)
        | inr n ↦ inr (inl (ground arith))
      ]
]

-- The block lies apart from all the blocks.
abbrev pub IsApart : Blocks → (k b : ℕ) → Type 0
IsApart B k b = (j a : ℕ) → In B j a → (a + block_size j ≤ b) ⊎ (b + block_size k ≤ a)

module _ (B : Blocks) (t : Tracker) (k b : ℕ) (inv : Inv B t) (apart : IsApart B k b) where
  out_of : (j a : ℕ) → In B j a → a ≢ b
  out_of j a a_in e = elim (apart j a a_in) [
    | inl p ↦ omega (arith, block_size-ge j)
    | inr q ↦ omega (arith, block_size-ge k)
  ]

  pub apart-absent : has b (B.free k) ≡ false
  apart-absent = elim (Bool-cases (has b (B.free k))) [
    | inl here ↦ absurd (out_of k b (inl here) refl)
    | inr no_block ↦ no_block
  ]

  -- A block of another order is not in a free list.
  other_list : (j a : ℕ) → In B j a → j ≢ k → has a (B.free k) ≡ false
  other_list j a a_in n = elim (Bool-cases (has a (B.free k))) [
    | inr no_block ↦ no_block
    | inl here ↦ elim (inv.apart j a k a a_in (inl here)) [
      | inl (e, _) ↦ absurd (n e)
      | inr sides ↦ absurd (ground (arith, sides, block_size-ge j, block_size-ge k))
    ]
  ]

  live_list : (j a : ℕ) → has a (B.live j) ≡ true → has a (B.free k) ≡ false
  live_list j a a_live = elim (Bool-cases (has a (B.free k))) [
    | inr no_block ↦ no_block
    | inl here ↦ absurd (free_or_live B t k j a inv here a_live)
  ]

  put-Inv : (t' : Tracker) → IsPut t (payload k) k b (B.free k) t' → Inv (with_free B k b) t'
  put-Inv t' put = record {
    lists = λ j. elim (Bool-cases (j == k)) [
      | inl here ↦ rw (here, eqb→eq j k here) put.list
      | inr other ↦
          let n = eqb→ne j k other in
          rw (other, put.heads j n)
            (frame (payload j) t.heap t'.heap 0 (t.heads j) (B.free j)
              (λ q pos q_in. put.headers q (out_of j q (inl q_in)) (other_list j q (inl q_in) n))
              (inv.lists j))
    ];
    held = λ j a a_live.
        let (q, r, e) = inv.held j a a_live in
        (q, r, put.headers a (out_of j a (inr a_live)) (live_list j a a_live) ∙ e);
    apart = λ j a i c x y. elim (with_free-cases B k b j a x) [
      | inr old_a ↦ elim (with_free-cases B k b i c y) [
        | inr old_c ↦ inv.apart j a i c old_a old_c
        | inl (e, f) ↦ inr (rw (e, f) (apart j a old_a))
      ]
      | inl (e, f) ↦ elim (with_free-cases B k b i c y) [
        | inr old_c ↦ inr (rw (e, f) (ground (arith, apart i c old_c)))
        | inl (g, z) ↦ inl (e ∙ sym g, f ∙ sym z)
      ]
    ];
    started = ap (λ x. x.initialized) put.kept ∙ inv.started;
    counted =
        ap (λ x. x.metadata_bytes) put.kept
        ∙ inv.counted
        ∙ ap (λ x. meta_size * x.allocated_blocks % word) (sym put.kept);
  }

  -- A free header of the block's size is enough to put the block into its list.
  pub insert_free-Inv :
      (fuel n p : ℕ)
      → length (B.free k) < fuel
      → 0 < b
      → t.heap b ≡ some (linked (payload k) n p)
      → Returns
          (λ t'. Inv (with_free B k b) t' × IsPut t (payload k) k b (B.free k) t')
          (insert_free fuel t k b)
  insert_free-Inv fuel n p room pos at_b =
      mono
        (insert_free-IsPut fuel t (payload k) k b n p (B.free k) room (inv.lists k) pos at_b
          apart-absent)
        λ t' put. (put-Inv t' put, put)
