-- ===== src/Allocator/Buddy/Invariant.antt =====
-- The invariant of the buddy allocator of malloc_3.cpp, and that splitting a block keeps it.
use operating_systems_course.Prelude.{
  ℕ, suc, ◌+◌, ◌*◌, ◌%◌, ◌≤◌, ◌<◌, ◌≡◌, ◌≢◌, refl, true, false, some, List, [], ◌∷◌, ◌==◌,
  if◌then◌else◌, arith, has, sym, ◌∙◌, ◌⊎◌, inl, inr, Bool-cases, eqb→eq, eq→eqb, eqb→ne,
}
use operating_systems_course.Allocator.{MetaData, block_size, meta_size}
use operating_systems_course.Allocator.Links.Chain.{Chain, frame, in_above, member}
use operating_systems_course.Allocator.Buddy.{Tracker, word}
use operating_systems_course.Allocator.Buddy.Sizes.{payload, block_size-suc, block_size-ge}
use operating_systems_course.Allocator.Buddy.Split.{IsSplit}

-- The blocks of the heap by their orders: the free ones, and those that are handed out.
pub record Blocks : Type 0 where
  pub free : ℕ → List ℕ
  pub live : ℕ → List ℕ

abbrev pub In : Blocks → ℕ → ℕ → Type 0
In B k a = (has a (B.free k) ≡ true) ⊎ (has a (B.live k) ≡ true)

abbrev pub busy : ℕ → ℕ → ℕ → MetaData
busy s q r = record { size = s; is_free = false; next = q; prev = r }

-- The table is initialized; its lists are the free blocks; each block that is handed out has its header; no two
-- blocks share a byte; and the counter of header bytes counts the headers.
pub record Inv (B : Blocks) (t : Tracker) : Type 0 where
  pub lists : (k : ℕ) → Chain (payload k) t.heap 0 (t.heads k) (B.free k)
  pub held :
      (k a : ℕ) → has a (B.live k) ≡ true → (q r : ℕ) × (t.heap a ≡ some (busy (payload k) q r))
  pub apart :
      (j a k c : ℕ)
      → In B j a
      → In B k c
      → ((j ≡ k) × (a ≡ c)) ⊎ ((a + block_size j ≤ c) ⊎ (c + block_size k ≤ a))
  pub started : t.initialized ≡ true
  pub counted : t.metadata_bytes ≡ meta_size * t.allocated_blocks % word

-- A block is not both free and handed out.
pub free_or_live :
    (B : Blocks) (t : Tracker) (j k a : ℕ)
    → Inv B t
    → has a (B.free j) ≡ true
    → has a (B.live k) ≡ true
    → ⊥
free_or_live B t j k a inv a_free a_live =
    let (q, r, e) = member (payload j) t.heap 0 (t.heads j) a (B.free j) (inv.lists j) a_free in
    let (q', r', e') = inv.held k a a_live in cc

module _ (B : Blocks) (t : Tracker) (i b : ℕ) (rest : List ℕ) (inv : Inv B t)
    (first : B.free i ≡ b ∷ rest) where
  at_b-Chain : Chain (payload i) t.heap 0 (t.heads i) (b ∷ rest)
  at_b-Chain = rw first at (inv.lists i)

  pub b_first : In B i b
  b_first = inl (rw first (ground (arith, eq→eqb b b refl)))

  -- Another block lies on either side of `b`.
  pub beside :
      (j a : ℕ)
      → In B j a
      → ((j ≡ i) × (a ≡ b) → ⊥)
      → (a + block_size j ≤ b) ⊎ (b + block_size i ≤ a)
  beside j a a_in other = elim (inv.apart j a i b a_in b_first) [
    | inl both ↦ absurd (other both)
    | inr sides ↦ sides
  ]

  pub rest_ne : (a : ℕ) → has a rest ≡ true → b < a
  rest_ne a a_in =
      let (_, _, (p, _, c)) = at_b-Chain in in_above (payload i) t.heap b p a rest c a_in

  -- A block of another list is not in this one.
  pub absent : (j a : ℕ) → In B j a → j ≢ i → has a (b ∷ rest) ≡ false
  absent j a a_in n = elim (Bool-cases (has a (b ∷ rest))) [
    | inr no_block ↦ no_block
    | inl here ↦ elim (inv.apart j a i a a_in (inl (rw first here))) [
      | inl (e, _) ↦ absurd (n e)
      | inr sides ↦ absurd (ground (arith, sides, block_size-ge j, block_size-ge i))
    ]
  ]

  pub live_absent : (j a : ℕ) → has a (B.live j) ≡ true → has a (b ∷ rest) ≡ false
  live_absent j a a_live = elim (Bool-cases (has a (b ∷ rest))) [
    | inr no_block ↦ no_block
    | inl here ↦ absurd (free_or_live B t i j a inv (rw first here) a_live)
  ]

-- The blocks after `b`, the first free one of order `k + 1`, is split.
abbrev pub split_blocks : Blocks → (k b : ℕ) → List ℕ → Blocks
split_blocks B k b rest = record {
  free =
      λ j. if j == k then b ∷ ((b + block_size k) ∷ []) else if j == suc k then rest else B.free j;
  live = B.live;
}

module _ (B : Blocks) (t t' : Tracker) (k b : ℕ) (rest : List ℕ) (inv : Inv B t)
    (first : B.free (suc k) ≡ b ∷ rest) where
  -- What is a block after the split: another one, or one of the halves.
  data Part (j a : ℕ) : Type 0 where
    old : In B j a → (a + block_size j ≤ b) ⊎ (b + block_size (suc k) ≤ a) → Part j a
    left_half : j ≡ k → a ≡ b → Part j a
    right_half : j ≡ k → a ≡ b + block_size k → Part j a

  live-Part : (j a : ℕ) → has a (B.live j) ≡ true → Part j a
  live-Part j a a_live = old (inr a_live) (
      beside B t (suc k) b rest inv first j a (inr a_live) λ (_, e).
        free_or_live B t (suc k) j a inv (rw (first, e) (ground (arith, eq→eqb b b refl))) a_live)

  free-Part : (j a : ℕ) → has a ((split_blocks B k b rest).free j) ≡ true → Part j a
  free-Part j a a_free = elim (Bool-cases (j == k)) [
    | inl at_k ↦ elim (Bool-cases (a == b)) [
      | inl here ↦ left_half (eqb→eq j k at_k) (eqb→eq a b here)
      | inr there ↦ right_half (eqb→eq j k at_k) (ground arith)
    ]
    | inr n ↦ elim (Bool-cases (j == suc k)) [
      | inl above ↦
          let a_in : has a rest ≡ true = ground arith in
          let a_B : In B j a = inl (rw (eqb→eq j (suc k) above, first) (ground arith)) in
          old a_B (
            beside B t (suc k) b rest inv first j a a_B
              λ (_, e). absurd (omega (arith, rest_ne B t (suc k) b rest inv first a a_in)))
      | inr other ↦
          let a_B : In B j a = inl (ground arith) in
          old a_B (
            beside B t (suc k) b rest inv first j a a_B λ (e, _). absurd (eqb→ne j (suc k) other e))
    ]
  ]

  part : (j a : ℕ) → In (split_blocks B k b rest) j a → Part j a
  part j a (inl a_free) = free-Part j a a_free
  part j a (inr a_live) = live-Part j a a_live

  parts_apart :
      (j a i c : ℕ)
      → Part j a
      → Part i c
      → ((j ≡ i) × (a ≡ c)) ⊎ ((a + block_size j ≤ c) ⊎ (c + block_size i ≤ a))
  parts_apart j a i c (old x p) (old y q) = inv.apart j a i c x y
  parts_apart j a i c (old x p) (left_half e f) = rw (e, f) (ground (arith, p, block_size-suc k))
  parts_apart j a i c (old x p) (right_half e f) = rw (e, f) (ground (arith, p, block_size-suc k))
  parts_apart j a i c (left_half e f) (old y q) = rw (e, f) (ground (arith, q, block_size-suc k))
  parts_apart j a i c (right_half e f) (old y q) = rw (e, f) (ground (arith, q, block_size-suc k))
  parts_apart j a i c (left_half e f) (left_half g h) = inl (e ∙ sym g, f ∙ sym h)
  parts_apart j a i c (right_half e f) (right_half g h) = inl (e ∙ sym g, f ∙ sym h)
  parts_apart j a i c (left_half e f) (right_half g h) = rw (e, f, h) (inr (inl (omega arith)))
  parts_apart j a i c (right_half e f) (left_half g h) = rw (e, f, g, h) (inr (inr (omega arith)))

  not_right : (j a : ℕ) → In B j a → j ≢ suc k → a ≢ b + block_size k
  not_right j a a_in n e = elim (beside B t (suc k) b rest inv first j a a_in λ (x, _). n x) [
    | inl p ↦ omega (arith, block_size-ge j, block_size-ge k, block_size-suc k)
    | inr q ↦ omega (arith, block_size-ge j, block_size-ge k, block_size-suc k)
  ]

  live_not_right : (j a : ℕ) → has a (B.live j) ≡ true → a ≢ b + block_size k
  live_not_right j a a_live e =
      elim (beside B t (suc k) b rest inv first j a (inr a_live) λ (_, f).
        free_or_live B t (suc k) j a inv (rw (first, f) (ground (arith, eq→eqb b b refl))) a_live) [
          | inl p ↦ omega (arith, block_size-ge j, block_size-ge k, block_size-suc k)
          | inr q ↦ omega (arith, block_size-ge j, block_size-ge k, block_size-suc k)
        ]

  -- A split keeps the invariant.
  pub split-Inv : IsSplit t k b rest t' → Inv (split_blocks B k b rest) t'
  split-Inv s = record {
    lists = λ j. elim (Bool-cases (j == k)) [
      | inl at_k ↦ rw (at_k, eqb→eq j k at_k) s.halves
      | inr n ↦ elim (Bool-cases (j == suc k)) [
        | inl above ↦ rw (n, above, eqb→eq j (suc k) above) s.others_left
        | inr other ↦
            let m = eqb→ne j (suc k) other in
            rw (n, other, s.heads j (eqb→ne j k n) m)
              (frame (payload j) t.heap t'.heap 0 (t.heads j) (B.free j)
                (λ q pos q_in.
                  s.headers q (absent B t (suc k) b rest inv first j q (inl q_in) m)
                    (not_right j q (inl q_in) m))
                (inv.lists j))
      ]
    ];
    held = λ j a a_live.
        let (q, r, e) = inv.held j a a_live in
        (
          q,
          r,
          s.headers a (live_absent B t (suc k) b rest inv first j a a_live)
                (live_not_right j a a_live)
              ∙ e,
        );
    apart = λ j a i c x y. parts_apart j a i c (part j a x) (part i c y);
    started = s.started ∙ inv.started;
    counted = omega (arith, s.metadata, s.blocks, inv.counted);
  }
