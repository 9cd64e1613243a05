-- ===== src/Allocator/Buddy/Moves.antt =====
-- Where a block is after the lists have changed: malloc_3.cpp.
use operating_systems_course.Prelude.{
  ℕ, suc, ◌+◌, ◌≡◌, ◌≢◌, refl, true, List, [], ◌∷◌, ◌==◌, arith, has, ◌∙◌, ◌⊎◌, inl, inr,
  Bool-cases, eqb→eq, eq→eqb, eqb→ne,
}
use operating_systems_course.Allocator.{block_size}
use operating_systems_course.Allocator.Links.Chain.{remove}
use operating_systems_course.Allocator.Buddy.Invariant.{Blocks, In, split_blocks}
use operating_systems_course.Allocator.Buddy.Take.{hand_out}
use operating_systems_course.Allocator.Buddy.Change.{with_free, has-insert}
use operating_systems_course.Allocator.Buddy.Drop.{drop_free}
use operating_systems_course.Allocator.Buddy.Join.{has-remove_other}
use operating_systems_course.Allocator.Buddy.Release.{drop_live, drop_all, has-drop_all}

-- The blocks that were there, with one more.
pub In-with_free : (B : Blocks) (k b j a : ℕ) → In B j a → In (with_free B k b) j a
In-with_free B k b j a (inr a_live) = inr a_live
In-with_free B k b j a (inl a_free) = elim (Bool-cases (j == k)) [
  | inl here ↦ inl (rw here (has-insert a b (B.free j) ∙ ground arith))
  | inr other ↦ inl (rw other a_free)
]

pub new-with_free : (B : Blocks) (k b : ℕ) → In (with_free B k b) k b
new-with_free B k b =
    inl (rw (eq→eqb k k refl) (has-insert b b (B.free k) ∙ ground (arith, eq→eqb b b refl)))

has-remove_old : (c b : ℕ) (xs : List ℕ) → has c (remove b xs) ≡ true → has c xs ≡ true
has-remove_old c b [] c_in = absurd (cc)
has-remove_old c b (x ∷ xs) c_in = elim (Bool-cases (b == x)) [
  | inl here ↦ ground (arith, rw here at c_in)
  | inr there ↦ ground (arith, rw there at c_in, has-remove_old c b xs)
]

pub drop_free-old : (B : Blocks) (k b j a : ℕ) → In (drop_free B k b) j a → In B j a
drop_free-old B k b j a (inr a_live) = inr a_live
drop_free-old B k b j a (inl a_free) = elim (Bool-cases (j == k)) [
  | inl here ↦ inl (has-remove_old a b (B.free j) (rw here at a_free))
  | inr other ↦ inl (rw other at a_free)
]

pub drop_free-cases :
    (B : Blocks) (k b j a : ℕ) → In B j a → ((j ≡ k) × (a ≡ b)) ⊎ In (drop_free B k b) j a
drop_free-cases B k b j a (inr a_live) = inr (inr a_live)
drop_free-cases B k b j a (inl a_free) = elim (Bool-cases (j == k)) [
  | inr other ↦ inr (inl (rw other a_free))
  | inl here ↦ elim (Bool-cases (a == b)) [
    | inl at_b ↦ inl (eqb→eq j k here, eqb→eq a b at_b)
    | inr n ↦ inr (inl (rw here (has-remove_other a b (B.free j) a_free (eqb→ne a b n))))
  ]
]

has-drop_all_other :
    (c b : ℕ) (xs : List ℕ) → has c xs ≡ true → c ≢ b → has c (drop_all b xs) ≡ true
has-drop_all_other c b [] c_in n = absurd (cc)
has-drop_all_other c b (x ∷ xs) c_in n = elim (Bool-cases (x == b)) [
  | inl here ↦ rw here (has-drop_all_other c b xs (ground arith) n)
  | inr there ↦ elim (Bool-cases (c == x)) [
    | inl at_x ↦ rw there (ground arith)
    | inr other ↦ rw (there, has-drop_all_other c b xs (ground arith) n) (ground arith)
  ]
]

pub drop_live-old : (B : Blocks) (k b j a : ℕ) → In (drop_live B k b) j a → In B j a
drop_live-old B k b j a (inl a_free) = inl a_free
drop_live-old B k b j a (inr a_live) = elim (Bool-cases (j == k)) [
  | inl here ↦ let (a_in, n) = has-drop_all a b (B.live j) (rw here at a_live) in inr a_in
  | inr other ↦ inr (rw other at a_live)
]

pub drop_live-cases :
    (B : Blocks) (k b j a : ℕ) → In B j a → ((j ≡ k) × (a ≡ b)) ⊎ In (drop_live B k b) j a
drop_live-cases B k b j a (inl a_free) = inr (inl a_free)
drop_live-cases B k b j a (inr a_live) = elim (Bool-cases (j == k)) [
  | inr other ↦ inr (inr (rw other a_live))
  | inl here ↦ elim (Bool-cases (a == b)) [
    | inl at_b ↦ inl (eqb→eq j k here, eqb→eq a b at_b)
    | inr n ↦ inr (inr (rw here (has-drop_all_other a b (B.live j) a_live (eqb→ne a b n))))
  ]
]

-- A block that is handed out is a block still.
module _ (B : Blocks) (i b : ℕ) (rest : List ℕ) (first : B.free i ≡ b ∷ rest) where
  pub hand_out-old : (j a : ℕ) → In (hand_out B i b rest) j a → In B j a
  hand_out-old j a (inl a_free) = elim (Bool-cases (j == i)) [
    | inl here ↦ inl (rw (eqb→eq j i here, first) (ground (arith, rw here at a_free)))
    | inr other ↦ inl (rw other at a_free)
  ]
  hand_out-old j a (inr a_live) = elim (Bool-cases (j == i)) [
    | inr other ↦ inr (rw other at a_live)
    | inl here ↦ elim (Bool-cases (a == b)) [
      | inr n ↦ inr (ground arith)
      | inl at_b ↦ inl (rw (eqb→eq j i here, first, at_b) refl)
    ]
  ]

  pub In-hand_out : (j a : ℕ) → In B j a → In (hand_out B i b rest) j a
  In-hand_out j a (inr a_live) = elim (Bool-cases (j == i)) [
    | inl here ↦ inr (rw here (ground arith))
    | inr other ↦ inr (rw other a_live)
  ]
  In-hand_out j a (inl a_free) = elim (Bool-cases (j == i)) [
    | inr other ↦ inl (rw other a_free)
    | inl here ↦
        let a_in : has a (b ∷ rest) ≡ true = rw (eqb→eq j i here, first) at a_free in
        elim (Bool-cases (a == b)) [
          | inl at_b ↦ inr (rw (here, at_b) refl)
          | inr n ↦ inl (rw here (ground arith))
        ]
  ]

-- Which blocks are there after a split.
module _ (B : Blocks) (k b : ℕ) (rest : List ℕ) (first : B.free (suc k) ≡ b ∷ rest)
    (empty : B.free k ≡ []) where
  pub left-split_blocks : In (split_blocks B k b rest) k b
  left-split_blocks = inl (rw (eq→eqb k k refl) (ground (arith, eq→eqb b b refl)))

  pub right-split_blocks : In (split_blocks B k b rest) k (b + block_size k)
  right-split_blocks = inl (rw (eq→eqb k k refl) (ground (arith, eq→eqb (b + block_size k) _ refl)))

  pub split_blocks-cases :
      (j a : ℕ) → In B j a → ((j ≡ suc k) × (a ≡ b)) ⊎ In (split_blocks B k b rest) j a
  split_blocks-cases j a (inr a_live) = inr (inr a_live)
  split_blocks-cases j a (inl a_free) = elim (Bool-cases (j == k)) [
    | inl at_k ↦ absurd (cc (rw (eqb→eq j k at_k, empty) at a_free))
    | inr n ↦ elim (Bool-cases (j == suc k)) [
      | inr other ↦ inr (inl (rw (n, other) a_free))
      | inl above ↦
          let a_in : has a (b ∷ rest) ≡ true = rw (eqb→eq j (suc k) above, first) at a_free in
          elim (Bool-cases (a == b)) [
            | inl at_b ↦ inl (eqb→eq j (suc k) above, eqb→eq a b at_b)
            | inr m ↦ inr (inl (rw (n, above) (ground arith)))
          ]
    ]
  ]

  pub split_blocks-old :
      (j a : ℕ)
      → In (split_blocks B k b rest) j a
      → ((j ≡ k) × ((a ≡ b) ⊎ (a ≡ b + block_size k))) ⊎ In B j a
  split_blocks-old j a (inr a_live) = inr (inr a_live)
  split_blocks-old j a (inl a_free) = elim (Bool-cases (j == k)) [
    | inl at_k ↦ elim (Bool-cases (a == b)) [
      | inl here ↦ inl (eqb→eq j k at_k, inl (eqb→eq a b here))
      | inr there ↦ inl (eqb→eq j k at_k, inr (ground arith))
    ]
    | inr n ↦ elim (Bool-cases (j == suc k)) [
      | inr other ↦ inr (inl (ground arith))
      | inl above ↦
          let a_in : has a rest ≡ true = ground arith in
          inr (inl (rw (eqb→eq j (suc k) above, first) (ground arith)))
    ]
  ]
