-- ===== src/Allocator/Tests/Halved.antt =====
-- A heap whose first block is halved: the left half and the blocks behind are handed out, and the
-- right half is free.
use operating_systems_course.Prelude.{
  ℕ, ◌+◌, ◌-◌, ◌≤◌, ◌≡◌, refl, true, false, some, List, [], ◌∷◌, ◌==◌, ltb, if◌then◌else◌, arith,
  has, ◌⊎◌, inl, inr, Bool-cases, eqb→eq,
}
use operating_systems_course.Allocator.{block_size}
use operating_systems_course.Allocator.Links.Chain.{linked}
use operating_systems_course.Allocator.Buddy.{Tracker}
use operating_systems_course.Allocator.Buddy.Grid.{IsAligned}
use operating_systems_course.Allocator.Buddy.Tiling.{Tiled, heap_size}
use operating_systems_course.Allocator.Buddy.Invariant.{Blocks, In, busy, Inv}
use operating_systems_course.Allocator.Calls.Init.{blocks_from, blocks_from-ge, blocks_from-apart}
use operating_systems_course.Allocator.Calls.Fresh.{blocks_from-within, blocks_from-covers}

abbrev pub start : ℕ
start = 4194304

abbrev middle : ℕ
middle = 4259840

abbrev behind : List ℕ
behind = blocks_from 31 4325376

abbrev pub halved : Blocks
halved = record {
  free = λ k. if k == 9 then middle ∷ [] else [];
  live = λ k. if k == 9 then start ∷ [] else if k == 10 then behind else [];
}

abbrev pub halved_table : Tracker
halved_table = record {
  heap = λ a. some (
      if a == start
      then busy 65504 0 0
      else if a == middle
      then linked 65504 0 0
      else busy 131040 0 0);
  heads = λ k. if k == 9 then middle else 0;
  allocated_blocks = 33;
  allocated_bytes = 4193248;
  metadata_bytes = 1056;
  initialized = true;
}

-- The blocks of the heap.
data Part (k a : ℕ) : Type 0 where
  left : k ≡ 9 → a ≡ start → Part k a
  right : k ≡ 9 → a ≡ middle → Part k a
  whole : k ≡ 10 → has a behind ≡ true → Part k a

live-Part : (k a : ℕ) → has a (halved.live k) ≡ true → Part k a
live-Part k a a_live = elim (Bool-cases (k == 9)) [
  | inl here ↦ left (eqb→eq k 9 here) (eqb→eq a start (ground arith))
  | inr other ↦ elim (Bool-cases (k == 10)) [
    | inl above ↦ whole (eqb→eq k 10 above) (rw (other, above) at a_live)
    | inr neither ↦ absurd (cc (rw (other, neither) at a_live))
  ]
]

part : (k a : ℕ) → In halved k a → Part k a
part k a (inl a_free) = elim (Bool-cases (k == 9)) [
  | inl here ↦ right (eqb→eq k 9 here) (eqb→eq a middle (ground arith))
  | inr other ↦ absurd (cc (rw other at a_free))
]
part k a (inr a_live) = live-Part k a a_live

past : (a : ℕ) → has a behind ≡ true → 4325376 ≤ a
past a a_in = blocks_from-ge 31 4325376 a a_in

parts_apart :
    (j a k c : ℕ)
    → Part j a
    → Part k c
    → ((j ≡ k) × (a ≡ c)) ⊎ ((a + block_size j ≤ c) ⊎ (c + block_size k ≤ a))
unfolding block_size
parts_apart j a k c (left e f) (left g h) = inl (cc, cc)
parts_apart j a k c (right e f) (right g h) = inl (cc, cc)
parts_apart j a k c (left e f) (right g h) = rw (e, f, g, h) (inr (inl (omega arith)))
parts_apart j a k c (right e f) (left g h) = rw (e, f, g, h) (inr (inr (omega arith)))
parts_apart j a k c (left e f) (whole g h) = rw (e, f, g) (inr (inl (omega (arith, past c h))))
parts_apart j a k c (right e f) (whole g h) = rw (e, f, g) (inr (inl (omega (arith, past c h))))
parts_apart j a k c (whole e f) (left g h) = rw (e, g, h) (inr (inr (omega (arith, past a f))))
parts_apart j a k c (whole e f) (right g h) = rw (e, g, h) (inr (inr (omega (arith, past a f))))
parts_apart j a k c (whole e f) (whole g h) = elim (blocks_from-apart 31 4325376 a c f h) [
  | inl same_start ↦ inl (cc, same_start)
  | inr sides ↦ rw (e, g) (inr sides)
]

Part-header :
    (k a : ℕ)
    → has a (halved.live k) ≡ true
    → Part k a
    → (q r : ℕ) × (halved_table.heap a ≡ some (busy (block_size k - 32) q r))
unfolding block_size
Part-header k a a_live (left e f) = (0, 0, rw (e, f) refl)
Part-header k a a_live (right e f) = absurd (cc (rw (e, f) at a_live))
Part-header k a a_live (whole e f) =
    let not_start : a == start ≡ false = ground (arith, past a f) in
    let not_middle : a == middle ≡ false = ground (arith, past a f) in
    (0, 0, rw (not_start, not_middle, e) refl)

pub halved-Inv : Inv halved halved_table
unfolding block_size
halved-Inv = record {
  lists = λ k. elim (Bool-cases (k == 9)) [
    | inl here ↦ rw (here, eqb→eq k 9 here) (refl, omega arith, (0, refl, refl))
    | inr other ↦ rw other refl
  ];
  held = λ k a a_live. Part-header k a a_live (live-Part k a a_live);
  apart = λ j a k c x y. parts_apart j a k c (part j a x) (part k c y);
  started = refl;
  counted = refl;
}

-- A block is aligned, and lies in the heap.
Part-placed :
    (k a : ℕ)
    → Part k a
    → (k ≤ 10) × IsAligned (block_size k) a × (start ≤ a) × (a + block_size k ≤ start + heap_size)
unfolding block_size
Part-placed k a (left e f) = rw (e, f) (omega arith, (64, refl), omega arith, omega arith)
Part-placed k a (right e f) = rw (e, f) (omega arith, (65, refl), omega arith, omega arith)
Part-placed k a (whole e f) =
    let (a_on, hi) = blocks_from-within 31 4325376 a (33, refl) f in
    rw e (omega arith, a_on, omega (arith, past a f), omega (arith, hi))

pub halved-Tiled : Tiled start halved
unfolding block_size
halved-Tiled = record {
  order = λ k a a_in. let (le, _, _, _) = Part-placed k a (part k a a_in) in le;
  aligned = λ k a a_in. let (_, on, _, _) = Part-placed k a (part k a a_in) in on;
  within = λ k a a_in. let (_, _, above, below) = Part-placed k a (part k a a_in) in (above, below);
  covered = λ x lo hi. elim (Bool-cases (ltb x 4325376)) [
    | inl first ↦ elim (Bool-cases (ltb x middle)) [
      | inl in_left ↦ (9, start, inr refl, lo, ground arith)
      | inr in_right ↦ (9, middle, inl refl, ground arith, ground arith)
    ]
    | inr later ↦
        let (c, c_in, le, lt) = blocks_from-covers 31 4325376 x (ground arith) (omega arith) in
        (10, c, inr c_in, le, lt)
  ];
}
