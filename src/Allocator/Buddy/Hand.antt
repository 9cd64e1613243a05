-- ===== src/Allocator/Buddy/Hand.antt =====
-- `smalloc`'s block of malloc_3.cpp: `splitBlockBuddy` hands out a block that is its own.
use operating_systems_course.Prelude.{
  ℕ, zero, suc, ◌+◌, ◌-◌, ◌≤◌, ◌<◌, ◌≡◌, ◌≢◌, refl, true, Option, none, some, List, [], ◌∷◌, ◌==◌,
  arith, has, ap, ◌∙◌, ◌⊎◌, inl, inr, Bool-cases, eqb→eq, eq→eqb, ltb, eqb→ne, ne→eqb,
}
use operating_systems_course.Server.Run.{Returns, returns, bind, mono, step, same}
use operating_systems_course.Allocator.{Heap, block_size, meta_size, max_block_order}
use operating_systems_course.Allocator.Links.Chain.{Chain}
use operating_systems_course.Allocator.Buddy.{
  Tracker, index, split_from, split_block_buddy, nonempty_order, required_order,
}
use operating_systems_course.Allocator.Buddy.Sizes.{
  payload, block_size-ge, IsLeast, fitting_order-IsLeast,
}
use operating_systems_course.Allocator.Buddy.Invariant.{Blocks, Inv, beside, free_or_live}
use operating_systems_course.Allocator.Buddy.Tiling.{Tiled}
use operating_systems_course.Allocator.Buddy.Tiles.{hand_out-Tiled}
use operating_systems_course.Allocator.Buddy.Take.{hand_out, IsHanded, take_block-IsHanded}
use operating_systems_course.Allocator.Buddy.Smalloc.{IsDown, split_down-IsDown}

-- What the search for a list with a block finds, among `left` orders from `order` on.
data Searched (heads : ℕ → ℕ) (left order : ℕ) : Option ℕ → Type 0 where
  nowhere : ((j : ℕ) → order ≤ j → j < order + left → heads j ≡ 0) → Searched heads left order none
  here :
      (c : ℕ)
      → order ≤ c
      → heads c ≢ 0
      → ((j : ℕ) → order ≤ j → j < c → heads j ≡ 0)
      → Searched heads left order (some c)

later :
    (heads : ℕ → ℕ) (left order : ℕ) (r : Option ℕ)
    → heads order ≡ 0
    → Searched heads left (order + 1) r
    → Searched heads (suc left) order r
later heads left order r e (nowhere all) = nowhere λ j p q. elim (Bool-cases (j == order)) [
  | inl now ↦ ap heads (eqb→eq j order now) ∙ e
  | inr n ↦ all j (ground arith) (omega arith)
]
later heads left order r e (here c le at_c all) = here c (omega arith) at_c λ j p q.
    elim (Bool-cases (j == order)) [
      | inl now ↦ ap heads (eqb→eq j order now) ∙ e
      | inr n ↦ all j (ground arith) q
    ]

nonempty_order-Searched :
    (left order : ℕ) (heads : ℕ → ℕ) → Searched heads left order (nonempty_order left order heads)
unfolding nonempty_order
nonempty_order-Searched zero order heads = nowhere λ j p q. absurd (omega arith)
nonempty_order-Searched (suc left) order heads = elim (Bool-cases (heads order == 0)) [
  | inl empty ↦
      rw (nonempty_order, empty)
        (later heads left order (nonempty_order left (order + 1) heads) (eqb→eq _ _ empty)
          (nonempty_order-Searched left (order + 1) heads))
  | inr n ↦
      rw (nonempty_order, n) (here order (omega arith) (eqb→ne _ _ n) λ j p q. absurd (omega arith))
]

-- A list with no head has no block, and one with a head has a first block.
no_block : (s : ℕ) (h : Heap) (p : ℕ) (xs : List ℕ) → Chain s h 0 p xs → p ≡ 0 → xs ≡ []
no_block s h p [] c e = refl
no_block s h p (x ∷ xs) (at_x, pos, c) e = absurd (omega arith)

some_block :
    (s : ℕ) (h : Heap) (p : ℕ) (xs : List ℕ)
    → Chain s h 0 p xs
    → p ≢ 0
    → (b : ℕ) × (rest : List ℕ) × (xs ≡ b ∷ rest)
some_block s h p [] c n = absurd (n c)
some_block s h p (x ∷ xs) c n = (x, xs, refl)

-- The block that is handed out: of the least order that fits, apart from each block that was handed
-- out before, and handed out itself from now on.
pub record Handed (B : Blocks) (requested : ℕ) (out : Tracker × ℕ) : Type 0 where
  pub order : ℕ
  pub block : ℕ
  pub blocks : Blocks
  pub pointer : out.1 ≡ block + meta_size
  pub inv : Inv blocks out.0
  pub fits : IsLeast 0 (requested + meta_size) order
  pub handed : blocks.live order ≡ block ∷ B.live order
  pub others : (j : ℕ) → j ≢ order → blocks.live j ≡ B.live j
  pub own :
      (k a : ℕ)
      → has a (B.live k) ≡ true
      → (a + block_size k ≤ block) ⊎ (block + block_size order ≤ a)
  pub keeps : (base : ℕ) → Tiled base B → Tiled base blocks

-- `splitBlockBuddy` returns such a block, or NULL and an unchanged table, where no order that fits has
-- a free block.
pub data Allocation (B : Blocks) (t : Tracker) (requested : ℕ) (out : Tracker × ℕ) : Type 0 where
  handed_out : Handed B requested out → Allocation B t requested out
  no_room :
      out ≡ (t, 0)
      → ((j : ℕ) → requested + meta_size ≤ block_size j → j ≤ max_block_order → B.free j ≡ [])
      → Allocation B t requested out

module _ (fuel : ℕ) (B : Blocks) (t : Tracker) (target requested : ℕ) (room : 1 < fuel)
    (inv : Inv B t) (least : IsLeast 0 (requested + meta_size) target) where
  taken-Handed :
      (b : ℕ) (t' : Tracker) (d : IsDown B target b t') (out : Tracker × ℕ)
      → IsHanded d.blocks target b d.rest out
      → Handed B requested out
  taken-Handed b t' d out h = record {
    order = target;
    block = b;
    blocks = hand_out d.blocks target b d.rest;
    pointer = h.pointer;
    inv = h.inv;
    fits = least;
    handed = rw (eq→eqb target target refl) (ap (λ l. b ∷ l target) d.live);
    others = λ j n. rw (ne→eqb j target n) (ap (λ l. l j) d.live);
    own = λ k a a_live.
        let a_live' : has a (d.blocks.live k) ≡ true = ap (λ l. has a (l k)) d.live ∙ a_live in
        beside d.blocks t' target b d.rest d.inv d.first k a (inr a_live') λ (_, e).
          free_or_live d.blocks t' target k a d.inv
            (rw (d.first, e) (ground (arith, eq→eqb b b refl))) a_live';
    keeps = λ base tiled. hand_out-Tiled base d.blocks target b d.rest d.first (d.keeps base tiled);
  }

  found-Allocation :
      (c : ℕ)
      → target ≤ c
      → t.heads c ≢ 0
      → ((j : ℕ) → target ≤ j → j < c → t.heads j ≡ 0)
      → Returns (Allocation B t requested) (split_from fuel t target requested (some c))
  unfolding split_from
  found-Allocation c le at_c empty =
      let (b, rest, first) =
        some_block (payload c) t.heap (t.heads c) (B.free c) (inv.lists c) at_c in
      bind
        (split_down-IsDown fuel target requested room
          (omega (arith, least.fits, block_size-ge target))
          (λ j lt. omega (arith, least.least j (omega arith) lt, block_size-ge j)) c B t b rest inv
          le first
          λ j p q. no_block (payload j) t.heap (t.heads j) (B.free j) (inv.lists j) (empty j p q))
        λ t' d.
          mono (take_block-IsHanded d.blocks t' target b d.rest d.inv d.first)
            λ out h. handed_out (taken-Handed b t' d out h)

  from-Allocation :
      (left : ℕ) (r : Option ℕ)
      → target + left ≡ max_block_order + 1
      → Searched t.heads left target r
      → Returns (Allocation B t requested) (split_from fuel t target requested r)
  unfolding split_from
  from-Allocation left r e (nowhere all) = returns (
      no_room refl λ j fits le.
        no_block (payload j) t.heap (t.heads j) (B.free j) (inv.lists j)
          (all j (at_least j fits) (omega arith)))
    where
      at_least : (j : ℕ) → requested + meta_size ≤ block_size j → target ≤ j
      at_least j fits = elim (Bool-cases (ltb j target)) [
        | inl lt ↦ absurd (omega (arith, least.least j (omega arith) (ground arith)))
        | inr ge ↦ ground arith
      ]
  from-Allocation left r e (here c le at_c empty) = found-Allocation c le at_c empty

split_block_buddy-run :
    (fuel : ℕ) (t : Tracker) (requested target : ℕ)
    → required_order requested ≡ some target
    → split_block_buddy fuel t requested
      ≡ split_from fuel t target requested
          (nonempty_order (max_block_order + 1 - target) target t.heads)
unfolding split_block_buddy
split_block_buddy-run fuel t requested target e = step _ (ap index e)

-- Where the invariant holds, `splitBlockBuddy` does not fail on a request that fits the highest order.
-- It returns the address behind the header of a block of the least order that fits, which shares no
-- byte with a block that was handed out before, and the invariant holds again, with that block and
-- the ones before handed out; or it returns NULL and changes nothing, and then no order from the
-- least that fits up to the highest has a free block.
pub split_block_buddy-Allocation :
    (fuel : ℕ) (B : Blocks) (t : Tracker) (requested : ℕ)
    → 1 < fuel
    → requested + meta_size ≤ block_size max_block_order
    → Inv B t
    → Returns (Allocation B t requested) (split_block_buddy fuel t requested)
unfolding required_order
split_block_buddy-Allocation fuel B t requested room fits inv =
    let (target, e, least, le) =
      fitting_order-IsLeast max_block_order 0 (requested + meta_size) fits in
    let left = max_block_order + 1 - target in
    same (split_block_buddy-run fuel t requested target e) (
      from-Allocation fuel B t target requested room inv least left
        (nonempty_order left target t.heads) (omega arith)
        (nonempty_order-Searched left target t.heads))
