-- ===== src/Allocator/Calls/Init.antt =====
-- What `initHeap` of malloc_3.cpp sets up: a list of blocks of the highest order.
use operating_systems_course.Prelude.{
  ℕ, zero, suc, ◌+◌, ◌*◌, ◌-◌, ◌≤◌, ◌<◌, ◌≡◌, ◌≢◌, refl, true, some, List, [], ◌∷◌, ◌==◌,
  if◌then◌else◌, arith, has, ap, sym, ◌∙◌, ◌⊎◌, inl, inr, Bool-cases, eqb→eq, eq→eqb, eqb→ne,
  ne→eqb,
}
use operating_systems_course.Server.Run.{ok, Returns, returns, bind, mono, step, same, returns_at}
use operating_systems_course.Allocator.{Heap, block_size, meta_size, max_block_order, write}
use operating_systems_course.Allocator.Links.Chain.{linked, Chain, first, set_next-some}
use operating_systems_course.Allocator.Buddy.{Tracker}
use operating_systems_course.Allocator.Buddy.Invariant.{Blocks, In, Inv}
use operating_systems_course.Allocator.Calls.{
  Os, block_size_bytes, num_initial_blocks, padding, initial_meta, init_blocks, init_at, init_from,
  init_heap,
}

-- `left` blocks, one behind the other.
abbrev pub blocks_from : (left curr : ℕ) → List ℕ
blocks_from zero curr = []
blocks_from (suc left) curr = curr ∷ blocks_from left (curr + block_size_bytes)

pub blocks_from-ge : (left curr a : ℕ) → has a (blocks_from left curr) ≡ true → curr ≤ a
blocks_from-ge zero curr a a_in = absurd (cc)
blocks_from-ge (suc left) curr a a_in = elim (Bool-cases (a == curr)) [
  | inl here ↦ omega (arith, eqb→eq a curr here)
  | inr there ↦ omega (arith, blocks_from-ge left (curr + block_size_bytes) a (ground arith))
]

pub blocks_from-apart :
    (left curr a c : ℕ)
    → has a (blocks_from left curr) ≡ true
    → has c (blocks_from left curr) ≡ true
    → (a ≡ c) ⊎ ((a + block_size_bytes ≤ c) ⊎ (c + block_size_bytes ≤ a))
blocks_from-apart zero curr a c a_in c_in = absurd (cc)
blocks_from-apart (suc left) curr a c a_in c_in = elim (Bool-cases (a == curr)) [
  | inl p ↦ elim (Bool-cases (c == curr)) [
    | inl q ↦ inl (eqb→eq a curr p ∙ sym (eqb→eq c curr q))
    | inr q ↦ inr (inl (rw (eqb→eq a curr p) (blocks_from-ge left next c (ground arith))))
  ]
  | inr p ↦ elim (Bool-cases (c == curr)) [
    | inl q ↦ inr (inr (rw (eqb→eq c curr q) (blocks_from-ge left next a (ground arith))))
    | inr q ↦ blocks_from-apart left next a c (ground arith) (ground arith)
  ]
]
  where
    next : ℕ
    next = curr + block_size_bytes

abbrev top : ℕ
top = block_size_bytes - meta_size

-- The blocks behind `prev` are linked to it, and what is below it has not changed.
record IsLinked (h : Heap) (prev pp : ℕ) (xs : List ℕ) (h' : Heap) : Type 0 where
  pub at_prev : h' prev ≡ some (linked top (first xs) pp)
  pub chain : Chain top h' prev (first xs) xs
  pub below : (q : ℕ) → q < prev → h' q ≡ h q

module _ (left curr prev pp : ℕ) (h : Heap) (pos : 0 < prev) (lt : prev < curr)
    (at_prev : h prev ≡ some (linked top 0 pp)) where
  abbrev linked_heap : Heap
  linked_heap = write (write h curr (initial_meta prev)) prev (linked top curr pp)

  init_blocks-step :
      init_blocks (suc left) curr prev h
      ≡ init_blocks left (curr + block_size_bytes) curr linked_heap
  unfolding init_blocks
  init_blocks-step = step _ (
      set_next-some (write h curr (initial_meta prev)) prev curr (linked top 0 pp) pos
        (ground arith))

  next-IsLinked :
      (h' : Heap)
      → IsLinked linked_heap curr prev (blocks_from left (curr + block_size_bytes)) h'
      → IsLinked h prev pp (blocks_from (suc left) curr) h'
  next-IsLinked h' l = record {
    at_prev = l.below prev lt ∙ ground (arith, eq→eqb prev prev refl);
    chain = (refl, lt, (first (blocks_from left (curr + block_size_bytes)), l.at_prev, l.chain));
    below = λ q q_lt. l.below q (omega arith) ∙ ground arith;
  }

init_blocks-zero : (curr prev : ℕ) (h : Heap) → init_blocks 0 curr prev h ≡ ok h
unfolding init_blocks
init_blocks-zero curr prev h = refl

init_blocks-IsLinked :
    (left curr prev pp : ℕ) (h : Heap)
    → 0 < prev
    → prev < curr
    → h prev ≡ some (linked top 0 pp)
    → Returns (IsLinked h prev pp (blocks_from left curr)) (init_blocks left curr prev h)
init_blocks-IsLinked zero curr prev pp h pos lt at_prev =
    returns_at (init_blocks-zero curr prev h)
      (record { at_prev = at_prev; chain = refl; below = λ q q_lt. refl })
init_blocks-IsLinked (suc left) curr prev pp h pos lt at_prev =
    same (init_blocks-step left curr prev pp h pos lt at_prev) (
      mono
        (init_blocks-IsLinked left (curr + block_size_bytes) curr prev
          (linked_heap left curr prev pp h pos lt at_prev) (omega arith) (omega arith)
          (ground (arith, eq→eqb curr curr refl)))
        (next-IsLinked left curr prev pp h pos lt at_prev))

-- The blocks of a fresh heap at `base`: 32 free ones, of the highest order.
abbrev pub initial : ℕ → Blocks
initial base = record {
  free = λ k. if k == max_block_order then blocks_from num_initial_blocks base else [];
  live = λ k. [];
}

pub top_size : block_size max_block_order ≡ block_size_bytes
unfolding block_size
top_size = refl

-- Each block of a fresh heap has the highest order.
pub initial_top :
    (base k a : ℕ)
    → In (initial base) k a
    → (k ≡ max_block_order) × (has a (blocks_from num_initial_blocks base) ≡ true)
initial_top base k a (inl a_free) = elim (Bool-cases (k == max_block_order)) [
  | inl here ↦ (eqb→eq k max_block_order here, rw here at a_free)
  | inr other ↦ absurd (cc (rw other at a_free))
]
initial_top base k a (inr a_live) = absurd (cc)

initial-Inv :
    (base : ℕ) (t : Tracker)
    → ((k : ℕ) → k ≢ max_block_order → t.heads k ≡ 0)
    → t.heads max_block_order ≡ base
    → Chain top t.heap 0 base (blocks_from num_initial_blocks base)
    → t.allocated_blocks ≡ num_initial_blocks
    → t.metadata_bytes ≡ num_initial_blocks * meta_size
    → t.initialized ≡ true
    → Inv (initial base) t
initial-Inv base t empty head c blocks metadata started = record {
  lists = λ k. elim (Bool-cases (k == max_block_order)) [
    | inl here ↦ rw (here, eqb→eq k max_block_order here, head, top_size) c
    | inr other ↦ rw other (empty k (eqb→ne k max_block_order other))
  ];
  held = λ k a a_live. absurd (cc);
  apart = λ j a k c x y.
      let (at_j, a_in) = initial_top base j a x in
      let (at_k, c_in) = initial_top base k c y in
      elim (blocks_from-apart num_initial_blocks base a c a_in c_in) [
        | inl e ↦ inl (at_j ∙ sym at_k, e)
        | inr sides ↦ inr (rw (at_j, at_k, top_size) sides)
      ];
  started = started;
  counted = omega (arith, blocks, metadata);
}

init_at-Inv :
    (t : Tracker) (base : ℕ)
    → 0 < base
    → ((k : ℕ) → t.heads k ≡ 0)
    → Returns (Inv (initial base)) (init_at t base)
unfolding init_at
init_at-Inv t base pos empty =
    bind
      (init_blocks-IsLinked (num_initial_blocks - 1) (base + block_size_bytes) base 0
        (write t.heap base (initial_meta 0)) pos (omega arith)
        (ground (arith, eq→eqb base base refl)))
      λ h l. returns (
        initial-Inv base _ (λ k n. rw (ne→eqb k max_block_order n) (empty k)) refl
          (refl, pos, (_, l.at_prev, l.chain)) refl refl refl)

-- Where `sbrk` gives memory and the lists of the table are empty, `initHeap` sets up the invariant:
-- the 32 blocks of the highest order that follow the padding are free, and none is handed out.
pub init_heap-Inv :
    (os : Os) (t : Tracker) (base : ℕ)
    → os.sbrk (padding os.current_break + num_initial_blocks * block_size_bytes) ≡ some base
    → 0 < base
    → ((k : ℕ) → t.heads k ≡ 0)
    → Returns (Inv (initial (base + padding os.current_break))) (init_heap os t)
unfolding init_heap init_from
init_heap-Inv os t base e pos empty =
    let pad = padding os.current_break in
    same (ap (init_from t pad) e) (init_at-Inv t (base + pad) (omega arith) empty)
