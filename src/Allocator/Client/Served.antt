-- ===== src/Allocator/Client/Served.antt =====
-- What the allocator of malloc_3.cpp promises a client.
use operating_systems_course.Prelude.{
  ℕ, ◌+◌, ◌≤◌, ◌<◌, ◌≡◌, ◌≢◌, refl, true, false, List, ◌∷◌, ◌==◌, if◌then◌else◌, arith, has, ap,
  sym, ◌∙◌, inl, inr, Bool-cases, eqb→eq, eq→eqb, eqb→ne, ◌||◌,
}
use operating_systems_course.Server.Run.{Returns, returns, bind, returns_at}
use operating_systems_course.Allocator.{block_size, meta_size}
use operating_systems_course.Allocator.Buddy.{Tracker}
use operating_systems_course.Allocator.Buddy.Sizes.{block_size-ge}
use operating_systems_course.Allocator.Buddy.Tiling.{Tiled}
use operating_systems_course.Allocator.Buddy.Invariant.{Blocks, Inv}
use operating_systems_course.Allocator.Buddy.Hand.{Handed, Allocation, handed_out, no_room}
use operating_systems_course.Allocator.Calls.{Os, smalloc, mmap_min_limit}
use operating_systems_course.Allocator.Calls.Smalloc.{smalloc-Allocation, smalloc_zero}
use operating_systems_course.Allocator.Client.{Region, Client, take_region}
use operating_systems_course.Allocator.Client.Held.{Each, Pairwise, Differ, starts, Each-mono}

-- A region lies behind the header of a block that is handed out, and fits it.
abbrev pub IsOwned : Blocks → Region → Type 0
IsOwned B x =
    (k : ℕ) × (b : ℕ) × (has b (B.live k) ≡ true)
    × (x.start ≡ b + meta_size)
    × (x.size + meta_size ≤ block_size k)

-- The blocks that are handed out are those of the regions held, each for one region.
pub record IsServed (base : ℕ) (c : Client) : Type 0 where
  pub blocks : Blocks
  pub inv : Inv blocks c.table
  pub tiled : Tiled base blocks
  pub owned : Each (IsOwned blocks) c.held
  pub differ : Pairwise Differ c.held
  pub known : (k b : ℕ) → has b (blocks.live k) ≡ true → has (b + meta_size) (starts c.held) ≡ true

module _ (base : ℕ) (t : Tracker) (held : List Region) (size : ℕ)
    (s : IsServed base (record { table = t; held = held })) (out : Tracker × ℕ)
    (h : Handed s.blocks size out) where
  still_live : (k b : ℕ) → has b (s.blocks.live k) ≡ true → has b (h.blocks.live k) ≡ true
  still_live k b b_live = elim (Bool-cases (k == h.order)) [
    | inl here ↦
        let e = eqb→eq k h.order here in
        let b_live' : has b (s.blocks.live h.order) ≡ true =
          ap (λ j. has b (s.blocks.live j)) (sym e) ∙ b_live in
        rw (e, h.handed) (ground (arith, b_live'))
    | inr other ↦ rw (h.others k (eqb→ne k h.order other)) b_live
  ]

  now_live :
      (k b : ℕ) → has b (h.blocks.live k) ≡ true → (b ≢ h.block) → has b (s.blocks.live k) ≡ true
  now_live k b b_live n = elim (Bool-cases (k == h.order)) [
    | inl here ↦
        let e = eqb→eq k h.order here in
        let b_live' : b == h.block || has b (s.blocks.live h.order) ≡ true =
          rw (e, h.handed) at b_live in
        rw e (ground (arith, n))
    | inr other ↦ rw (h.others k (eqb→ne k h.order other)) at b_live
  ]

  abbrev new : Region
  new = record { start = out.1; size = size }

  -- The new region starts elsewhere.
  new-Differ : (x : Region) → IsOwned s.blocks x → Differ new x
  new-Differ x (k, b, b_live, at_b, fits) e =
      ground (arith, h.own k b b_live, h.pointer, block_size-ge k, block_size-ge h.order)

  handed-IsServed : IsServed base (record { table = out.0; held = new ∷ held })
  handed-IsServed = record {
    blocks = h.blocks;
    inv = h.inv;
    tiled = h.keeps base s.tiled;
    owned = (
      (
        h.order,
        h.block,
        rw h.handed (ground (arith, eq→eqb h.block h.block refl)),
        h.pointer,
        h.fits.fits,
      ),
      Each-mono (IsOwned s.blocks) (IsOwned h.blocks) held
          (λ x (k, b, b_live, at_b, fits). (k, b, still_live k b b_live, at_b, fits)) s.owned,
    );
    differ = (Each-mono (IsOwned s.blocks) (Differ new) held new-Differ s.owned, s.differ);
    known = λ k b b_live. elim (Bool-cases (b == h.block)) [
      | inl here ↦ ground (arith, h.pointer)
      | inr other ↦
          let old = s.known k b (now_live k b b_live (eqb→ne b h.block other)) in
          ground (arith, old)
    ];
  }

-- What `take_region` makes of the answer of `smalloc`.
answered : Client → (size : ℕ) → Tracker × ℕ → Client
answered c size (t, p) =
    if p == 0
    then record c { table = t }
    else record { table = t; held = (record { start = p; size = size }) ∷ c.held }

module _ (base : ℕ) (c : Client) (s : IsServed base c) where
  null-IsServed :
      (size : ℕ) (out : Tracker × ℕ) → out ≡ (c.table, 0) → IsServed base (answered c size out)
  unfolding answered
  null-IsServed size out e = rw e s

  answered-IsServed :
      (size : ℕ) (out : Tracker × ℕ)
      → Allocation s.blocks c.table size out
      → IsServed base (answered c size out)
  unfolding answered
  answered-IsServed size out (no_room e none_free) = null-IsServed size out e
  answered-IsServed size out (handed_out h) =
      let not_null : out.1 == 0 ≡ false = ground (arith, h.pointer) in
      rw not_null (handed-IsServed base c.table c.held size s out h)

-- A call of `smalloc` that the table serves.
pub take_region-IsServed :
    (fuel : ℕ) (os : Os) (base size : ℕ) (c : Client)
    → 1 < fuel
    → size + meta_size ≤ mmap_min_limit
    → IsServed base c
    → Returns (IsServed base) (take_region fuel os c size)
unfolding take_region answered
take_region-IsServed fuel os base size c room fits s = elim (Bool-cases (size == 0)) [
  | inl nothing_asked ↦
      bind {P = λ out. out ≡ (c.table, 0)}
        (returns_at
          (ap (smalloc fuel os c.table) (eqb→eq size 0 nothing_asked)
            ∙ smalloc_zero fuel os c.table s.inv.started)
          refl)
        λ out e. returns (null-IsServed base c s size out e)
  | inr more ↦
      bind (smalloc-Allocation fuel os s.blocks c.table size room (ground arith) fits s.inv)
        λ out a. returns (answered-IsServed base c s size out a)
]
