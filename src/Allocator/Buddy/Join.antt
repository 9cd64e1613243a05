-- ===== src/Allocator/Buddy/Join.antt =====
-- A round of `attemptFreeBuddyMerge` of malloc_3.cpp keeps the invariant.
use operating_systems_course.Prelude.{
  ℕ, suc, ◌+◌, ◌<◌, ◌≡◌, ◌≢◌, refl, true, some, List, [], ◌∷◌, ◌==◌, arith, has, length, ap, ◌∙◌,
  ◌⊎◌, inl, inr, Bool-cases, eqb→eq, eq→eqb, eqb→ne, ne→eqb, false,
}
use operating_systems_course.Server.Run.{ok, ◌>>=◌, Returns, returns, bind, step, same, value_of}
use operating_systems_course.Allocator.{block_size, meta_size, max_block_order, write, MetaData}
use operating_systems_course.Allocator.Links.Chain.{
  linked, remove, frame, in_above, load-some, member,
}
use operating_systems_course.Allocator.Buddy.{
  Tracker, add, sub, index, insert_free, remove_free, merge_once,
}
use operating_systems_course.Allocator.Buddy.Sizes.{payload, block_size-ge, block_size-suc}
use operating_systems_course.Allocator.Buddy.Split.{IsPut}
use operating_systems_course.Allocator.Buddy.Invariant.{Blocks, In, Inv}
use operating_systems_course.Allocator.Buddy.Change.{
  with_free, IsApart, insert_free-Inv, apart-absent, has-with_free,
}
use operating_systems_course.Allocator.Buddy.Drop.{
  drop_free, left-In, left-IsApart, remove_free-Inv,
}
use operating_systems_course.Allocator.Buddy.Merge.{
  lower, block_order-payload, merge_buddy_blocks-run,
}

-- Two blocks of order `k` side by side.
abbrev pub Adjacent : (k a b : ℕ) → Type 0
Adjacent k a b = (b ≡ a + block_size k) ⊎ (a ≡ b + block_size k)

pub has-remove_other :
    (c b : ℕ) (xs : List ℕ) → has c xs ≡ true → c ≢ b → has c (remove b xs) ≡ true
has-remove_other c b [] c_in n = absurd (cc)
has-remove_other c b (x ∷ xs) c_in n = elim (Bool-cases (b == x)) [
  | inl here ↦ rw here (ground arith)
  | inr there ↦ elim (Bool-cases (c == x)) [
    | inl at_x ↦ rw there (ground arith)
    | inr other ↦ rw (there, has-remove_other c b xs (ground arith) n) (ground arith)
  ]
]

-- The blocks after two of order `k` have become one.
abbrev pub joined : Blocks → (k a b : ℕ) → Blocks
joined B k a b = with_free (drop_free (drop_free B k a) k b) (suc k) (lower a b)

-- What a round of merging leaves: the joined block in place of the two, and headers at both addresses.
pub record IsJoined (B : Blocks) (k a b : ℕ) (out : Tracker × ℕ × ℕ) : Type 0 where
  pub inv : Inv (joined B k a b) out.0
  pub order : out.1 ≡ suc k
  pub merged : out.2 ≡ lower a b
  pub there : (c : ℕ) → (c ≡ a) ⊎ (c ≡ b) → (m : MetaData) × (out.0.heap c ≡ some m)

-- The table with the header of the joined block, and with the statistics.
abbrev rejoined : Tracker → (k m : ℕ) → Tracker
rejoined t k m = record t {
  heap = write t.heap m (linked (payload (suc k)) 0 0);
  allocated_blocks = sub t.allocated_blocks 1;
  allocated_bytes = add t.allocated_bytes meta_size;
  metadata_bytes = sub t.metadata_bytes meta_size;
}

module _ (k a b : ℕ) (beside : Adjacent k a b) where
  a_ne_b : b ≢ a
  a_ne_b e = ground (arith, beside, block_size-ge k)

  lower-IsApart : (B : Blocks) → IsApart B k a → IsApart B k b → IsApart B (suc k) (lower a b)
  lower-IsApart B apart_a apart_b j c c_in = ground (
    arith,
    beside,
    apart_a j c c_in,
    apart_b j c c_in,
    block_size-ge j,
    block_size-ge k,
    block_size-suc k,
  )

-- A header written at a place where no block is keeps the invariant, and so does a merge of two blocks
-- in the statistics.
module _ (B : Blocks) (t : Tracker) (k m : ℕ) (inv : Inv B t)
    (none_there : (j c : ℕ) → In B j c → c ≢ m) where
  rejoined-Inv : Inv B (rejoined t k m)
  rejoined-Inv = record {
    lists = λ j.
        frame (payload j) t.heap (rejoined t k m).heap 0 (t.heads j) (B.free j)
          (λ q pos q_in. ground (arith, none_there j q (inl q_in))) (inv.lists j);
    held = λ j c c_live.
        let (q, r, e) = inv.held j c c_live in
        (q, r, ground (arith, none_there j c (inr c_live), e));
    apart = inv.apart;
    started = inv.started;
    counted = omega (arith, inv.counted);
  }

apart_ne : (B : Blocks) (k m : ℕ) → IsApart B k m → (j c : ℕ) → In B j c → c ≢ m
apart_ne B k m apart j c c_in e = ground (arith, apart j c c_in, block_size-ge j, block_size-ge k)

module _ (fuel : ℕ) (B : Blocks) (t : Tracker) (k a b : ℕ) (inv : Inv B t)
    (lt : k < max_block_order) (a_free : has a (B.free k) ≡ true) (b_free : has b (B.free k) ≡ true)
    (beside : Adjacent k a b) (room : length (B.free (suc k)) < fuel) where
  abbrev B1 : Blocks
  B1 = drop_free B k a

  abbrev B2 : Blocks
  B2 = drop_free B1 k b

  b_left : has b (B1.free k) ≡ true
  b_left = rw (eq→eqb k k refl) (has-remove_other b a (B.free k) b_free (a_ne_b k a b beside))

  merge_once-run :
      (t1 t2 : Tracker)
      → remove_free t k a ≡ ok t1
      → remove_free t1 k b ≡ ok t2
      → 0 < a
      → 0 < b
      → t2.heap a ≡ some (linked (payload k) 0 0)
      → t2.heap b ≡ some (linked (payload k) 0 0)
      → merge_once fuel t k a b ≡ (
          insert_free fuel (rejoined t2 k (lower a b)) (suc k) (lower a b) >>= λ t3.
          ok (t3, suc k, lower a b))
  unfolding merge_once
  merge_once-run t1 t2 runs1 runs2 a_pos b_pos at_a at_b =
      let m = lower a b in
      let h = write t2.heap m (linked (payload (suc k)) 0 0) in
      step _ runs1
      ∙ step _ runs2
      ∙ step _ (merge_buddy_blocks-run t2.heap k a b lt a_pos b_pos at_a at_b)
      ∙ step _ (
          load-some h m (linked (payload (suc k)) 0 0) (ground arith)
            (ground (arith, eq→eqb m m refl)))
      ∙ step _ (ap index (block_order-payload (suc k) (omega arith)))

  free_pos : (c : ℕ) → has c (B.free k) ≡ true → 0 < c
  free_pos c c_in = in_above (payload k) t.heap 0 (t.heads k) c (B.free k) (inv.lists k) c_in

  joined_pos : 0 < lower a b
  joined_pos = ground (arith, free_pos a a_free, free_pos b b_free)

  next_room : length (B2.free (suc k)) < fuel
  next_room = rw (ne→eqb (suc k) k (λ e. absurd (omega arith))) room

  -- What stands at the two addresses: the joined block, and an old header.
  still_there :
      (t2 t3 : Tracker)
      → t2.heap a ≡ some (linked (payload k) 0 0)
      → t2.heap b ≡ some (linked (payload k) 0 0)
      → IsApart B2 k a
      → IsApart B2 k b
      → Inv (joined B k a b) t3
      → IsPut (rejoined t2 k (lower a b)) (payload (suc k)) (suc k) (lower a b) (B2.free (suc k)) t3
      → (c : ℕ) → (c ≡ a) ⊎ (c ≡ b)
      → (m : MetaData) × (t3.heap c ≡ some m)
  still_there t2 t3 at_a at_b apart_a apart_b inv3 put c side = elim (Bool-cases (c == lower a b)) [
    | inl here ↦
        let (q, r, e) =
          member (payload (suc k)) t3.heap 0 (t3.heads (suc k)) (lower a b)
            ((joined B k a b).free (suc k)) (inv3.lists (suc k))
            (has-with_free B2 (suc k) (lower a b)) in
        (_, ap t3.heap (eqb→eq c (lower a b) here) ∙ e)
    | inr n ↦
        let kept : (rejoined t2 k (lower a b)).heap c ≡ t2.heap c = rw n refl in
        let absent : has c (B2.free (suc k)) ≡ false = elim (Bool-cases (has c (B2.free (suc k)))) [
          | inr no_block ↦ no_block
          | inl here ↦ absurd (elim side [
            | inl e ↦ apart_ne B2 k a apart_a (suc k) c (inl here) e
            | inr e ↦ apart_ne B2 k b apart_b (suc k) c (inl here) e
          ])
        ] in
        let old : t3.heap c ≡ t2.heap c = put.headers c (eqb→ne c (lower a b) n) absent ∙ kept in
        elim side [
          | inl e ↦ (_, old ∙ ap t2.heap e ∙ at_a)
          | inr e ↦ (_, old ∙ ap t2.heap e ∙ at_b)
        ]
  ]

  -- A round of `attemptFreeBuddyMerge` on two adjacent free blocks of an order below the highest
  -- returns the block of the next order at the lower address. It is free then in place of the two, the
  -- other blocks are as before, and the invariant holds; a header stands at both addresses still.
  pub merge_once-Inv : Returns (IsJoined B k a b) (merge_once fuel t k a b)
  merge_once-Inv =
      let (t1, runs1, (inv1, d1)) = value_of (remove_free-Inv B t k a inv a_free) in
      let (t2, runs2, (inv2, d2)) = value_of (remove_free-Inv B1 t1 k b inv1 b_left) in
      let apart_a : IsApart B1 k a = left-IsApart B t k a inv a_free in
      let apart_b : IsApart B2 k b = left-IsApart B1 t1 k b inv1 b_left in
      let apart_a' : IsApart B2 k a =
        λ j c c_in. apart_a j c (left-In B1 t1 k b inv1 b_left j c c_in) in
      let apart = lower-IsApart k a b beside B2 apart_a' apart_b in
      let a_gone = apart-absent B1 t1 k a inv1 apart_a in
      let m = lower a b in
      same
        (merge_once-run t1 t2 runs1 runs2 (free_pos a a_free) (free_pos b b_free)
          (d2.headers a a_gone ∙ d1.header) d2.header)
        (bind
          (insert_free-Inv B2 (rejoined t2 k m) (suc k) m
            (rejoined-Inv B2 t2 k m inv2 (apart_ne B2 (suc k) m apart)) apart fuel 0 0 next_room
            joined_pos (ground (arith, eq→eqb m m refl)))
          λ t3 (inv3, put). returns (record {
            inv = inv3;
            order = refl;
            merged = refl;
            there =
                still_there t2 t3 (d2.headers a a_gone ∙ d1.header) d2.header apart_a' apart_b inv3
                  put;
          }))
