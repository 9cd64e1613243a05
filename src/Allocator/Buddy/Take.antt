-- ===== src/Allocator/Buddy/Take.antt =====
-- The end of `splitBlockBuddy`: the first free block of an order is handed out (malloc_3.cpp).
use operating_systems_course.Prelude.{
  ℕ, ◌+◌, ◌*◌, ◌%◌, ◌<◌, ◌≡◌, refl, true, false, ◌&&◌, some, List, ◌∷◌, ◌==◌, if◌then◌else◌, arith,
  has, ap, sym, ◌∙◌, inl, inr, Bool-cases, eqb→eq, eqb→ne,
}
use operating_systems_course.Server.Run.{ok, Returns, step, returns_at, value_of}
use operating_systems_course.Allocator.{meta_size, write}
use operating_systems_course.Allocator.Links.Chain.{linked, Chain, frame, load-some}
use operating_systems_course.Allocator.Buddy.{Tracker, word, remove_first_free, take_block}
use operating_systems_course.Allocator.Buddy.Sizes.{payload}
use operating_systems_course.Allocator.Buddy.Split.{remove_first_free-IsTaken, IsTaken}
use operating_systems_course.Allocator.Buddy.Invariant.{
  Blocks, In, busy, Inv, b_first, rest_ne, absent, live_absent,
}

-- The blocks after `b`, the first free one of order `i`, is handed out.
abbrev pub hand_out : Blocks → (i b : ℕ) → List ℕ → Blocks
hand_out B i b rest = record {
  free = λ j. if j == i then rest else B.free j;
  live = λ j. if j == i then b ∷ B.live j else B.live j;
}

-- The table with the header of `b` marked as not free.
abbrev marked : Tracker → (i b : ℕ) → Tracker
marked t i b = record t { heap = write t.heap b (busy (payload i) 0 0) }

module _ (B : Blocks) (t t1 : Tracker) (i b : ℕ) (rest : List ℕ) (inv : Inv B t)
    (first : B.free i ≡ b ∷ rest) (taken : IsTaken t (payload i) i b rest (t1, b)) where
  was-In : (j a : ℕ) → In (hand_out B i b rest) j a → In B j a
  was-In j a (inl a_free) = elim (Bool-cases (j == i)) [
    | inl here ↦ inl (rw (eqb→eq j i here, first) (ground (arith, rw here at a_free)))
    | inr other ↦ inl (rw other at a_free)
  ]
  was-In j a (inr a_live) = elim (Bool-cases (j == i)) [
    | inl here ↦ elim (Bool-cases (a == b)) [
      | inl at_b ↦ rw (eqb→eq j i here, eqb→eq a b at_b) (b_first B t i b rest inv first)
      | inr n ↦ inr (ground arith)
    ]
    | inr other ↦ inr (rw other at a_live)
  ]

  unchanged : (q : ℕ) → has q (b ∷ rest) ≡ false → (marked t1 i b).heap q ≡ t.heap q
  unchanged q q_absent = ground (arith, taken.headers q q_absent)

  marked_here :
      (j a : ℕ) → (j == i) && (a == b) ≡ true → (marked t1 i b).heap a ≡ some (busy (payload j) 0 0)
  marked_here j a here =
      let at_i : j ≡ i = eqb→eq j i (ground arith) in
      let at_b : (a == b) ≡ true = ground arith in rw (at_i, at_b) refl

  hand_out-Inv : Inv (hand_out B i b rest) (marked t1 i b)
  hand_out-Inv = record {
    lists = λ j. elim (Bool-cases (j == i)) [
      | inl here ↦
          rw (here, eqb→eq j i here)
            (frame (payload i) t1.heap (marked t1 i b).heap 0 (t1.heads i) rest
              (λ q pos q_in. ground (arith, rest_ne B t i b rest inv first q q_in)) taken.list)
      | inr other ↦
          let n = eqb→ne j i other in
          rw (other, taken.heads j n)
            (frame (payload j) t.heap (marked t1 i b).heap 0 (t.heads j) (B.free j)
              (λ q pos q_in. unchanged q (absent B t i b rest inv first j q (inl q_in) n))
              (inv.lists j))
    ];
    held = λ j a a_live. elim (Bool-cases ((j == i) && (a == b))) [
      | inl here ↦ (0, 0, marked_here j a here)
      | inr other ↦
          let a_B : has a (B.live j) ≡ true = ground arith in
          let (q, r, e) = inv.held j a a_B in
          (q, r, unchanged a (live_absent B t i b rest inv first j a a_B) ∙ e)
    ];
    apart = λ j a k c x y. inv.apart j a k c (was-In j a x) (was-In k c y);
    started = ap (λ x. x.initialized) taken.kept ∙ inv.started;
    counted =
        ap (λ x. x.metadata_bytes) taken.kept
        ∙ inv.counted
        ∙ ap (λ x. meta_size * x.allocated_blocks % word) (sym taken.kept);
  }

-- What `take_block` returns, with the blocks there are then.
pub record IsHanded (B : Blocks) (i b : ℕ) (rest : List ℕ) (out : Tracker × ℕ) : Type 0 where
  pub pointer : out.1 ≡ b + meta_size
  pub inv : Inv (hand_out B i b rest) out.0

take_block-run :
    (t t1 : Tracker) (i b : ℕ)
    → 0 < b
    → t1.heap b ≡ some (linked (payload i) 0 0)
    → remove_first_free t i ≡ ok (t1, b)
    → take_block t i ≡ ok (marked t1 i b, b + meta_size)
unfolding take_block
take_block-run t t1 i b pos at_b taken =
    step _ taken ∙ step _ (load-some t1.heap b (linked (payload i) 0 0) pos at_b)

pub take_block-IsHanded :
    (B : Blocks) (t : Tracker) (i b : ℕ) (rest : List ℕ)
    → Inv B t
    → B.free i ≡ b ∷ rest
    → Returns (IsHanded B i b rest) (take_block t i)
take_block-IsHanded B t i b rest inv first =
    let c : Chain (payload i) t.heap 0 (t.heads i) (b ∷ rest) = rw first at (inv.lists i) in
    let (_, pos, _) = c in
    let ((t1, b'), runs, taken) = value_of (remove_first_free-IsTaken t (payload i) i b rest c) in
    returns_at (take_block-run t t1 i b pos taken.header (runs ∙ ap (λ x. ok (t1, x)) taken.block))
      (record { pointer = refl; inv = hand_out-Inv B t t1 i b rest inv first (at_b taken) })
  where
    at_b :
        {out : Tracker × ℕ}
        → IsTaken t (payload i) i b rest out
        → IsTaken t (payload i) i b rest (out.0, b)
    at_b x = record {
      block = refl;
      list = x.list;
      header = x.header;
      headers = x.headers;
      heads = x.heads;
      kept = x.kept;
    }
