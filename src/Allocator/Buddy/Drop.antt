-- ===== src/Allocator/Buddy/Drop.antt =====
-- A free block that leaves its list, and the invariant: malloc_3.cpp.
use operating_systems_course.Prelude.{
  ℕ, ◌*◌, ◌%◌, ◌≡◌, ◌≢◌, refl, true, false, ◌||◌, some, List, [], ◌∷◌, ◌==◌, if◌then◌else◌, arith,
  has, ap, sym, ◌∙◌, inl, inr, Bool-cases, eqb→eq, eq→eqb, eqb→ne,
}
use operating_systems_course.Server.Run.{Returns, returns, bind, mono}
use operating_systems_course.Allocator.{Heap, meta_size}
use operating_systems_course.Allocator.Links.Chain.{linked, Chain, remove, frame, in_above}
use operating_systems_course.Allocator.Links.Remove.{remove_block-Removed}
use operating_systems_course.Allocator.Buddy.{Tracker, word, remove_free}
use operating_systems_course.Allocator.Buddy.Sizes.{payload, block_size-ge}
use operating_systems_course.Allocator.Buddy.Split.{Kept}
use operating_systems_course.Allocator.Buddy.Invariant.{Blocks, In, Inv, free_or_live}
use operating_systems_course.Allocator.Buddy.Change.{IsApart}

-- What is in an ascending list without `b`.
has-remove :
    (s : ℕ) (h : Heap) (pv p c b : ℕ) (xs : List ℕ)
    → Chain s h pv p xs
    → has c (remove b xs) ≡ true
    → (has c xs ≡ true) × (c ≢ b)
has-remove s h pv p c b [] l c_in = absurd (cc)
has-remove s h pv p c b (x ∷ xs) (e, lt, (q, at_x, l)) c_in = elim (Bool-cases (b == x)) [
  | inl here ↦
      let c_rest : has c xs ≡ true = rw here at c_in in
      (ground arith, λ z. absurd (omega (arith, eqb→eq b x here, in_above s h x q c xs l c_rest)))
  | inr there ↦
      let c_in' : c == x || has c (remove b xs) ≡ true = rw there at c_in in
      elim (Bool-cases (c == x)) [
        | inl at_x' ↦ (ground arith, λ z. absurd (ground (arith, z)))
        | inr n ↦
            let (c_rest, ne) = has-remove s h x q c b xs l (ground arith) in (ground arith, ne)
      ]
]

-- The blocks without a free block.
abbrev pub drop_free : Blocks → (k b : ℕ) → Blocks
drop_free B k b = record {
  free = λ j. if j == k then remove b (B.free j) else B.free j;
  live = B.live;
}

-- The table after the block has left its list.
pub record IsDropped (t : Tracker) (k b : ℕ) (xs : List ℕ) (t' : Tracker) : Type 0 where
  pub list : Chain (payload k) t'.heap 0 (t'.heads k) (remove b xs)
  pub header : t'.heap b ≡ some (linked (payload k) 0 0)
  pub headers : (q : ℕ) → has q xs ≡ false → t'.heap q ≡ t.heap q
  pub heads : (i : ℕ) → i ≢ k → t'.heads i ≡ t.heads i
  pub kept : Kept t t'

remove_free-IsDropped :
    (t : Tracker) (k b : ℕ) (xs : List ℕ)
    → Chain (payload k) t.heap 0 (t.heads k) xs
    → has b xs ≡ true
    → Returns (IsDropped t k b xs) (remove_free t k b)
unfolding remove_free
remove_free-IsDropped t k b xs c b_in =
    bind (remove_block-Removed (payload k) t.heap (t.heads k) b xs c b_in) λ (h, head, block) r.
      returns (record {
        list = rw (eq→eqb k k refl) r.chain;
        header = r.cleared;
        headers = r.others;
        heads = λ i n. ground arith;
        kept = refl;
      })

module _ (B : Blocks) (t : Tracker) (k b : ℕ) (inv : Inv B t)
    (b_free : has b (B.free k) ≡ true) where
  -- What is left are other blocks.
  pub left-In : (j a : ℕ) → In (drop_free B k b) j a → In B j a
  left-In j a (inr a_live) = inr a_live
  left-In j a (inl a_free) = elim (Bool-cases (j == k)) [
    | inr other ↦ inl (rw other at a_free)
    | inl here ↦
        let c : Chain (payload j) t.heap 0 (t.heads j) (B.free j) = inv.lists j in
        let (a_in, ne) =
          has-remove (payload j) t.heap 0 (t.heads j) a b (B.free j) c (rw here at a_free) in
        inl a_in
  ]

  left_ne : (j a : ℕ) → In (drop_free B k b) j a → ((j ≡ k) × (a ≡ b) → ⊥)
  left_ne j a (inr a_live) (e, f) = free_or_live B t k j b inv b_free (rw f at a_live)
  left_ne j a (inl a_free) (e, f) =
      let a_free' : has a (remove b (B.free k)) ≡ true = rw (eq→eqb j k e, e) at a_free in
      let (a_in, ne) =
        has-remove (payload k) t.heap 0 (t.heads k) a b (B.free k) (inv.lists k) a_free' in
      ne f

  -- What is left lies apart from the block.
  pub left-IsApart : IsApart (drop_free B k b) k b
  left-IsApart j a a_in = elim (inv.apart j a k b (left-In j a a_in) (inl b_free)) [
    | inl both ↦ absurd (left_ne j a a_in both)
    | inr sides ↦ sides
  ]

  not_listed : (j a : ℕ) → In B j a → j ≢ k → has a (B.free k) ≡ false
  not_listed j a a_in n = elim (Bool-cases (has a (B.free k))) [
    | inr no_block ↦ no_block
    | inl here ↦ elim (inv.apart j a k a a_in (inl here)) [
      | inl (e, _) ↦ absurd (n e)
      | inr sides ↦ absurd (ground (arith, sides, block_size-ge j, block_size-ge k))
    ]
  ]

  live_not_listed : (j a : ℕ) → has a (B.live j) ≡ true → has a (B.free k) ≡ false
  live_not_listed j a a_live = elim (Bool-cases (has a (B.free k))) [
    | inr no_block ↦ no_block
    | inl here ↦ absurd (free_or_live B t k j a inv here a_live)
  ]

  drop-Inv : (t' : Tracker) → IsDropped t k b (B.free k) t' → Inv (drop_free B k b) t'
  drop-Inv t' d = record {
    lists = λ j. elim (Bool-cases (j == k)) [
      | inl here ↦ rw (here, eqb→eq j k here) d.list
      | inr other ↦
          let n = eqb→ne j k other in
          rw (other, d.heads j n)
            (frame (payload j) t.heap t'.heap 0 (t.heads j) (B.free j)
              (λ q pos q_in. d.headers q (not_listed j q (inl q_in) n)) (inv.lists j))
    ];
    held = λ j a a_live.
        let (q, r, e) = inv.held j a a_live in (q, r, d.headers a (live_not_listed j a a_live) ∙ e);
    apart = λ j a i c x y. inv.apart j a i c (left-In j a x) (left-In i c y);
    started = ap (λ x. x.initialized) d.kept ∙ inv.started;
    counted =
        ap (λ x. x.metadata_bytes) d.kept
        ∙ inv.counted
        ∙ ap (λ x. meta_size * x.allocated_blocks % word) (sym d.kept);
  }

  pub remove_free-Inv :
      Returns (λ t'. Inv (drop_free B k b) t' × IsDropped t k b (B.free k) t') (remove_free t k b)
  remove_free-Inv =
      mono (remove_free-IsDropped t k b (B.free k) (inv.lists k) b_free) λ t' d. (drop-Inv t' d, d)
