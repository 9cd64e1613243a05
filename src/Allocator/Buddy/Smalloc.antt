-- ===== src/Allocator/Buddy/Smalloc.antt =====
-- `splitBlockBuddy` of malloc_3.cpp hands out a block that is its own.
use operating_systems_course.Prelude.{
  ℕ, zero, suc, ◌+◌, ◌-◌, ◌≤◌, ◌<◌, ◌≡◌, refl, true, false, some, List, [], ◌∷◌, ◌==◌, leb, arith,
  has, ap, ◌∙◌, inl, inr, Bool-cases, eqb→eq, eq→eqb, eqb→ne,
}
use operating_systems_course.Server.Run.{
  Run, ok, ◌>>=◌, Returns, bind, mono, step, same, returns_at,
}
use operating_systems_course.Allocator.{block_size, meta_size}
use operating_systems_course.Allocator.Links.Chain.{linked, load-some}
use operating_systems_course.Allocator.Buddy.{Tracker, split_once, split_down}
use operating_systems_course.Allocator.Buddy.Sizes.{
  payload, block_size-suc, block_size-ge, half_block, block_size_mono,
}
use operating_systems_course.Allocator.Buddy.Split.{split_once-IsSplit}
use operating_systems_course.Allocator.Buddy.Invariant.{
  Blocks, Inv, split_blocks, split-Inv, b_first,
}
use operating_systems_course.Allocator.Buddy.Tiling.{Tiled}
use operating_systems_course.Allocator.Buddy.Tiles.{split-Tiled}

-- The first block of the list of an order, and the header that stands there.
first_block :
    (B : Blocks) (t : Tracker) (k b : ℕ) (rest : List ℕ)
    → Inv B t
    → B.free k ≡ b ∷ rest
    → (0 < b) × (t.heads k ≡ b) × ((q : ℕ) × (t.heap b ≡ some (linked (payload k) q 0)))
first_block B t k b rest inv e =
    let (at_head, pos, (q, at_b, c)) = rw e at (inv.lists k) in (pos, at_head, (q, at_b))

no_head : (B : Blocks) (t : Tracker) (k : ℕ) → Inv B t → B.free k ≡ [] → t.heads k ≡ 0
no_head B t k inv e = rw e at (inv.lists k)

module _ (fuel : ℕ) (t : Tracker) (k requested q : ℕ) (pos : 0 < t.heads (suc k))
    (at_b : t.heap (t.heads (suc k)) ≡ some (linked (payload (suc k)) q 0)) where
  test : ℕ → Run Tracker
  test total = elim (leb requested (total - meta_size)) [
    | true ↦ split_once fuel t k >>= λ t'. split_down fuel t' k requested
    | false ↦ ok t
  ]

  split_down-test : split_down fuel t (suc k) requested ≡ test (block_size k)
  unfolding split_down test
  split_down-test =
      step _ (load-some t.heap (t.heads (suc k)) (linked (payload (suc k)) q 0) pos at_b)
      ∙ ap test (half_block k)

  split_down-more :
      requested ≤ payload k
      → split_down fuel t (suc k) requested
        ≡ (split_once fuel t k >>= λ t'. split_down fuel t' k requested)
  unfolding test
  split_down-more le = split_down-test ∙ ground arith

  split_down-stop : payload k < requested → split_down fuel t (suc k) requested ≡ ok t
  unfolding test
  split_down-stop lt = split_down-test ∙ ground arith

split_down-zero : (fuel : ℕ) (t : Tracker) (requested : ℕ) → split_down fuel t zero requested ≡ ok t
unfolding split_down
split_down-zero fuel t requested = refl

still_empty :
    (B : Blocks) (k b : ℕ) (rest : List ℕ) (j : ℕ)
    → j < k
    → B.free j ≡ []
    → (split_blocks B k b rest).free j ≡ []
still_empty B k b rest j lt e = ground (arith, e)

-- What the loop leaves: a block at the same address at the front of the list of the wanted order.
pub record IsDown (B : Blocks) (target b : ℕ) (t' : Tracker) : Type 0 where
  pub blocks : Blocks
  pub inv : Inv blocks t'
  pub live : blocks.live ≡ B.live
  pub rest : List ℕ
  pub first : blocks.free target ≡ b ∷ rest
  pub keeps : (base : ℕ) → Tiled base B → Tiled base blocks

right_new :
    (B : Blocks) (t : Tracker) (k b : ℕ) (rest : List ℕ)
    → Inv B t
    → B.free (suc k) ≡ b ∷ rest
    → has (b + block_size k) rest ≡ false
right_new B t k b rest inv first = elim (Bool-cases (has (b + block_size k) rest)) [
  | inr new ↦ new
  | inl here ↦ absurd (
      ground (
        arith,
        inv.apart (suc k) b (suc k) (b + block_size k) (b_first B t (suc k) b rest inv first)
            (inl (rw first (ground arith))),
        block_size-ge k,
        block_size-suc k,
      ))
]

module _ (fuel target requested : ℕ) (room : 1 < fuel) (fits : requested ≤ payload target)
    (least : (j : ℕ) → j < target → payload j < requested) where
  pub split_down-IsDown :
      (current : ℕ) (B : Blocks) (t : Tracker) (b : ℕ) (rest : List ℕ)
      → Inv B t
      → target ≤ current
      → B.free current ≡ b ∷ rest
      → ((j : ℕ) → target ≤ j → j < current → B.free j ≡ [])
      → Returns (IsDown B target b) (split_down fuel t current requested)
  split_down-IsDown zero B t b rest inv le first empty = returns_at down_zero (record {
    blocks = B;
    inv = inv;
    live = refl;
    rest = rest;
    first = ap B.free at_zero ∙ first;
    keeps = λ base tiled. tiled;
  })
    where
      at_zero : target ≡ 0
      at_zero = omega arith

      down_zero : split_down fuel t zero requested ≡ ok t
      down_zero = split_down-zero fuel t requested
  split_down-IsDown (suc k) B t b rest inv le first empty =
      let (pos, at_head, (q, at_b)) = first_block B t (suc k) b rest inv first in
      let at_b' : t.heap (t.heads (suc k)) ≡ some (linked (payload (suc k)) q 0) =
        ap t.heap at_head ∙ at_b in
      elim (Bool-cases (target == suc k)) [
        | inl here ↦
            returns_at
              (split_down-stop fuel t k requested q (omega (arith, at_head)) at_b'
                (least k (omega (arith, eqb→eq target (suc k) here))))
              (record {
                blocks = B;
                inv = inv;
                live = refl;
                rest = rest;
                first = ap B.free (eqb→eq target (suc k) here) ∙ first;
                keeps = λ base tiled. tiled;
              })
        | inr above ↦
            let le' : target ≤ k = omega (arith, eqb→ne target (suc k) above) in
            same
              (split_down-more fuel t k requested q (omega (arith, at_head)) at_b'
                (omega (arith, block_size_mono target k le')))
              (bind
                (split_once-IsSplit fuel t k b rest room (rw first at (inv.lists (suc k)))
                  (no_head B t k inv (empty k le' (omega arith)))
                  (right_new B t k b rest inv first))
                λ t' s.
                  mono
                    (split_down-IsDown k (split_blocks B k b rest) t' b ((b + block_size k) ∷ [])
                      (split-Inv B t t' k b rest inv first s) le' (rw (eq→eqb k k refl) refl)
                      (λ j p q'. still_empty B k b rest j q' (empty j p (omega arith))))
                    λ t'' d. record {
                      blocks = d.blocks;
                      inv = d.inv;
                      live = d.live;
                      rest = d.rest;
                      first = d.first;
                      keeps = λ base tiled.
                          d.keeps base
                            (split-Tiled base B k b rest first (empty k le' (omega arith)) tiled);
                    })
      ]
