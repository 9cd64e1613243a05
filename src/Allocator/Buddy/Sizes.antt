-- ===== src/Allocator/Buddy/Sizes.antt =====
-- The sizes of blocks, and the orders that fit them: malloc_3.cpp.
use operating_systems_course.Prelude.{
  ℕ, zero, suc, ◌+◌, ◌*◌, ◌-◌, ◌/◌, ◌≤◌, ◌<◌, ◌≡◌, some, arith, leb, ◌==◌, eqb→eq, Bool-cases, inl,
  inr, ◌∙◌,
}
use operating_systems_course.Allocator.{block_size, meta_size}
use operating_systems_course.Allocator.Buddy.{fitting_order}

-- The bytes of a block behind its header.
abbrev pub payload : ℕ → ℕ
payload k = block_size k - meta_size

pub block_size-suc : (k : ℕ) → block_size (suc k) ≡ 2 * block_size k
unfolding block_size
block_size-suc k = omega arith

pub block_size-ge : (k : ℕ) → 128 ≤ block_size k
unfolding block_size
block_size-ge zero = omega arith
block_size-ge (suc k) = omega (arith, block_size-ge k, block_size-suc k)

pub half_block : (k : ℕ) → (payload (suc k) + meta_size) / 2 ≡ block_size k
half_block k = omega (arith, block_size-suc k, block_size-ge k)

-- The order found is the least, of those tried, that fits.
pub record IsLeast (order full k : ℕ) : Type 0 where
  pub from : order ≤ k
  pub fits : full ≤ block_size k
  pub least : (j : ℕ) → order ≤ j → j < k → block_size j < full

fitting_order-fits :
    (left order full : ℕ)
    → full ≤ block_size order
    → fitting_order (suc left) order full ≡ some order
unfolding fitting_order
fitting_order-fits left order full le = ground arith

fitting_order-small :
    (left order full : ℕ)
    → block_size order < full
    → fitting_order (suc left) order full ≡ fitting_order left (order + 1) full
unfolding fitting_order
fitting_order-small left order full lt = ground arith

moved :
    (order left full : ℕ)
    → full ≤ block_size (order + suc left)
    → full ≤ block_size (order + 1 + left)
moved order left full fits =
    let e : order + suc left ≡ order + 1 + left = omega arith in rw e at fits

-- An order fits if the last one tried does.
pub fitting_order-IsLeast :
    (left order full : ℕ)
    → full ≤ block_size (order + left)
    → (k : ℕ) × (fitting_order (suc left) order full ≡ some k)
      × IsLeast order full k
      × (k ≤ order + left)
fitting_order-IsLeast zero order full fits =
    let same : order + 0 ≡ order = omega arith in
    let fits' : full ≤ block_size order = rw same at fits in
    (
      order,
      fitting_order-fits zero order full fits',
      record { from = omega arith; fits = fits'; least = λ j p q. absurd (omega arith) },
      omega arith,
    )
fitting_order-IsLeast (suc left) order full fits = elim (Bool-cases (leb full (block_size order))) [
  | inl here ↦ (
    order,
    fitting_order-fits (suc left) order full (ground arith),
    record { from = omega arith; fits = ground arith; least = λ j p q. absurd (omega arith) },
    omega arith,
  )
  | inr there ↦
      let (k, e, l, le) =
        fitting_order-IsLeast left (order + 1) full (moved order left full fits) in
      (
        k,
        fitting_order-small (suc left) order full (ground arith) ∙ e,
        record {
          from = omega (arith, l.from);
          fits = l.fits;
          least = λ j p q. elim (Bool-cases (j == order)) [
            | inl at_order ↦ rw (eqb→eq j order at_order) (ground arith)
            | inr later ↦ l.least j (ground arith) q
          ];
        },
        omega arith,
      )
]

pub block_size_mono : (j k : ℕ) → j ≤ k → block_size j ≤ block_size k
block_size_mono j zero le = rw (zero_of j le) (omega arith)
  where
    zero_of : (j : ℕ) → j ≤ 0 → j ≡ 0
    zero_of j le = omega arith
block_size_mono j (suc k) le = elim (Bool-cases (j == suc k)) [
  | inl here ↦ rw (eqb→eq j (suc k) here) (omega arith)
  | inr below ↦ omega (arith, block_size_mono j k (ground arith), block_size-suc k)
]
