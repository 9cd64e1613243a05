-- ===== src/Allocator/Buddy/Grid.antt =====
-- Aligned addresses, and the buddy of one: `findBuddy` of malloc_3.cpp.
use Prim.Native.Nat.{bit_xor}
use native.Mathlib.Nat.{
  lt_of_mul-lt-mul_right, mul_assoc, add-mul, mul-le-mul_right, add-zero, add-suc, one-mul,
}
use operating_systems_course.Prelude.{
  ℕ, zero, suc, ◌+◌, ◌*◌, ◌-◌, ◌/◌, ◌%◌, ◌^◌, ◌≤◌, ◌<◌, ◌≡◌, refl, arith, ap, sym, ◌∙◌, inl, inr,
  Bool-cases, ◌==◌, ltb,
}
use operating_systems_course.Prelude.Xor.{bit_xor-pow, toggled}
use operating_systems_course.Allocator.{block_size, meta_size}
use operating_systems_course.Allocator.Buddy.{find_buddy}
use operating_systems_course.Allocator.Buddy.Sizes.{payload, block_size-suc, block_size-ge}

-- A multiple of `t`.
abbrev pub IsAligned : (t a : ℕ) → Type 0
IsAligned t a = (q : ℕ) × (a ≡ q * t)

block_size-pow : (k : ℕ) → block_size k ≡ 2 ^ (k + 7)
unfolding block_size
block_size-pow zero = refl
block_size-pow (suc k) =
    let h : suc k + 7 ≡ suc (k + 7) = omega arith in rw h (omega (arith, block_size-pow k))

-- The sizes of larger blocks are multiples of those of smaller ones.
pub block_size-IsAligned : (j d : ℕ) → IsAligned (block_size j) (block_size (j + d))
block_size-IsAligned j zero = (1, ap block_size (add-zero j) ∙ sym (one-mul (block_size j)))
block_size-IsAligned j (suc d) =
    let (m, e) = block_size-IsAligned j d in
    (
      2 * m,
      ap block_size (add-suc j d)
          ∙ block_size-suc (j + d)
          ∙ ap (λ x. 2 * x) e
          ∙ sym (mul_assoc 2 m (block_size j)),
    )

-- An address on the grid that lies below the end of a cell lies in it or before it.
pub grid_le : (t a u : ℕ) → IsAligned t a → IsAligned t u → a < u + t → a ≤ u
grid_le t a u (i, e) (r, f) lt =
    let below : i * t < (r + 1) * t = omega (arith, add-mul r 1 t) in
    omega
      (arith, mul-le-mul_right {m = i} {n = r} t (omega (arith, lt_of_mul-lt-mul_right t below)))

-- The buddy of the block of order `k` at `a`: the two make up an aligned block of the next order.
pub data IsBuddy (k a p : ℕ) : Type 0 where
  right : IsAligned (block_size (suc k)) a → p ≡ a + block_size k → IsBuddy k a p
  left : IsAligned (block_size (suc k)) p → a ≡ p + block_size k → IsBuddy k a p

find_buddy-grid : (k q : ℕ) → find_buddy (q * block_size k) (payload k) ≡ toggled q * block_size k
find_buddy-grid k q =
    let s : payload k + meta_size ≡ block_size k = omega (arith, block_size-ge k) in
    ap (λ x. bit_xor (q * block_size k) x) s
    ∙ ap (λ x. bit_xor (q * x) x) (block_size-pow k)
    ∙ bit_xor-pow q (k + 7)
    ∙ ap (λ x. toggled q * x) (sym (block_size-pow k))

-- Twice a multiple of a size is one of the next size.
doubled : (k r : ℕ) → r * 2 * block_size k ≡ r * block_size (suc k)
doubled k r = mul_assoc r 2 (block_size k) ∙ ap (λ x. r * x) (sym (block_size-suc k))

pub find_buddy-IsBuddy :
    (k a : ℕ) → IsAligned (block_size k) a → IsBuddy k a (find_buddy a (payload k))
find_buddy-IsBuddy k a (q, e) =
    let S = block_size k in
    let r = q / 2 in
    let p : find_buddy a (payload k) ≡ toggled q * S =
      ap (λ x. find_buddy x (payload k)) e ∙ find_buddy-grid k q in
    elim (Bool-cases (q % 2 == 0)) [
      | inl even ↦
          let h : r * 2 ≡ q = ground arith in
          let up : toggled q ≡ q + 1 = ground arith in
          right (r, e ∙ ap (λ x. x * S) (sym h) ∙ doubled k r)
            (p ∙ ap (λ x. x * S) up ∙ add-mul q 1 S ∙ omega (arith, e))
      | inr odd ↦
          let h : r * 2 ≡ q - 1 = ground arith in
          let h' : q - 1 + 1 ≡ q = ground arith in
          let down : toggled q ≡ q - 1 = ground arith in
          let p' : find_buddy a (payload k) ≡ (q - 1) * S = p ∙ ap (λ x. x * S) down in
          left (r, p' ∙ ap (λ x. x * S) (sym h) ∙ doubled k r)
            (e ∙ ap (λ x. x * S) (sym h') ∙ add-mul (q - 1) 1 S ∙ omega (arith, p'))
    ]

pub grid_lt : (t a u : ℕ) → IsAligned t a → IsAligned t u → a < u → a + t ≤ u
grid_lt t a u a_on u_on lt = elim (Bool-cases (ltb u (a + t))) [
  | inl near ↦ absurd (omega (arith, grid_le t u a u_on a_on (ground arith)))
  | inr far ↦ ground arith
]

pub IsAligned-next : (t a m : ℕ) → IsAligned t a → IsAligned t (a + m * t)
IsAligned-next t a m (q, e) = (q + m, omega (arith, e, add-mul q m t))

-- An address on a grid is on a finer one.
pub IsAligned-finer : (j k a : ℕ) → j ≤ k → IsAligned (block_size k) a → IsAligned (block_size j) a
IsAligned-finer j k a le (q, e) =
    let (m, f) = block_size-IsAligned j (k - j) in
    let h : j + (k - j) ≡ k = omega arith in
    let f' : block_size k ≡ m * block_size j = ap block_size (sym h) ∙ f in
    (q * m, e ∙ ap (λ x. q * x) f' ∙ sym (mul_assoc q m (block_size j)))

-- An aligned block that reaches into a coarser cell lies in it.
pub cell_within :
    (j k c x u : ℕ)
    → j ≤ k
    → IsAligned (block_size j) c
    → IsAligned (block_size k) u
    → c ≤ x
    → x < c + block_size j
    → u ≤ x
    → x < u + block_size k
    → (u ≤ c) × (c + block_size j ≤ u + block_size k)
cell_within j k c x u le c_on u_on lo hi lo' hi' =
    let s = block_size k in
    let next : IsAligned s (u + 1 * s) = IsAligned-next s u 1 u_on in
    let end_on : IsAligned (block_size j) (u + 1 * s) = IsAligned-finer j k (u + 1 * s) le next in
    (
      grid_le (block_size j) u c (IsAligned-finer j k u le u_on) c_on (omega arith),
      omega (arith, grid_lt (block_size j) c (u + 1 * s) c_on end_on (omega arith)),
    )

-- The block that two buddies make up.
pub record IsPair (k a p u : ℕ) : Type 0 where
  pub parent : IsAligned (block_size (suc k)) u
  pub buddy : IsAligned (block_size k) p
  pub first_in : (u ≤ a) × (a + block_size k ≤ u + block_size (suc k))
  pub buddy_in : (u ≤ p) × (p + block_size k ≤ u + block_size (suc k))

pub IsBuddy-IsPair :
    (k a p : ℕ) → IsAligned (block_size k) a → IsBuddy k a p → (u : ℕ) × IsPair k a p u
IsBuddy-IsPair k a p a_on (right on e) = (
  a,
  record {
    parent = on;
    buddy = let (q, f) = IsAligned-next (block_size k) a 1 a_on in (q, omega (arith, f, e));
    first_in = omega (arith, block_size-suc k);
    buddy_in = omega (arith, block_size-suc k);
  },
)
IsBuddy-IsPair k a p a_on (left on e) = (
  p,
  record {
    parent = on;
    buddy = IsAligned-finer k (suc k) p (omega arith) on;
    first_in = omega (arith, block_size-suc k);
    buddy_in = omega (arith, block_size-suc k);
  },
)
