-- ===== src/Server/Threads.antt =====
-- Families indexed by thread: assignment at one thread, and how many of the first `n` threads pass a
-- test.
use operating_systems_course.Prelude.{
  ℕ, zero, suc, ◌+◌, ◌≤◌, ◌<◌, ◌≡◌, refl, ◌≢◌, Bool, true, false, arith, ◌==◌, if◌then◌else◌,
  Bool-cases, eqb→eq, eqb→ne, ne→eqb, ap, ◌∙◌, inl, inr,
}

module _ {A : Type 0} where
  abbrev pub assign : (ℕ → A) → ℕ → A → ℕ → A
  assign f i a j = if j == i then a else f j

abbrev pub bit : Bool → ℕ
bit true = 1
bit false = 0

module _ {A : Type 0} (p : A → Bool) where
  pub count : ℕ → (ℕ → A) → ℕ
  count zero f = 0
  count (suc n) f = bit (p (f n)) + count n f

  bit-hit : (a : A) → p a ≡ true → bit (p a) ≡ 1
  bit-hit a e = rw e

  count-assign_outside :
      (n : ℕ) (f : ℕ → A) (i : ℕ) (a : A) → n ≤ i → count n (assign f i a) ≡ count n f
  unfolding count
  count-assign_outside zero f i a h = refl
  count-assign_outside (suc n) f i a h =
      rw (ne→eqb n i (omega arith)) (omega (arith, count-assign_outside n f i a (omega arith)))

  -- One thread moves: the count loses its old state and gains the new one.
  pub count-assign :
      (n : ℕ) (f : ℕ → A) (i : ℕ) (a : A)
      → i < n
      → count n (assign f i a) + bit (p (f i)) ≡ count n f + bit (p a)
  unfolding count
  count-assign zero f i a h = absurd (omega arith)
  count-assign (suc n) f i a h = elim (Bool-cases (n == i)) [
    | inl last ↦ rw last (
        omega (
          arith,
          eqb→eq n i last,
          count-assign_outside n f i a (omega (arith, eqb→eq n i last)),
          ap (λ j. bit (p (f j))) (eqb→eq n i last),
        ))
    | inr earlier ↦
        rw earlier (omega (arith, count-assign n f i a (omega (arith, eqb→ne n i earlier))))
  ]

  pub count-pos : (n : ℕ) (f : ℕ → A) (i : ℕ) → i < n → p (f i) ≡ true → 0 < count n f
  unfolding count
  count-pos zero f i h e = absurd (omega arith)
  count-pos (suc n) f i h e = elim (Bool-cases (n == i)) [
    | inl last ↦ omega (arith, bit-hit (f n) (ap (λ j. p (f j)) (eqb→eq n i last) ∙ e))
    | inr earlier ↦ omega (arith, count-pos n f i (omega (arith, eqb→ne n i earlier)) e)
  ]

  pub count-witness : (n : ℕ) (f : ℕ → A) → 0 < count n f → (i : ℕ) × (i < n) × (p (f i) ≡ true)
  unfolding count
  count-witness zero f h = absurd (omega arith)
  count-witness (suc n) f h = elim (Bool-cases (p (f n))) [
    | inl e ↦ (n, omega arith, e)
    | inr e ↦
        let (i, lt, hit) = count-witness n f (omega (arith, h, ap bit e)) in (i, omega arith, hit)
  ]

  pub count-two :
      (n : ℕ) (f : ℕ → A) (i j : ℕ)
      → i < n
      → j < n
      → i ≢ j
      → p (f i) ≡ true
      → p (f j) ≡ true
      → 1 < count n f
  unfolding count
  count-two zero f i j hi hj ne ei ej = absurd (omega arith)
  count-two (suc n) f i j hi hj ne ei ej = elim (Bool-cases (n == i)) [
    | inl last ↦ omega (
      arith,
      eqb→eq n i last,
      bit-hit (f n) (ap (λ j. p (f j)) (eqb→eq n i last) ∙ ei),
      count-pos n f j (omega (arith, eqb→eq n i last)) ej,
    )
    | inr other ↦ elim (Bool-cases (n == j)) [
      | inl last ↦ omega (
        arith,
        bit-hit (f n) (ap (λ j. p (f j)) (eqb→eq n j last) ∙ ej),
        count-pos n f i (omega (arith, eqb→ne n i other)) ei,
      )
      | inr both ↦ omega (
        arith,
        count-two n f i j (omega (arith, eqb→ne n i other)) (omega (arith, eqb→ne n j both)) ne ei
            ej,
      )
    ]
  ]

  pub count-le : (n : ℕ) (f : ℕ → A) → count n f ≤ n
  unfolding count
  count-le zero f = omega arith
  count-le (suc n) f = ground (arith, count-le n f)

  -- A state that every thread is in is not counted if it fails the test.
  pub count-zero : (n : ℕ) (f : ℕ → A) → ((i : ℕ) → p (f i) ≡ false) → count n f ≡ 0
  unfolding count
  count-zero zero f h = refl
  count-zero (suc n) f h = rw (h n, count-zero n f h)

pub count-congr :
    {A : Type 0} (p : A → Bool) (n : ℕ) (f g : ℕ → A)
    → ((i : ℕ) → p (f i) ≡ p (g i))
    → count p n f ≡ count p n g
unfolding count
count-congr p zero f g h = refl
count-congr p (suc n) f g h = rw (h n, count-congr p n f g h)

pub count_mono :
    {A : Type 0} (p q : A → Bool) (n : ℕ) (f : ℕ → A)
    → ((i : ℕ) → bit (p (f i)) ≤ bit (q (f i)))
    → count p n f ≤ count q n f
unfolding count
count_mono p q zero f h = omega arith
count_mono p q (suc n) f h = omega (arith, h n, count_mono p q n f h)

pub count-sum :
    {A : Type 0} (p q r : A → Bool) (n : ℕ) (f : ℕ → A)
    → ((i : ℕ) → bit (p (f i)) ≡ bit (q (f i)) + bit (r (f i)))
    → count p n f ≡ count q n f + count r n f
unfolding count
count-sum p q r zero f h = refl
count-sum p q r (suc n) f h = omega (arith, h n, count-sum p q r n f h)

-- Where each thread passes one of three tests, the three counts make up the threads.
pub count-three :
    {A : Type 0} (p q r : A → Bool) (n : ℕ) (f : ℕ → A)
    → ((i : ℕ) → bit (p (f i)) + bit (q (f i)) + bit (r (f i)) ≡ 1)
    → count p n f + count q n f + count r n f ≡ n
unfolding count
count-three p q r zero f h = refl
count-three p q r (suc n) f h = omega (arith, h n, count-three p q r n f h)
