-- ===== src/Server/Stats/Digits.antt =====
-- Numbers are printed in decimal: reading the digits back gives the number.
use operating_systems_course.Prelude.{
  ℕ, zero, suc, ◌+◌, ◌-◌, ◌*◌, ◌/◌, ◌%◌, ◌^◌, ◌≤◌, ◌<◌, ◌≡◌, refl, List, [], ◌∷◌, ltb, length,
  length-append, arith, Bool-cases, inl, inr, ◌∙◌, ap,
}
use operating_systems_course.Server.Stats.{digits, decimal, zeros, decimal_06}

-- The number that digits print, behind those that printed `n`.
abbrev pub read_on : (n : ℕ) → List ℕ → ℕ
read_on n [] = n
read_on n (d ∷ ds) = read_on (n * 10 + (d - 48)) ds

digits-small : (fuel n : ℕ) (acc : List ℕ) → n < 10 → digits (suc fuel) n acc ≡ (48 + n) ∷ acc
unfolding digits
digits-small fuel n acc lt = ground arith

digits-large :
    (fuel n : ℕ) (acc : List ℕ)
    → 10 ≤ n
    → digits (suc fuel) n acc ≡ digits fuel (n / 10) ((48 + n % 10) ∷ acc)
unfolding digits
digits-large fuel n acc le = ground arith

read_on-digits :
    (fuel n : ℕ) (acc : List ℕ) → n < fuel → read_on 0 (digits fuel n acc) ≡ read_on n acc
read_on-digits zero n acc lt = absurd (omega arith)
read_on-digits (suc fuel) n acc lt = elim (Bool-cases (ltb n 10)) [
  | inl small ↦
      ap (read_on 0) (digits-small fuel n acc (ground arith))
      ∙ ap (λ k. read_on k acc) (omega arith)
  | inr large ↦
      ap (read_on 0) (digits-large fuel n acc (ground arith))
      ∙ (read_on-digits fuel (n / 10) ((48 + n % 10) ∷ acc) (ground arith)
          ∙ ap (λ k. read_on k acc) (omega arith))
]

-- What `%ld` prints for a number reads as that number.
pub read_on-decimal : (n : ℕ) → read_on 0 (decimal n) ≡ n
unfolding decimal
read_on-decimal n = read_on-digits (suc n) n [] (omega arith)

pub length-digits :
    (k fuel n : ℕ) (acc : List ℕ) → n < 10 ^ suc k → length (digits fuel n acc) ≤ length acc + suc k
unfolding digits
length-digits k zero n acc lt = omega arith
length-digits zero (suc fuel) n acc lt = rw (digits-small fuel n acc (omega arith)) (omega arith)
length-digits (suc k) (suc fuel) n acc lt = elim (Bool-cases (ltb n 10)) [
  | inl small ↦ rw (digits-small fuel n acc (ground arith)) (omega arith)
  | inr large ↦
      rw (digits-large fuel n acc (ground arith))
        (omega (arith, length-digits k fuel (n / 10) ((48 + n % 10) ∷ acc) (omega arith)))
]

pub length-decimal : (k n : ℕ) → n < 10 ^ suc k → length (decimal n) ≤ suc k
unfolding decimal
length-decimal k n lt = omega (arith, length-digits k (suc n) n [] lt)

length-zeros : (n : ℕ) → length (zeros n) ≡ n
unfolding zeros
length-zeros zero = refl
length-zeros (suc n) = omega (arith, length-zeros n)

pub length-decimal_06 : (k n : ℕ) → 5 ≤ k → n < 10 ^ suc k → length (decimal_06 n) ≤ suc k
unfolding decimal_06
length-decimal_06 k n six lt = omega (
  arith,
  length-append (zeros (6 - length (decimal n))) (decimal n),
  length-zeros (6 - length (decimal n)),
  length-decimal k n lt,
)
