-- ===== src/Prelude/Xor.antt =====
-- Exclusive or with a power of two, from the recursion on binary digits.
use Prim.Native.Nat.{
  ℕ, zero, suc, ◌+◌, ◌-◌, ◌*◌, ◌/◌, ◌%◌, ◌^◌, ◌≤◌, ◌<◌, digits, differ, bit_xor, bit_xor-bitwise,
}
use mathlib.Core.Path.{◌≡◌, refl, ap, sym, ◌∙◌}
use native.Mathlib.Omega.{arith}
use native.Mathlib.Nat.{le_refl, mul-one, mul_assoc}
use operating_systems_course.Prelude.Tests.{◌==◌, if◌then◌else◌}

abbrev xor_digits : ℕ → ℕ → ℕ → ℕ
xor_digits n a b = digits (λ b. b) differ n a b

-- More fuel than digits changes nothing.
xor_digits_fuel : (n m a b : ℕ) → a ≤ n → a ≤ m → xor_digits n a b ≡ xor_digits m a b
xor_digits_fuel zero zero a b p q = refl
xor_digits_fuel zero (suc m) zero b p q = refl
xor_digits_fuel zero (suc m) (suc a) b p q = absurd (omega arith)
xor_digits_fuel (suc n) zero zero b p q = refl
xor_digits_fuel (suc n) zero (suc a) b p q = absurd (omega arith)
xor_digits_fuel (suc n) (suc m) zero b p q = refl
xor_digits_fuel (suc n) (suc m) (suc a) b p q =
    omega (arith, xor_digits_fuel n m (suc a / 2) (b / 2) (omega arith) (omega arith))

zero-bit_xor : (b : ℕ) → bit_xor 0 b ≡ b
zero-bit_xor b = bit_xor-bitwise 0 b

differ-zero_left : (x : ℕ) → differ 0 x ≡ x
differ-zero_left x = refl

differ-zero : (x : ℕ) → differ x 0 ≡ x
differ-zero zero = refl
differ-zero (suc x) = refl

differ-one : (x : ℕ) → x < 2 → differ x 1 ≡ 1 - x
differ-one zero lt = refl
differ-one (suc zero) lt = refl
differ-one (suc (suc x)) lt = absurd (omega arith)

-- The lowest digit, and the others.
pub bit_xor_step : (a b : ℕ) → bit_xor a b ≡ bit_xor (a / 2) (b / 2) * 2 + differ (a % 2) (b % 2)
bit_xor_step zero b = omega (arith, zero-bit_xor b, zero-bit_xor (b / 2), differ-zero_left (b % 2))
bit_xor_step (suc a) b = omega (
  arith,
  bit_xor-bitwise (suc a) b,
  bit_xor-bitwise (suc a / 2) (b / 2),
  xor_digits_fuel a (suc a / 2) (suc a / 2) (b / 2) (omega arith) (omega arith),
)

-- A number with its lowest digit changed.
abbrev pub toggled : ℕ → ℕ
toggled q = if q % 2 == 0 then q + 1 else q - 1

bit_xor-zero_fuel : (n a : ℕ) → a ≤ n → bit_xor a 0 ≡ a
bit_xor-zero_fuel n zero le = refl
bit_xor-zero_fuel zero (suc a) le = absurd (omega arith)
bit_xor-zero_fuel (suc n) (suc a) le = omega (
  arith,
  bit_xor_step (suc a) 0,
  bit_xor-zero_fuel n (suc a / 2) (omega arith),
  differ-zero (suc a % 2),
)

bit_xor-one : (q : ℕ) → bit_xor q 1 ≡ toggled q
bit_xor-one q = ground (
  arith,
  bit_xor_step q 1,
  bit_xor-zero_fuel (q / 2) (q / 2) (le_refl _),
  differ-one (q % 2) (omega arith),
)

double : (a b : ℕ) → bit_xor (a * 2) (b * 2) ≡ bit_xor a b * 2
double a b =
    let ha : a * 2 / 2 ≡ a = omega arith in
    let hb : b * 2 / 2 ≡ b = omega arith in
    let pa : a * 2 % 2 ≡ 0 = omega arith in
    let pb : b * 2 % 2 ≡ 0 = omega arith in
    bit_xor_step (a * 2) (b * 2) ∙ rw (ha, hb, pa, pb) (omega arith)

pub bit_xor-pow : (q n : ℕ) → bit_xor (q * 2 ^ n) (2 ^ n) ≡ toggled q * 2 ^ n
bit_xor-pow q zero = ap (λ x. bit_xor x 1) (mul-one q) ∙ bit_xor-one q ∙ sym (mul-one (toggled q))
bit_xor-pow q (suc n) =
    let e : 2 ^ suc n ≡ 2 ^ n * 2 = omega arith in
    ap (λ x. bit_xor (q * x) x) e
    ∙ ap (λ x. bit_xor x (2 ^ n * 2)) (sym (mul_assoc q (2 ^ n) 2))
    ∙ double (q * 2 ^ n) (2 ^ n)
    ∙ ap (λ x. x * 2) (bit_xor-pow q n)
    ∙ mul_assoc (toggled q) (2 ^ n) 2
    ∙ ap (λ x. toggled q * x) (sym e)
