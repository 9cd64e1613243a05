-- ===== src/Prelude/Bits.antt =====
-- Facts about one-bit masks in a byte, by evaluation of every case.
use Prim.Native.Nat.{ℕ, zero, suc, ◌-◌, ◌/◌, ◌<◌, bit_and, bit_or, bit_xor}
use mathlib.Core.Path.{◌≡◌, refl}
use mathlib.Core.Logic.{◌⊎◌}
use mathlib.Core.Bool.{Bool, true, false, not, ◌&&◌}
use native.Mathlib.Omega.{arith}
use operating_systems_course.Prelude.Tests.{◌==◌, if◌then◌else◌, eqb→eq}

-- A test of every number below a bound, the largest last.
pub every : (test : ℕ → Bool) (bound : ℕ) → Bool
every test zero = true
every test (suc k) = every test k && test k

pub every-at : (test : ℕ → Bool) (bound k : ℕ) → k < bound → every test bound ≡ true → test k ≡ true
unfolding every
every-at test zero k below all = absurd (omega arith)
every-at test (suc bound) k below all = ground (arith, every-at test bound k)

-- The three masks that the ban words use.
abbrev pub IsMask : ℕ → Type 0
IsMask s = (s ≡ 1) ⊎ ((s ≡ 2) ⊎ (s ≡ 4))

-- A test that holds of every byte and mask, computed, holds of any.
pub mask_table :
    (p : ℕ → ℕ → Bool) (s x : ℕ)
    → every (p 1) 256 ≡ true
    → every (p 2) 256 ≡ true
    → every (p 4) 256 ≡ true
    → IsMask s
    → x < 256
    → p s x ≡ true
mask_table p s x h1 h2 h4 m lt =
    ground (arith, every-at (p 1) 256 x, every-at (p 2) 256 x, every-at (p 4) 256 x)

abbrev toggles : ℕ → ℕ → Bool
toggles s x = bit_xor x s == (if bit_and x s == 0 then bit_or x s else bit_and x (255 - s))

abbrev restores : ℕ → ℕ → Bool
restores s x = bit_xor (bit_xor x s) s == x

abbrev flips : ℕ → ℕ → Bool
flips s x =
    if bit_and x s == 0 then not (bit_and (bit_xor x s) s == 0) else bit_and (bit_xor x s) s == 0

abbrev stays : ℕ → ℕ → Bool
stays s x = elim (bit_xor x s / 256 == 0) [ true ↦ true | false ↦ false ]

pub bit_xor-toggles :
    (s x : ℕ)
    → IsMask s
    → x < 256
    → bit_xor x s ≡ (if bit_and x s == 0 then bit_or x s else bit_and x (255 - s))
unfolding every
bit_xor-toggles s x m lt = eqb→eq _ _ (mask_table toggles s x refl refl refl m lt)

pub bit_xor_twice : (s x : ℕ) → IsMask s → x < 256 → bit_xor (bit_xor x s) s ≡ x
unfolding every
bit_xor_twice s x m lt = eqb→eq _ _ (mask_table restores s x refl refl refl m lt)

pub bit_xor-lt : (s x : ℕ) → IsMask s → x < 256 → bit_xor x s < 256
unfolding every
bit_xor-lt s x m lt = ground (arith, mask_table stays s x refl refl refl m lt)

pub bit_and-bit_xor :
    (s x : ℕ) → IsMask s → x < 256 → (bit_and (bit_xor x s) s == 0) ≡ not (bit_and x s == 0)
unfolding every
bit_and-bit_xor s x m lt = ground (arith, mask_table flips s x refl refl refl m lt)
