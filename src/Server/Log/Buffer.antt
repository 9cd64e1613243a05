-- ===== src/Server/Log/Buffer.antt =====
-- Writes into a buffer, and what they leave at its front.
use mathlib.Core.List.{append-nil}
use operating_systems_course.Prelude.{
  ℕ, zero, suc, ◌+◌, ◌*◌, ◌-◌, ◌≤◌, ◌<◌, ◌≡◌, refl, ap, ◌∙◌, ◌⊎◌, inl, inr, List, [], ◌∷◌, ◌++◌,
  leb, length, length-append, length-take, length-drop, take, drop, take-append_of_le, arith,
  Bool-cases,
}
use operating_systems_course.Server.Run.{ok, Returns, returns, mono, step}
use operating_systems_course.Server.Log.{int_limit, int, store, double}

take-zero : {A : Type 0} (xs : List A) → take 0 xs ≡ []
take-zero xs = refl

-- The cells up to the end of what is written.
take-splice :
    (i : ℕ) (bytes cells : List ℕ)
    → i ≤ length cells
    → take (i + length bytes) (take i cells ++ (bytes ++ drop (i + length bytes) cells))
      ≡ take i cells ++ bytes
take-splice i bytes cells le =
    let at_i : length (take i cells) ≡ i = omega (arith, length-take i cells) in
    let left : i + length bytes - length (take i cells) ≡ length bytes = omega arith in
    let none_left : length bytes - length bytes ≡ 0 = omega arith in
    take-append_of_le (i + length bytes) (take i cells) (bytes ++ drop (i + length bytes) cells)
      (omega arith)
    ∙ ap (λ t. take i cells ++ t)
        (ap (λ n. take n (bytes ++ drop (i + length bytes) cells)) left
          ∙ take-append_of_le (length bytes) bytes (drop (i + length bytes) cells) (omega arith)
          ∙ ap (λ n. bytes ++ take n (drop (i + length bytes) cells)) none_left
          ∙ append-nil bytes)

length-splice :
    (i : ℕ) (bytes cells : List ℕ)
    → i + length bytes ≤ length cells
    → length (take i cells ++ (bytes ++ drop (i + length bytes) cells)) ≡ length cells
length-splice i bytes cells le = omega (
  arith,
  length-append (take i cells) (bytes ++ drop (i + length bytes) cells),
  length-append bytes (drop (i + length bytes) cells),
  length-take i cells,
  length-drop (i + length bytes) cells,
)

-- A write inside the buffer puts the bytes behind the first `i`, and keeps the size.
pub record Stored (i : ℕ) (bytes cells cells' : List ℕ) : Type 0 where
  pub front : take (i + length bytes) cells' ≡ take i cells ++ bytes
  pub size : length cells' ≡ length cells

pub store-Stored :
    (i : ℕ) (bytes cells : List ℕ)
    → i + length bytes ≤ length cells
    → Returns (Stored i bytes cells) (store i bytes cells)
unfolding store
store-Stored i bytes cells le = elim (Bool-cases (leb (i + length bytes) (length cells))) [
  | inl fits ↦ rw fits (
      returns (record {
        front = take-splice i bytes cells (omega arith);
        size = length-splice i bytes cells le;
      }))
  | inr beyond ↦ absurd (ground arith)
]

drop-all : (n : ℕ) (xs : List ℕ) → length xs ≤ n → drop n xs ≡ []
drop-all zero [] le = refl
drop-all zero (x ∷ xs) le = absurd (omega arith)
drop-all (suc n) [] le = refl
drop-all (suc n) (x ∷ xs) le = drop-all n xs (omega arith)

-- A write of a whole buffer.
pub store-all :
    (bytes cells : List ℕ) → length cells ≡ length bytes → store 0 bytes cells ≡ ok bytes
unfolding store
store-all bytes cells size = elim (Bool-cases (leb (0 + length bytes) (length cells))) [
  | inl fits ↦ rw (fits, drop-all (0 + length bytes) cells (omega arith)) (ap ok (append-nil bytes))
  | inr beyond ↦ absurd (ground arith)
]

-- A sum in the range of an `int` is that number.
pub int_lem : (n : ℕ) → n < int_limit → int n ≡ ok n
unfolding int
int_lem n lt = ground arith

double-more :
    (fuel need capacity : ℕ)
    → capacity ≤ need
    → need * 2 < int_limit
    → double (suc fuel) need capacity ≡ double fuel need (capacity * 2)
unfolding double
double-more fuel need capacity le in_range = elim (Bool-cases (leb capacity need)) [
  | inl small ↦ rw (double, small) (step _ (int_lem (capacity * 2) (omega arith)))
  | inr large ↦ absurd (ground arith)
]

double-done :
    (fuel need capacity : ℕ) → need < capacity → double (suc fuel) need capacity ≡ ok capacity
unfolding double
double-done fuel need capacity lt = ground arith

-- The loop that doubles a capacity ends above `need`, and at most at twice `need`, if twice `need` is
-- an `int`.
pub double_lem :
    (fuel need capacity : ℕ)
    → 0 < capacity
    → need + 1 < fuel + capacity
    → 0 < fuel
    → need * 2 < int_limit
    → Returns
        (λ c. (need < c) × (capacity ≤ c) × ((c ≡ capacity) ⊎ (c ≤ 2 * need)))
        (double fuel need capacity)
double_lem zero need capacity pos enough some_fuel in_range = absurd (omega arith)
double_lem (suc fuel) need capacity pos enough some_fuel in_range =
    elim (Bool-cases (leb capacity need)) [
      | inl small ↦ rw (double-more fuel need capacity (ground arith) in_range) (
          mono
            (double_lem fuel need (capacity * 2) (omega arith) (omega arith) (ground arith)
              in_range)
            λ c h. (h.0, omega (arith, h.1), ground (arith, h.2)))
      | inr large ↦
          rw (double-done fuel need capacity (ground arith))
            (returns (ground arith, omega arith, inl refl))
    ]
