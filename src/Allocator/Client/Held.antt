-- ===== src/Allocator/Client/Held.antt =====
-- Lists of the regions that a client of malloc_3.cpp holds.
use operating_systems_course.Prelude.{
  ℕ, zero, suc, ◌+◌, ◌≤◌, ◌≡◌, ◌≢◌, true, Option, none, some, List, [], ◌∷◌, ◌==◌, arith, has, map,
  sym, ◌⊎◌, inl, inr, Bool-cases,
}
use operating_systems_course.Allocator.Client.{Region, pick, behind}

-- Each region of a list has a property.
abbrev pub Each : (P : Region → Type 0) → List Region → Type 0
Each P [] = Unit {0}
Each P (x ∷ xs) = P x × Each P xs

-- Any two regions at different places of a list are related.
abbrev pub Pairwise : (R : Region → Region → Type 0) → List Region → Type 0
Pairwise R [] = Unit {0}
Pairwise R (x ∷ xs) = Each (R x) xs × Pairwise R xs

-- Two regions share no byte.
abbrev pub Separate : Region → Region → Type 0
Separate x y = (x.start + x.size ≤ y.start) ⊎ (y.start + y.size ≤ x.start)

abbrev pub Differ : Region → Region → Type 0
Differ x y = x.start ≢ y.start

abbrev pub starts : List Region → List ℕ
starts xs = map (λ x. x.start) xs

pub Each-mono :
    (P Q : Region → Type 0) (xs : List Region) → ((x : Region) → P x → Q x) → Each P xs → Each Q xs
Each-mono P Q [] f all = tt
Each-mono P Q (x ∷ xs) f (p, all) = (f x p, Each-mono P Q xs f all)

pub both :
    (P Q : Region → Type 0) (xs : List Region) → Each P xs → Each Q xs → Each (λ x. P x × Q x) xs
both P Q [] ps qs = tt
both P Q (x ∷ xs) (p, ps) (q, qs) = ((p, q), both P Q xs ps qs)

pub Pairwise-mono :
    (P : Region → Type 0) (R S : Region → Region → Type 0) (xs : List Region)
    → ((x y : Region) → P x → P y → R x y → S x y)
    → Each P xs
    → Pairwise R xs
    → Pairwise S xs
Pairwise-mono P R S [] f ps rs = tt
Pairwise-mono P R S (x ∷ xs) f (p, ps) (r, rs) = (
  Each-mono (λ y. P y × R x y) (S x) xs (λ y (q, s). f x y p q s) (both P (R x) xs ps r),
  Pairwise-mono P R S xs f ps rs,
)

-- What `pick` takes out of a list, and what it leaves.
pub data Picked (x : Region) : List Region → List Region → Type 0 where
  at_front : (xs : List Region) → Picked x (x ∷ xs) xs
  later : (y : Region) (xs ys : List Region) → Picked x xs ys → Picked x (y ∷ xs) (y ∷ ys)

-- Where `pick` finds a region.
pub data IsPick (xs : List Region) : Option (Region × List Region) → Type 0 where
  nothing : IsPick xs none
  region : (x : Region) (ys : List Region) → Picked x xs ys → IsPick xs (some (x, ys))

behind-IsPick :
    (y : Region) (xs : List Region) (o : Option (Region × List Region))
    → IsPick xs o
    → IsPick (y ∷ xs) (behind y o)
unfolding behind
behind-IsPick y xs o nothing = nothing
behind-IsPick y xs o (region x ys p) = region x (y ∷ ys) (later y xs ys p)

pub pick-IsPick : (place : ℕ) (xs : List Region) → IsPick xs (pick place xs)
unfolding pick
pick-IsPick place [] = nothing
pick-IsPick zero (x ∷ xs) = region x xs (at_front xs)
pick-IsPick (suc place) (x ∷ xs) = behind-IsPick x xs (pick place xs) (pick-IsPick place xs)

pub picked-Each :
    (P : Region → Type 0) (x : Region) (xs ys : List Region)
    → Picked x xs ys
    → Each P xs
    → P x × Each P ys
picked-Each P x xs ys (at_front _) (p, all) = (p, all)
picked-Each P x xs ys (later y xs' ys' k) (q, all) =
    let (p, rest) = picked-Each P x xs' ys' k all in (p, (q, rest))

pub picked-Differ :
    (x : Region) (xs ys : List Region)
    → Picked x xs ys
    → Pairwise Differ xs
    → Each (Differ x) ys × Pairwise Differ ys
picked-Differ x xs ys (at_front _) (n, all) = (n, all)
picked-Differ x xs ys (later y xs' ys' k) (n, all) =
    let (m, rest) = picked-Differ x xs' ys' k all in
    let (q, n') = picked-Each (Differ y) x xs' ys' k n in ((λ e. q (sym e), m), (n', rest))

-- A region that starts elsewhere is left.
pub picked_starts :
    (x : Region) (xs ys : List Region) (p : ℕ)
    → Picked x xs ys
    → has p (starts xs) ≡ true
    → p ≢ x.start
    → has p (starts ys) ≡ true
picked_starts x xs ys p (at_front _) p_in n = ground (arith, p_in, n)
picked_starts x xs ys p (later y xs' ys' k) p_in n = elim (Bool-cases (p == y.start)) [
  | inl here ↦ ground arith
  | inr other ↦ let rest = picked_starts x xs' ys' p k (ground arith) n in ground arith
]
