-- ===== src/Allocator/Links/Chain.antt =====
-- What a free list stands for: ascending addresses, with sound links both ways.
use operating_systems_course.Prelude.{
  ℕ, ◌≤◌, ◌<◌, ◌≡◌, refl, true, false, some, List, [], ◌∷◌, ◌==◌, ltb, if◌then◌else◌, arith, has,
  eq→eqb, ◌∙◌, ap, Bool-cases, inl, inr, eqb→eq, if_false,
}
use operating_systems_course.Server.Run.{ok, step}
use operating_systems_course.Allocator.Links.{
  set_next, set_prev, set_prev_if, set_next_if, clear_links,
}
use operating_systems_course.Allocator.{MetaData, Heap, write, load}

-- The header of a free block of `s` bytes.
abbrev pub linked : ℕ → ℕ → ℕ → MetaData
linked s q pv = record { size = s; is_free = true; next = q; prev = pv }

-- From `p` the `next` pointers lead through free blocks of `s` bytes, at the ascending addresses `xs`,
-- to NULL; the `prev` pointers lead back to `pv`.
abbrev pub Chain : ℕ → Heap → (pv p : ℕ) → List ℕ → Type 0
Chain s h pv p [] = p ≡ 0
Chain s h pv p (x ∷ xs) =
    (p ≡ x) × (pv < x) × ((q : ℕ) × (h x ≡ some (linked s q pv)) × Chain s h x q xs)

-- The addresses of a list with one more, or with one less.
abbrev pub insert : ℕ → List ℕ → List ℕ
insert b [] = b ∷ []
insert b (x ∷ xs) = if ltb x b then x ∷ insert b xs else b ∷ (x ∷ xs)

abbrev pub remove : ℕ → List ℕ → List ℕ
remove b [] = []
remove b (x ∷ xs) = if b == x then xs else x ∷ remove b xs

abbrev pub first : List ℕ → ℕ
first [] = 0
first (x ∷ xs) = x

pub first-Chain : (s : ℕ) (h : Heap) (pv p : ℕ) (xs : List ℕ) → Chain s h pv p xs → p ≡ first xs
first-Chain s h pv p [] c = c
first-Chain s h pv p (x ∷ xs) (e, lt, c) = e

-- The list is left alone by what leaves the headers of its blocks alone.
pub frame :
    (s : ℕ) (h h' : Heap) (pv p : ℕ) (xs : List ℕ)
    → ((q : ℕ) → pv < q → has q xs ≡ true → h' q ≡ h q)
    → Chain s h pv p xs
    → Chain s h' pv p xs
frame s h h' pv p [] same c = c
frame s h h' pv p (x ∷ xs) same (e, lt, (q, at_x, c)) = (
  e,
  lt,
  (
    q,
    same x lt (ground (arith, eq→eqb x x refl)) ∙ at_x,
    frame s h h' x q xs (λ r above r_in. same r (omega arith) (ground arith)) c,
  ),
)

-- A block below the list is not in it.
pub below_absent :
    (s : ℕ) (h : Heap) (pv p b : ℕ) (xs : List ℕ) → Chain s h pv p xs → b ≤ pv → has b xs ≡ false
below_absent s h pv p b [] c le = refl
below_absent s h pv p b (x ∷ xs) (e, lt, (q, at_x, c)) le =
    ground (arith, below_absent s h x q b xs c)

-- A block of the list lies above it.
pub in_above :
    (s : ℕ) (h : Heap) (pv p b : ℕ) (xs : List ℕ) → Chain s h pv p xs → has b xs ≡ true → pv < b
in_above s h pv p b [] c b_in = absurd (cc)
in_above s h pv p b (x ∷ xs) (e, lt, (q, at_x, c)) b_in = ground (arith, in_above s h x q b xs c)

-- What stands at a block of the list.
pub member :
    (s : ℕ) (h : Heap) (pv p b : ℕ) (xs : List ℕ)
    → Chain s h pv p xs
    → has b xs ≡ true
    → (q r : ℕ) × (h b ≡ some (linked s q r))
member s h pv p b [] c h_in = absurd (cc)
member s h pv p b (x ∷ xs) (e, lt, (q, at_x, c)) h_in = elim (Bool-cases (b == x)) [
  | inl here ↦ (q, pv, ap h (eqb→eq b x here) ∙ at_x)
  | inr there ↦ member s h x q b xs c (ground arith)
]

pub load-write_self : (h : Heap) (p : ℕ) (m : MetaData) → 0 < p → load (write h p m) p ≡ ok m
load-write_self h p m pos = ground arith

pub load-some : (h : Heap) (p : ℕ) (m : MetaData) → 0 < p → h p ≡ some m → load h p ≡ ok m
load-some h p m pos e = ground arith

-- The links of a header that is there.
module _ (h : Heap) (p q : ℕ) (m : MetaData) (pos : 0 < p) (e : h p ≡ some m) where
  pub set_next-some : set_next h p q ≡ ok (write h p (record m { next = q }))
  unfolding set_next
  set_next-some = step _ (load-some h p m pos e)

  pub set_prev-some : set_prev h p q ≡ ok (write h p (record m { prev = q }))
  unfolding set_prev
  set_prev-some = step _ (load-some h p m pos e)

  pub set_prev_if-some : set_prev_if h p q ≡ ok (write h p (record m { prev = q }))
  unfolding set_prev_if
  set_prev_if-some = if_false (p == 0) _ _ (ground arith) ∙ set_prev-some

  pub set_next_if-some : set_next_if h p q ≡ ok (write h p (record m { next = q }))
  unfolding set_next_if
  set_next_if-some = if_false (p == 0) _ _ (ground arith) ∙ set_next-some

pub clear_links-some :
    (h : Heap) (p : ℕ) (m : MetaData)
    → 0 < p
    → h p ≡ some m
    → clear_links h p ≡ ok (write h p (record m { next = 0; prev = 0 }))
unfolding clear_links
clear_links-some h p m pos e = step _ (load-some h p m pos e)
