-- ===== src/Allocator/Buddy/Release.antt =====
-- A block that was handed out becomes free: the first part of `sfree` of malloc_3.cpp.
use operating_systems_course.Prelude.{
  ℕ, ◌<◌, ◌≡◌, ◌≢◌, refl, true, ◌||◌, List, [], ◌∷◌, ◌==◌, if◌then◌else◌, arith, has, length, inl,
  inr, Bool-cases, eq→eqb,
}
use operating_systems_course.Server.Run.{Returns, mono}
use operating_systems_course.Allocator.{MetaData, write}
use operating_systems_course.Allocator.Links.Chain.{frame}
use operating_systems_course.Allocator.Buddy.{Tracker, insert_free}
use operating_systems_course.Allocator.Buddy.Sizes.{payload, block_size-ge}
use operating_systems_course.Allocator.Buddy.Split.{Kept}
use operating_systems_course.Allocator.Buddy.Invariant.{Blocks, In, busy, Inv, free_or_live}
use operating_systems_course.Allocator.Buddy.Change.{with_free, IsApart, insert_free-Inv}

-- A list without a number.
abbrev pub drop_all : ℕ → List ℕ → List ℕ
drop_all b [] = []
drop_all b (x ∷ xs) = if x == b then drop_all b xs else x ∷ drop_all b xs

pub has-drop_all :
    (c b : ℕ) (xs : List ℕ) → has c (drop_all b xs) ≡ true → (has c xs ≡ true) × (c ≢ b)
has-drop_all c b [] c_in = absurd (cc)
has-drop_all c b (x ∷ xs) c_in = elim (Bool-cases (x == b)) [
  | inl here ↦ let (c_rest, n) = has-drop_all c b xs (rw here at c_in) in (ground arith, n)
  | inr there ↦
      let c_in' : c == x || has c (drop_all b xs) ≡ true = rw there at c_in in
      elim (Bool-cases (c == x)) [
        | inl at_x ↦ (ground arith, λ z. absurd (ground (arith, z)))
        | inr n ↦ let (c_rest, ne) = has-drop_all c b xs (ground arith) in (ground arith, ne)
      ]
]

pub drop_all-keeps :
    (c b : ℕ) (xs : List ℕ) → has c xs ≡ true → c ≢ b → has c (drop_all b xs) ≡ true
drop_all-keeps c b [] c_in n = absurd (cc)
drop_all-keeps c b (x ∷ xs) c_in n = elim (Bool-cases (c == x)) [
  | inl at_x ↦ ground (arith, n)
  | inr other ↦ let rest = drop_all-keeps c b xs (ground arith) n in ground (arith, rest)
]

-- The blocks without one that is handed out, and with that one free.
abbrev pub drop_live : Blocks → (k b : ℕ) → Blocks
drop_live B k b = record {
  free = B.free;
  live = λ j. if j == k then drop_all b (B.live j) else B.live j;
}

abbrev pub released : Blocks → (k b : ℕ) → Blocks
released B k b = with_free (drop_live B k b) k b

-- The table with the header of `b` marked as free.
abbrev pub freed : Tracker → (b : ℕ) → MetaData → Tracker
freed t b m = record t { heap = write t.heap b (record m { is_free = true }) }

module _ (B : Blocks) (t : Tracker) (k b q r : ℕ) (inv : Inv B t)
    (b_live : has b (B.live k) ≡ true) where
  kept_live : (j a : ℕ) → has a ((drop_live B k b).live j) ≡ true → has a (B.live j) ≡ true
  kept_live j a a_live = elim (Bool-cases (j == k)) [
    | inr other ↦ rw other at a_live
    | inl here ↦ let (a_in, n) = has-drop_all a b (B.live j) (rw here at a_live) in a_in
  ]

  kept_ne : (j a : ℕ) → has a ((drop_live B k b).live j) ≡ true → (j ≡ k) × (a ≡ b) → ⊥
  kept_ne j a a_live (e, f) =
      let a_live' : has a (drop_all b (B.live j)) ≡ true = rw (eq→eqb j k e) at a_live in
      let (a_in, n) = has-drop_all a b (B.live j) a_live' in n f

  kept-In : (j a : ℕ) → In (drop_live B k b) j a → In B j a
  kept-In j a (inl a_free) = inl a_free
  kept-In j a (inr a_live) = inr (kept_live j a a_live)

  kept_other : (j a : ℕ) → In (drop_live B k b) j a → (j ≡ k) × (a ≡ b) → ⊥
  kept_other j a (inl a_free) (e, f) = free_or_live B t j k b inv (rw f at a_free) b_live
  kept_other j a (inr a_live) both = kept_ne j a a_live both

  kept-IsApart : IsApart (drop_live B k b) k b
  kept-IsApart j a a_in = elim (inv.apart j a k b (kept-In j a a_in) (inr b_live)) [
    | inl both ↦ absurd (kept_other j a a_in both)
    | inr sides ↦ sides
  ]

  away : (j a : ℕ) → In (drop_live B k b) j a → a ≢ b
  away j a a_in e = elim (kept-IsApart j a a_in) [
    | inl p ↦ omega (arith, block_size-ge j)
    | inr p ↦ omega (arith, block_size-ge k)
  ]

  freed-Inv : Inv (drop_live B k b) (freed t b (busy (payload k) q r))
  freed-Inv = record {
    lists = λ j.
        frame (payload j) t.heap (freed t b (busy (payload k) q r)).heap 0 (t.heads j) (B.free j)
          (λ p pos p_in. ground (arith, away j p (inl p_in))) (inv.lists j);
    held = λ j a a_live.
        let (n, p, e) = inv.held j a (kept_live j a a_live) in
        (n, p, ground (arith, away j a (inr a_live), e));
    apart = λ j a i c x y. inv.apart j a i c (kept-In j a x) (kept-In i c y);
    started = inv.started;
    counted = inv.counted;
  }

  -- A block that is handed out, marked as free and put into the list of its order, is free.
  pub insert_free-released :
      (fuel : ℕ)
      → length (B.free k) < fuel
      → 0 < b
      → Returns
          (λ t'. Inv (released B k b) t' × Kept t t')
          (insert_free fuel (freed t b (busy (payload k) q r)) k b)
  insert_free-released fuel room pos =
      mono
        (insert_free-Inv (drop_live B k b) (freed t b (busy (payload k) q r)) k b freed-Inv
          kept-IsApart fuel q r room pos (ground (arith, eq→eqb b b refl)))
        λ t' (inv', put). (inv', put.kept)
