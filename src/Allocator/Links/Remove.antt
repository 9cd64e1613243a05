-- ===== src/Allocator/Links/Remove.antt =====
-- `removeFirst` and `removeBlock` of malloc_3.cpp keep the list sorted and its links sound.
use operating_systems_course.Prelude.{
  ℕ, ◌<◌, ◌≡◌, ◌≢◌, refl, true, false, some, List, [], ◌∷◌, ◌==◌, arith, has, eq→eqb, eqb→eq,
  eqb→ne, if_true, if_false, Bool-cases, inl, inr, ◌∙◌, ap,
}
use operating_systems_course.Server.Run.{
  ok, ◌>>=◌, Returns, returns, bind, mono, step, returns_at, same,
}
use operating_systems_course.Allocator.{MetaData, Heap, write}
use operating_systems_course.Allocator.Links.{remove_first, unlink, remove_block, set_prev_if}
use operating_systems_course.Allocator.Links.Chain.{
  linked, Chain, remove, first, frame, below_absent, load-some, set_prev_if-some, set_next_if-some,
  clear_links-some, first-Chain, in_above,
}

-- The list without the block, whose links are cleared, and the headers that keep what they hold.
pub record Removed (s : ℕ) (h : Heap) (b : ℕ) (xs : List ℕ) (out : Heap × ℕ × ℕ) : Type 0 where
  pub chain : Chain s out.0 0 out.1 (remove b xs)
  pub block : out.2 ≡ b
  pub cleared : out.0 b ≡ some (linked s 0 0)
  pub others : (q : ℕ) → has q xs ≡ false → out.0 q ≡ h q

-- `if (p) p->prev = pv;` on the first block of a list.
abbrev SetBack : Heap → (s pv p : ℕ) → List ℕ → Heap → Type 0
SetBack h s pv p xs h' = Chain s h' pv p xs × ((q : ℕ) → has q xs ≡ false → h' q ≡ h q)

set_prev_if-back :
    (s : ℕ) (h : Heap) (pv x p : ℕ) (xs : List ℕ)
    → pv < x
    → Chain s h x p xs
    → Returns (SetBack h s pv p xs) (set_prev_if h p pv)
unfolding set_prev_if
set_prev_if-back s h pv x p [] lt c =
    returns_at (if_true (p == 0) _ _ (ground arith)) (c, λ q n. refl)
set_prev_if-back s h pv x p (y ∷ ys) lt (e, above, (q, at_y, c)) =
    returns_at (set_prev_if-some h p pv (linked s q x) (omega arith) (ap h e ∙ at_y)) (
      (
        e,
        omega arith,
        (q, ground (arith, e), frame s h _ y q ys (λ r above' r_in. ground (arith, e)) c),
      ),
      λ r absent. ground (arith, e, eq→eqb r y),
    )

-- `removeFirst` of a list with blocks takes the first, clears its links, and leaves the others; no
-- header outside the list changes.
pub remove_first-Removed :
    (s : ℕ) (h : Heap) (head x : ℕ) (xs : List ℕ)
    → Chain s h 0 head (x ∷ xs)
    → Returns (Removed s h x (x ∷ xs)) (remove_first h head)
unfolding remove_first
remove_first-Removed s h head x xs (e, pos, (q, at_x, c)) =
    same
      (if_false (head == 0) _ _ (ground arith)
        ∙ step _ (load-some h head (linked s q 0) (omega arith) (ap h e ∙ at_x)))
      (bind (set_prev_if-back s h 0 x q xs pos c) λ h1 (c1, others).
        let x_absent = below_absent s h x q x xs c (omega arith) in
        let at_x' : h1 head ≡ some (linked s q 0) = ap h1 e ∙ others x x_absent ∙ at_x in
        returns_at (step _ (clear_links-some h1 head (linked s q 0) (omega arith) at_x')) (record {
          chain =
              rw (eq→eqb x x refl) (
                frame s h1 _ 0 q xs (λ r above r_in. ground (arith, e, x_absent, eqb→eq r head))
                  c1);
          block = e;
          cleared = ground (arith, e);
          others = λ r absent. ground (arith, e, others r);
        }))

-- What `unlink` makes of a list behind `pv`, whose header is `mp`.
record Unlinked (s : ℕ) (h : Heap) (pv : ℕ) (mp : MetaData) (b : ℕ) (xs : List ℕ) (h' : Heap)
    : Type 0 where
  pub chain : Chain s h' pv (first (remove b xs)) (remove b xs)
  pub at_pv : h' pv ≡ some (record mp { next = first (remove b xs) })
  pub cleared : h' b ≡ some (linked s 0 0)
  pub others : (q : ℕ) → q ≢ pv → has q xs ≡ false → h' q ≡ h q

unlink-here :
    (s : ℕ) (h : Heap) (pv x q : ℕ) (mp : MetaData) (xs : List ℕ)
    → 0 < pv
    → pv < x
    → h pv ≡ some mp
    → h x ≡ some (linked s q pv)
    → Chain s h x q xs
    → Returns (Unlinked s h pv mp x (x ∷ xs)) (unlink h x)
unfolding unlink
unlink-here s h pv x q mp xs pos lt at_pv at_x c =
    let h1 = write h pv (record mp { next = q }) in
    let x_absent = below_absent s h x q x xs c (omega arith) in
    let pv_absent = below_absent s h x q pv xs c (omega arith) in
    same
      (step _ (load-some h x (linked s q pv) (omega arith) at_x)
        ∙ step _ (set_next_if-some h pv q mp pos at_pv))
      (bind
        (set_prev_if-back s h1 pv x q xs lt (frame s h h1 x q xs (λ r above r_in. ground arith) c))
        λ h2 (c2, others).
          let at_x' : h2 x ≡ some (linked s q pv) = others x x_absent ∙ ground arith in
          returns_at (clear_links-some h2 x (linked s q pv) (omega arith) at_x') (record {
            chain = rw (eq→eqb x x refl) (
                rw (← first-Chain s h2 pv q xs c2)
                  (frame s h2 _ pv q xs (λ r above r_in. ground (arith, x_absent, eqb→ne r x)) c2));
            at_pv =
                rw (eq→eqb x x refl, ← first-Chain s h2 pv q xs c2)
                  (ground (arith, others pv pv_absent));
            cleared = ground arith;
            others = λ r n absent. ground (arith, others r);
          }))

unlink-Unlinked :
    (s : ℕ) (h : Heap) (pv p b : ℕ) (mp : MetaData) (xs : List ℕ)
    → 0 < pv
    → h pv ≡ some mp
    → mp.next ≡ p
    → Chain s h pv p xs
    → has b xs ≡ true
    → Returns (Unlinked s h pv mp b xs) (unlink h b)
unlink-Unlinked s h pv p b mp [] pos at_pv nx c b_in = absurd (cc)
unlink-Unlinked s h pv p b mp (x ∷ xs) pos at_pv nx (e, lt, (q, at_x, c)) b_in =
    elim (Bool-cases (b == x)) [
      | inl here ↦ rw (eqb→eq b x here) (unlink-here s h pv x q mp xs pos lt at_pv at_x c)
      | inr there ↦
          mono
            (unlink-Unlinked s h x q b (linked s q pv) xs (omega arith) at_x refl c (ground arith))
            λ h' u. record {
              chain = rw there (refl, lt, (first (remove b xs), u.at_pv, u.chain));
              at_pv = rw there (
                  u.others pv (λ z. absurd (omega arith))
                    (below_absent s h x q pv xs c (omega arith))
                  ∙ at_pv
                  ∙ ap (λ t. some (record mp { next = t })) (nx ∙ e));
              cleared = u.cleared;
              others = λ r n absent. u.others r (ground arith) (ground arith);
            }
    ]

remove_block-later :
    (h : Heap) (head b : ℕ)
    → 0 < b
    → b ≢ head
    → remove_block h head b ≡ (unlink h b >>= λ h3. ok (h3, head, b))
unfolding remove_block
remove_block-later h head b pos ne =
    if_false (b == 0) _ _ (ground arith) ∙ if_false (b == head) _ _ (ground arith)

remove_block-first : (h : Heap) (b : ℕ) → 0 < b → remove_block h b b ≡ remove_first h b
unfolding remove_block
remove_block-first h b pos =
    if_false (b == 0) _ _ (ground arith) ∙ if_true (b == b) _ _ (eq→eqb b b refl)

-- `removeBlock` of a block of the list takes it, clears its links, and leaves the others; no header
-- outside the list changes.
pub remove_block-Removed :
    (s : ℕ) (h : Heap) (head b : ℕ) (xs : List ℕ)
    → Chain s h 0 head xs
    → has b xs ≡ true
    → Returns (Removed s h b xs) (remove_block h head b)
remove_block-Removed s h head b [] c b_in = absurd (cc)
remove_block-Removed s h head b (x ∷ xs) (e, pos, (q, at_x, c)) b_in = elim (Bool-cases (b == x)) [
  | inl here ↦
      rw (eqb→eq b x here, e)
        (same (remove_block-first h x pos)
          (remove_first-Removed s h x x xs (refl, pos, (q, at_x, c))))
  | inr there ↦
      let b_in' : has b xs ≡ true = ground arith in
      same
        (ap (λ t. remove_block h t b) e
          ∙ remove_block-later h x b (omega (arith, in_above s h x q b xs c b_in'))
              (eqb→ne b x there))
        (bind (unlink-Unlinked s h x q b (linked s q 0) xs pos at_x refl c b_in') λ h' u.
          returns (record {
            chain = rw there (refl, pos, (first (remove b xs), u.at_pv, u.chain));
            block = refl;
            cleared = u.cleared;
            others = λ r absent. u.others r (ground arith) (ground arith);
          }))
]
