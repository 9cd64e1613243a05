-- ===== src/Allocator/Links/Insert.antt =====
-- `insertBlock` of malloc_3.cpp keeps the list sorted and its links sound.
use operating_systems_course.Prelude.{
  ℕ, zero, suc, ◌≤◌, ◌<◌, ◌≡◌, ◌≢◌, refl, true, false, some, List, [], ◌∷◌, ◌==◌, ltb, arith, has,
  length, if_true, if_false, Bool-cases, inl, inr, ◌⊎◌, ◌∙◌, ap,
}
use operating_systems_course.Server.Run.{ok, ◌>>=◌, Returns, mono, step, returns_at, same}
use operating_systems_course.Allocator.{MetaData, Heap, write}
use operating_systems_course.Allocator.Links.{walk, link_between, insert_block, set_prev_if}
use operating_systems_course.Allocator.Links.Chain.{
  linked, Chain, insert, first, frame, below_absent, set_next-some, set_prev-some, set_prev_if-some,
  clear_links-some,
}

-- The heap in which `b` stands between `pv` and `p`, where `p` is not NULL.
abbrev between : Heap → (b pv p : ℕ) → (mb m mp : MetaData) → Heap
between h b pv p mb m mp =
    write
      (write (write (write h b (record mb { next = p })) b (record mb { next = p; prev = pv })) pv
        (record m { next = b }))
      p (record mp { prev = b })

abbrev at_end : Heap → (b pv : ℕ) → (mb m : MetaData) → Heap
at_end h b pv mb m =
    write (write (write h b (record mb { next = 0 })) b (record mb { next = 0; prev = pv })) pv
      (record m { next = b })

module _ (h : Heap) (head b pv : ℕ) (mb m : MetaData) (pos : 0 < pv) (lt : pv < b)
    (at_b : h b ≡ some mb) (at_pv : h pv ≡ some m) where
  link_between-at_end : link_between h head b pv 0 ≡ ok (at_end h b pv mb m, head)
  unfolding link_between set_prev_if
  link_between-at_end =
      let h1 = write h b (record mb { next = 0 }) in
      let h2 = write h1 b (record mb { next = 0; prev = pv }) in
      if_false (pv == 0) _ _ (ground arith)
      ∙ step _ (set_next-some h b 0 mb (omega arith) at_b)
      ∙ step _ (set_prev-some h1 b pv (record mb { next = 0 }) (omega arith) (ground arith))
      ∙ step _ (set_next-some h2 pv b m pos (ground arith))

  link_between-between :
      (p : ℕ) (mp : MetaData)
      → b < p
      → h p ≡ some mp
      → link_between h head b pv p ≡ ok (between h b pv p mb m mp, head)
  unfolding link_between
  link_between-between p mp above at_p =
      let h1 = write h b (record mb { next = p }) in
      let h2 = write h1 b (record mb { next = p; prev = pv }) in
      let h3 = write h2 pv (record m { next = b }) in
      if_false (pv == 0) _ _ (ground arith)
      ∙ step _ (set_next-some h b p mb (omega arith) at_b)
      ∙ step _ (set_prev-some h1 b pv (record mb { next = p }) (omega arith) (ground arith))
      ∙ step _ (set_next-some h2 pv b m pos (ground arith))
      ∙ step _ (set_prev_if-some h3 p b mp (omega arith) (ground arith))

-- What the loop and the links make of a list behind `pv`, whose header is `m`.
record Linked (s : ℕ) (h : Heap) (head b pv : ℕ) (m : MetaData) (xs : List ℕ) (out : Heap × ℕ)
    : Type 0 where
  pub head_kept : out.1 ≡ head
  pub chain : Chain s out.0 pv (first (insert b xs)) (insert b xs)
  pub at_pv : out.0 pv ≡ some (record m { next = first (insert b xs) })
  pub others : (q : ℕ) → q ≢ pv → q ≢ b → has q xs ≡ false → out.0 q ≡ h q

walk-stop :
    (fuel : ℕ) (h : Heap) (b pv p : ℕ) → (p ≡ 0) ⊎ (b ≤ p) → walk (suc fuel) h b pv p ≡ ok (pv, p)
unfolding walk
walk-stop fuel h b pv p stop = ground (arith, stop)

walk-more :
    (fuel : ℕ) (h : Heap) (b pv p : ℕ) (m : MetaData)
    → 0 < p
    → p < b
    → h p ≡ some m
    → walk (suc fuel) h b pv p ≡ walk fuel h b p m.next
unfolding walk
walk-more fuel h b pv p m pos lt e = ground arith

module _ (s : ℕ) (h : Heap) (head b pv nb pb : ℕ) (m : MetaData) (pos : 0 < pv) (lt : pv < b)
    (at_pv : h pv ≡ some m) (at_b : h b ≡ some (linked s nb pb)) where
  at_end-Linked : Linked s h head b pv m [] (at_end h b pv (linked s nb pb) m, head)
  at_end-Linked = record {
    head_kept = refl;
    chain = (refl, lt, (0, ground arith, refl));
    at_pv = ground arith;
    others = λ q n1 n2 absent. ground arith;
  }

  between-Linked :
      (x q : ℕ) (xs : List ℕ)
      → ltb x b ≡ false
      → b < x
      → h x ≡ some (linked s q pv)
      → Chain s h x q xs
      → Linked s h head b pv m (x ∷ xs) (between h b pv x (linked s nb pb) m (linked s q pv), head)
  between-Linked x q xs stop below at_x c = record {
    head_kept = refl;
    chain = rw stop (
      refl,
      lt,
      (
        x,
        ground arith,
        (refl, below, (q, ground arith, frame s h _ x q xs (λ r above r_in. ground arith) c)),
      ),
    );
    at_pv = rw stop (ground arith);
    others = λ r n1 n2 absent. ground arith;
  }

-- The block goes in behind `x`.
further :
    (s : ℕ) (h : Heap) (head b pv : ℕ) (m : MetaData) (x q : ℕ) (xs : List ℕ) (out : Heap × ℕ)
    → ltb x b ≡ true
    → pv < x
    → pv < b
    → h pv ≡ some m
    → m.next ≡ x
    → Chain s h x q xs
    → Linked s h head b x (linked s q pv) xs out
    → Linked s h head b pv m (x ∷ xs) out
further s h head b pv m x q xs out go above lt at_pv nx c l = record {
  head_kept = l.head_kept;
  chain = rw go (refl, above, (first (insert b xs), l.at_pv, l.chain));
  at_pv = rw go (
      l.others pv (λ z. absurd (omega arith)) (λ z. absurd (omega arith))
        (below_absent s h x q pv xs c (omega arith))
      ∙ at_pv
      ∙ ap (λ t. some (record m { next = t })) nx);
  others = λ r n1 n2 absent. l.others r (ground arith) n2 (ground arith);
}

walk-Linked :
    (fuel s : ℕ) (h : Heap) (head b pv p nb pb : ℕ) (m : MetaData) (xs : List ℕ)
    → length xs < fuel
    → Chain s h pv p xs
    → 0 < pv
    → pv < b
    → h pv ≡ some m
    → m.next ≡ p
    → h b ≡ some (linked s nb pb)
    → has b xs ≡ false
    → Returns
        (Linked s h head b pv m xs)
        (walk fuel h b pv p >>= λ (prev, iter). link_between h head b prev iter)
walk-Linked zero s h head b pv p nb pb m xs room c pos lt at_pv nx at_b new = absurd (omega arith)
walk-Linked (suc fuel) s h head b pv p nb pb m [] room c pos lt at_pv nx at_b new =
    returns_at
      (step _ (walk-stop fuel h b pv p (inl c))
        ∙ ap (link_between h head b pv) c
        ∙ link_between-at_end h head b pv (linked s nb pb) m pos lt at_b at_pv)
      (at_end-Linked s h head b pv nb pb m pos lt at_pv at_b)
walk-Linked (suc fuel) s h head b pv p nb pb m (x ∷ xs) room (e, above, (q, at_x, c)) pos lt at_pv
      nx at_b new =
    elim (Bool-cases (ltb x b)) [
      | inl go ↦
          let k = λ (found_at : ℕ × ℕ). link_between h head b found_at.0 found_at.1 in
          same
            (ap (λ t. walk (suc fuel) h b pv t >>= k) e
              ∙ ap (λ r. r >>= k)
                  (walk-more fuel h b pv x (linked s q pv) (omega arith) (ground arith) at_x))
            (mono
              (walk-Linked fuel s h head b x q nb pb (linked s q pv) xs (omega arith) c
                (omega arith) (ground arith) at_x refl at_b (ground arith))
              λ out l. further s h head b pv m x q xs out go above lt at_pv (nx ∙ e) c l)
      | inr stop ↦
          let below : b < x = ground arith in
          returns_at
            (step _ (walk-stop fuel h b pv p (inr (omega arith)))
              ∙ ap (link_between h head b pv) e
              ∙ link_between-between h head b pv (linked s nb pb) m pos lt at_b at_pv x
                  (linked s q pv) below at_x)
            (between-Linked s h head b pv nb pb m pos lt at_pv at_b x q xs stop below at_x c)
    ]

abbrev at_front : Heap → (b x : ℕ) → (mb mx : MetaData) → Heap
at_front h b x mb mx =
    write (write (write h b (record mb { next = x })) x (record mx { prev = b })) b
      (record mb { next = x; prev = 0 })

link_between-at_front :
    (h : Heap) (b x : ℕ) (mb mx : MetaData)
    → 0 < b
    → b < x
    → h b ≡ some mb
    → h x ≡ some mx
    → link_between h x b 0 x ≡ ok (at_front h b x mb mx, b)
unfolding link_between
link_between-at_front h b x mb mx pos lt at_b at_x =
    let h1 = write h b (record mb { next = x }) in
    let h2 = write h1 x (record mx { prev = b }) in
    step _ (set_next-some h b x mb pos at_b)
    ∙ step _ (set_prev-some h1 x b mx (omega arith) (ground arith))
    ∙ step _ (set_prev-some h2 b 0 (record mb { next = x }) pos (ground arith))

insert_block-list :
    (fuel : ℕ) (h : Heap) (head b : ℕ)
    → 0 < b
    → 0 < head
    → insert_block fuel h head b
      ≡ (walk fuel h b 0 head >>= λ (prev, iter). link_between h head b prev iter)
unfolding insert_block
insert_block-list fuel h head b pos pos' =
    if_false (b == 0) _ _ (ground arith) ∙ if_false (head == 0) _ _ (ground arith)

-- The list with the block, and the headers that keep what they hold.
pub record Inserted (s : ℕ) (h : Heap) (b : ℕ) (xs : List ℕ) (out : Heap × ℕ) : Type 0 where
  pub chain : Chain s out.0 0 out.1 (insert b xs)
  pub others : (q : ℕ) → q ≢ b → has q xs ≡ false → out.0 q ≡ h q

insert_block-empty :
    (fuel s : ℕ) (h : Heap) (head b nb pb : ℕ)
    → head ≡ 0
    → 0 < b
    → h b ≡ some (linked s nb pb)
    → Returns (Inserted s h b []) (insert_block fuel h head b)
unfolding insert_block
insert_block-empty fuel s h head b nb pb e pos at_b =
    returns_at
      (if_false (b == 0) _ _ (ground arith)
        ∙ if_true (head == 0) _ _ (ground arith)
        ∙ step _ (clear_links-some h b (linked s nb pb) pos at_b))
      (record { chain = (refl, pos, (0, ground arith, refl)); others = λ q n absent. ground arith })

-- `insertBlock` of a free block that is not in the list returns, with fuel for one step more than the
-- list has blocks. The list is then the ascending one with the block, its links are sound both ways,
-- and no header outside the list and the block has changed.
pub insert_block-Inserted :
    (fuel s : ℕ) (h : Heap) (head b nb pb : ℕ) (xs : List ℕ)
    → length xs < fuel
    → Chain s h 0 head xs
    → 0 < b
    → h b ≡ some (linked s nb pb)
    → has b xs ≡ false
    → Returns (Inserted s h b xs) (insert_block fuel h head b)
insert_block-Inserted zero s h head b nb pb xs room c pos at_b new = absurd (omega arith)
insert_block-Inserted (suc fuel) s h head b nb pb [] room c pos at_b new =
    insert_block-empty (suc fuel) s h head b nb pb c pos at_b
insert_block-Inserted (suc fuel) s h head b nb pb (x ∷ xs) room (e, above, (q, at_x, c)) pos at_b
      new =
    elim (Bool-cases (ltb x b)) [
      | inl go ↦
          let k = λ (found_at : ℕ × ℕ). link_between h x b found_at.0 found_at.1 in
          same
            (ap (λ t. insert_block (suc fuel) h t b) e
              ∙ insert_block-list (suc fuel) h x b pos above
              ∙ ap (λ r. r >>= k) (walk-more fuel h b 0 x (linked s q 0) above (ground arith) at_x))
            (mono
              (walk-Linked fuel s h x b x q nb pb (linked s q 0) xs (omega arith) c above
                (ground arith) at_x refl at_b (ground arith))
              λ out l. record {
                chain = rw go (l.head_kept, above, (first (insert b xs), l.at_pv, l.chain));
                others = λ r n absent. l.others r (ground arith) n (ground arith);
              })
      | inr stop ↦
          let below : b < x = ground arith in
          returns_at
            (ap (λ t. insert_block (suc fuel) h t b) e
              ∙ insert_block-list (suc fuel) h x b pos above
              ∙ step _ (walk-stop fuel h b 0 x (inr (omega arith)))
              ∙ link_between-at_front h b x (linked s nb pb) (linked s q 0) pos below at_b at_x)
            (record {
              chain = rw stop (
                refl,
                pos,
                (
                  x,
                  ground arith,
                  (
                    refl,
                    below,
                    (q, ground arith, frame s h _ x q xs (λ r above' r_in. ground arith) c),
                  ),
                ),
              );
              others = λ r n absent. ground arith;
            })
    ]
