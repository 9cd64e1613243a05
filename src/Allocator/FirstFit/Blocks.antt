-- ===== src/Allocator/FirstFit/Blocks.antt =====
-- The list of blocks of malloc_2.cpp, as rows.
use operating_systems_course.Prelude.{
  ℕ, zero, suc, ◌+◌, ◌≤◌, ◌<◌, ◌≡◌, refl, Bool, false, ◌&&◌, some, List, [], ◌∷◌, ◌++◌, ◌==◌, leb,
  if◌then◌else◌, arith, length, ap, sym, ◌∙◌, inl, inr, Bool-cases, eqb→eq,
}
use operating_systems_course.Server.Run.{ok, step}
use operating_systems_course.Allocator.{MetaData, Heap, meta_size, write}
use operating_systems_course.Allocator.Links.Chain.{load-some}
use operating_systems_course.Allocator.FirstFit.{last_block, find_fit}

-- A block: the address of its header, its size, and whether it is free.
pub record Row : Type 0 where
  pub at : ℕ
  pub size : ℕ
  pub free : Bool

abbrev pub header : Row → (next prev : ℕ) → MetaData
header r q pv = record { size = r.size; is_free = r.free; next = q; prev = pv }

abbrev pub end_of : Row → ℕ
end_of r = r.at + meta_size + r.size

-- From `p` the list leads through the rows to NULL, and back to `pv`; the blocks lie one behind the
-- other, from `lo` on.
abbrev pub Linked : Heap → (lo pv p : ℕ) → List Row → Type 0
Linked h lo pv p [] = p ≡ 0
Linked h lo pv p (r ∷ rs) =
    (p ≡ r.at)
    × (0 < r.at)
    × (lo ≤ r.at)
    × ((q : ℕ) × (h r.at ≡ some (header r q pv)) × Linked h (end_of r) r.at q rs)

-- Where the last block ends.
abbrev pub limit : (lo : ℕ) → List Row → ℕ
limit lo [] = lo
limit lo (r ∷ rs) = limit (end_of r) rs

abbrev pub fits : ℕ → Row → Bool
fits size r = r.free && leb size r.size

-- The address of the first free row that is large enough, or 0.
abbrev pub fit_of : ℕ → List Row → ℕ
fit_of size [] = 0
fit_of size (r ∷ rs) = let rest = fit_of size rs in if fits size r then r.at else rest

-- The rows with the one at an address marked.
abbrev pub marked : (b : ℕ) (free : Bool) → List Row → List Row
marked b free [] = []
marked b free (r ∷ rs) =
    let rest = marked b free rs in if r.at == b then (record r { free = free }) ∷ rest else r ∷ rest

-- The rows end behind where they begin.
pub limit_ge : (h : Heap) (lo pv p : ℕ) (rs : List Row) → Linked h lo pv p rs → lo ≤ limit lo rs
limit_ge h lo pv p [] c = omega arith
limit_ge h lo pv p (r ∷ rs) (e, pos, le, (q, at_r, c)) =
    omega (arith, limit_ge h (end_of r) r.at q rs c)

-- A change of the heap elsewhere.
pub frame_within :
    (h h' : Heap) (lo pv p : ℕ) (rs : List Row)
    → ((a : ℕ) → a < limit lo rs → h' a ≡ h a)
    → Linked h lo pv p rs
    → Linked h' lo pv p rs
frame_within h h' lo pv p [] same c = c
frame_within h h' lo pv p (r ∷ rs) same (e, pos, le, (q, at_r, c)) = (
  e,
  pos,
  le,
  (
    q,
    same r.at (omega (arith, limit_ge h (end_of r) r.at q rs c)) ∙ at_r,
    frame_within h h' (end_of r) r.at q rs same c,
  ),
)

find_fit-empty : (fuel : ℕ) (h : Heap) (size : ℕ) → find_fit (suc fuel) h 0 size ≡ ok 0
unfolding find_fit
find_fit-empty fuel h size = refl

find_fit-suc :
    (fuel : ℕ) (h : Heap) (p size : ℕ) (m : MetaData)
    → 0 < p
    → h p ≡ some m
    → find_fit (suc fuel) h p size
      ≡ (if m.is_free && leb size m.size then ok p else find_fit fuel h m.next size)
unfolding find_fit
find_fit-suc fuel h p size m pos e =
    let ne : p == 0 ≡ false = ground arith in
    rw (find_fit, ne)
      (step _ (load-some h p m pos e) ∙ elim (Bool-cases (m.is_free && leb size m.size)) [
        | inl here ↦ rw here refl
        | inr other ↦ rw other refl
      ])

pub find_fit-Linked :
    (fuel size : ℕ) (h : Heap) (lo pv p : ℕ) (rs : List Row)
    → length rs < fuel
    → Linked h lo pv p rs
    → find_fit fuel h p size ≡ ok (fit_of size rs)
find_fit-Linked zero size h lo pv p rs room c = absurd (omega arith)
find_fit-Linked (suc fuel) size h lo pv p [] room c =
    ap (λ x. find_fit (suc fuel) h x size) c ∙ find_fit-empty fuel h size
find_fit-Linked (suc fuel) size h lo pv p (r ∷ rs) room (e, pos, le, (q, at_r, c)) =
    ap (λ x. find_fit (suc fuel) h x size) e
    ∙ find_fit-suc fuel h r.at size (header r q pv) pos at_r
    ∙ elim (Bool-cases (fits size r)) [
      | inl here ↦ rw here refl
      | inr other ↦ rw other (find_fit-Linked fuel size h (end_of r) r.at q rs (omega arith) c)
    ]

-- A row that is marked, with its header.
pub write-Linked :
    (h : Heap) (lo pv p b : ℕ) (m : MetaData) (free : Bool) (rs : List Row)
    → h b ≡ some m
    → Linked h lo pv p rs
    → Linked (write h b (record m { is_free = free })) lo pv p (marked b free rs)
write-Linked h lo pv p b m free [] at_b c = c
write-Linked h lo pv p b m free (r ∷ rs) at_b (e, pos, le, (q, at_r, c)) =
    let rest = write-Linked h (end_of r) r.at q b m free rs at_b c in
    elim (Bool-cases (r.at == b)) [
      | inl here ↦
          let same : some m ≡ some (header r q pv) =
            sym at_b ∙ ap h (sym (eqb→eq r.at b here)) ∙ at_r in
          let same_m : m ≡ header r q pv = cc in
          let marked_header : write h b (record m { is_free = free }) r.at
              ≡ some (header (record r { free = free }) q pv) =
            rw (write, here) (ap {A = MetaData} (λ x. some (record x { is_free = free })) same_m) in
          rw here (e, pos, le, (q, marked_header, rest))
      | inr other ↦ rw other (e, pos, le, (q, ground arith, rest))
    ]

-- The last row gets a row behind it.
last_block-empty :
    (fuel : ℕ) (h : Heap) (p : ℕ) (m : MetaData)
    → 0 < p
    → h p ≡ some m
    → last_block (suc fuel) h p ≡ (if m.next == 0 then ok p else last_block fuel h m.next)
unfolding last_block
last_block-empty fuel h p m pos e =
    step _ (load-some h p m pos e)
    ∙ elim (Bool-cases (m.next == 0)) [ inl here ↦ rw here refl | inr other ↦ rw other refl ]

-- The address of the last row, behind one at `at`.
abbrev pub last_at : (at : ℕ) → List Row → ℕ
last_at at [] = at
last_at at (r ∷ rs) = last_at r.at rs

pub last_block-Linked :
    (fuel : ℕ) (h : Heap) (lo pv p : ℕ) (r : Row) (rs : List Row)
    → length rs < fuel
    → Linked h lo pv p (r ∷ rs)
    → last_block fuel h p ≡ ok (last_at r.at rs)
last_block-Linked zero h lo pv p r rs room c = absurd (omega arith)
last_block-Linked (suc fuel) h lo pv p r [] room (e, pos, le, (q, at_r, c)) =
    ap (last_block (suc fuel) h) e
    ∙ last_block-empty fuel h r.at (header r q pv) pos at_r
    ∙ ground (arith, c)
last_block-Linked (suc fuel) h lo pv p r (r' ∷ rs) room (e, pos, le, (q, at_r, c)) =
    let (e', pos', _, _) = c in
    let ne : q == 0 ≡ false = ground arith in
    ap (last_block (suc fuel) h) e
    ∙ last_block-empty fuel h r.at (header r q pv) pos at_r
    ∙ rw ne (last_block-Linked fuel h (end_of r) r.at q r' rs (omega arith) c)

-- The last row does not lie in front of the others.
last_ge :
    (h : Heap) (lo pv p : ℕ) (r : Row) (rs : List Row)
    → Linked h lo pv p (r ∷ rs)
    → r.at ≤ last_at r.at rs
last_ge h lo pv p r [] c = omega arith
last_ge h lo pv p r (r' ∷ rs) (e, pos, le, (q, at_r, c)) =
    let (_, _, le', _) = c in omega (arith, last_ge h (end_of r) r.at q r' rs c)

ahead :
    (h : Heap) (r r' : Row) (rs : List Row) (q : ℕ)
    → Linked h (end_of r) r.at q (r' ∷ rs)
    → r.at < last_at r'.at rs
ahead h r r' rs q c = let (_, _, le', _) = c in omega (arith, last_ge h (end_of r) r.at q r' rs c)

-- A header that is not among the rows, and the last row that leads to it.
pub append-Linked :
    (h h' : Heap) (lo pv p : ℕ) (r new : Row) (rs : List Row)
    → Linked h lo pv p (r ∷ rs)
    → 0 < new.at
    → limit lo (r ∷ rs) ≤ new.at
    → h' new.at ≡ some (header new 0 (last_at r.at rs))
    → ((m : MetaData)
        → h (last_at r.at rs) ≡ some m
        → h' (last_at r.at rs) ≡ some (record m { next = new.at }))
    → ((a : ℕ) → lo ≤ a → a < last_at r.at rs → h' a ≡ h a)
    → Linked h' lo pv p (r ∷ (rs ++ (new ∷ [])))
append-Linked h h' lo pv p r new [] (e, pos, le, (q, at_r, c)) new_pos fit at_new at_last same =
    (e, pos, le, (new.at, at_last (header r q pv) at_r, (refl, new_pos, fit, (0, at_new, refl))))
append-Linked h h' lo pv p r new (r' ∷ rs) (e, pos, le, (q, at_r, c)) new_pos fit at_new at_last
      same =
    (
      e,
      pos,
      le,
      (
        q,
        same r.at le (ahead h r r' rs q c) ∙ at_r,
        append-Linked h h' (end_of r) r.at q r' new rs c new_pos fit at_new at_last
            (λ a lo_a before. same a (omega arith) before),
      ),
    )

-- The header of the last row, which ends where the rows end.
pub last_stands :
    (h : Heap) (lo pv p : ℕ) (r : Row) (rs : List Row)
    → Linked h lo pv p (r ∷ rs)
    → (m : MetaData) × (h (last_at r.at rs) ≡ some m)
      × (0 < last_at r.at rs)
      × (last_at r.at rs < limit lo (r ∷ rs))
last_stands h lo pv p r [] (e, pos, le, (q, at_r, c)) = (header r q pv, at_r, pos, omega arith)
last_stands h lo pv p r (r' ∷ rs) (e, pos, le, (q, at_r, c)) =
    last_stands h (end_of r) r.at q r' rs c
