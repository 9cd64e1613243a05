-- ===== src/Allocator/FirstFit/Keeps.antt =====
-- `smalloc` and `sfree` of malloc_2.cpp keep the list of blocks and the counters.
use operating_systems_course.Prelude.{
  ℕ, ◌+◌, ◌*◌, ◌-◌, ◌%◌, ◌≤◌, ◌<◌, ◌≡◌, ◌≢◌, refl, Bool, true, false, Option, none, some, List, [],
  ◌∷◌, ◌==◌, if◌then◌else◌, arith, length, ap, sym, ◌∙◌, inl, inr, Bool-cases, eq→eqb, eqb→eq,
}
use operating_systems_course.Server.Run.{step, Returns, returns, same}
use operating_systems_course.Allocator.{Heap, meta_size}
use operating_systems_course.Allocator.Links.Chain.{load-some}
use operating_systems_course.Allocator.Buddy.{word}
use operating_systems_course.Allocator.FirstFit.{BlockList, max_size, reuse, sfree_first}
use operating_systems_course.Allocator.FirstFit.Blocks.{
  Row, header, end_of, Linked, limit, fits, fit_of, marked, write-Linked,
}

abbrev pub one_if : Bool → ℕ
one_if b = if b then 1 else 0

abbrev pub bytes_if : Bool → ℕ → ℕ
bytes_if b n = if b then n else 0

-- The number of the free rows, and the bytes of these and of all.
abbrev pub free_rows : List Row → ℕ
free_rows [] = 0
free_rows (r ∷ rs) = one_if r.free + free_rows rs

abbrev pub free_bytes_of : List Row → ℕ
free_bytes_of [] = 0
free_bytes_of (r ∷ rs) = bytes_if r.free r.size + free_bytes_of rs

abbrev pub bytes_of : List Row → ℕ
bytes_of [] = 0
bytes_of (r ∷ rs) = r.size + bytes_of rs

-- No row is larger than what `smalloc` gives.
abbrev pub Small : List Row → Type 0
Small [] = Unit {0}
Small (r ∷ rs) = (r.size ≤ max_size) × Small rs

-- The counters count the rows, and the blocks end at the break.
pub record Inv (brk : ℕ) (rows : List Row) (t : BlockList) : Type 0 where
  pub list : Linked t.heap 1 0 t.head rows
  pub below : limit 1 rows ≤ brk
  pub small : Small rows
  pub free_count : t.free_blocks ≡ free_rows rows % word
  pub free_size : t.free_bytes ≡ free_bytes_of rows % word
  pub count : t.total_blocks ≡ length rows % word
  pub size : t.total_bytes ≡ bytes_of rows % word
  pub metadata : t.meta_data_bytes ≡ meta_size * length rows % word

-- The row at an address.
abbrev pub row_at : ℕ → List Row → Option Row
row_at b [] = none
row_at b (r ∷ rs) = let rest = row_at b rs in if r.at == b then some r else rest

-- Marking an address in front of the rows changes none.
marked_below :
    (h : Heap) (lo pv p b : ℕ) (free : Bool) (rs : List Row)
    → b < lo
    → Linked h lo pv p rs
    → marked b free rs ≡ rs
marked_below h lo pv p b free [] lt c = refl
marked_below h lo pv p b free (r ∷ rs) lt (e, pos, le, (q, at_r, c)) =
    let other : r.at == b ≡ false = ground arith in
    rw other
      (ap {A = List Row} (λ l. r ∷ l) (marked_below h (end_of r) r.at q b free rs (omega arith) c))

-- What marking the row at an address changes.
record IsMarked (h : Heap) (b : ℕ) (free : Bool) (r : Row) (rs : List Row) : Type 0 where
  pub stands : (q : ℕ) × (pv : ℕ) × (h b ≡ some (header r q pv))
  pub pos : 0 < b
  pub free_count : free_rows (marked b free rs) + one_if r.free ≡ free_rows rs + one_if free
  pub free_size :
      free_bytes_of (marked b free rs) + bytes_if r.free r.size
      ≡ free_bytes_of rs + bytes_if free r.size
  pub count : length (marked b free rs) ≡ length rs
  pub size : bytes_of (marked b free rs) ≡ bytes_of rs

mark-IsMarked :
    (h : Heap) (lo pv p b : ℕ) (free : Bool) (r : Row) (rs : List Row)
    → Linked h lo pv p rs
    → row_at b rs ≡ some r
    → IsMarked h b free r rs
mark-IsMarked h lo pv p b free r [] c found = absurd (cc)
mark-IsMarked h lo pv p b free r (x ∷ rs) (e, pos, le, (q, at_x, c)) found =
    elim (Bool-cases (x.at == b)) [
      | inl here ↦
          let at_b = eqb→eq x.at b here in
          let some_x : some x ≡ some r = rw here at found in
          let same_row : x ≡ r = cc in
          let rest = marked_below h (end_of x) x.at q b free rs (omega (arith, at_b)) c in
          rw (← same_row) (record {
            stands = (q, pv, ap h (sym at_b) ∙ at_x);
            pos = omega (arith, at_b);
            free_count = rw (here, rest) (omega arith);
            free_size = rw (here, rest) (omega arith);
            count = rw (here, rest) refl;
            size = rw (here, rest) refl;
          })
      | inr other ↦
          let m = mark-IsMarked h (end_of x) x.at q b free r rs c (rw other at found) in
          record {
            stands = m.stands;
            pos = m.pos;
            free_count = rw other (omega (arith, m.free_count));
            free_size = rw other (omega (arith, m.free_size));
            count = rw other (omega (arith, m.count));
            size = rw other (omega (arith, m.size));
          }
    ]

marked-limit : (lo b : ℕ) (free : Bool) (rs : List Row) → limit lo (marked b free rs) ≡ limit lo rs
marked-limit lo b free [] = refl
marked-limit lo b free (r ∷ rs) = elim (Bool-cases (r.at == b)) [
  | inl here ↦ rw here (marked-limit (end_of r) b free rs)
  | inr other ↦ rw other (marked-limit (end_of r) b free rs)
]

-- The row that `find_fit` finds is free and large enough.
pub fit_row :
    (size : ℕ) (rs : List Row) (b : ℕ)
    → fit_of size rs ≡ b
    → b ≢ 0
    → (h : Heap) (lo pv p : ℕ) → Linked h lo pv p rs
    → (r : Row) × (row_at b rs ≡ some r) × (r.free ≡ true) × (size ≤ r.size) × (lo ≤ b)
fit_row size [] b e n h lo pv p c = absurd (n (sym e))
fit_row size (x ∷ rs) b e n h lo pv p (_, pos, le, (q, at_x, c)) = elim (Bool-cases (fits size x)) [
  | inl here ↦
      let at_b : x.at ≡ b = rw here at e in
      (x, rw (eq→eqb x.at b at_b) refl, ground arith, ground arith, omega (arith, at_b))
  | inr other ↦
      let (r, found, r_free, large, ge) =
        fit_row size rs b (rw other at e) n h (end_of x) x.at q c in
      let apart : x.at == b ≡ false = ground arith in
      (r, rw apart found, r_free, large, omega arith)
]

marked-Small : (b : ℕ) (free : Bool) (rs : List Row) → Small rs → Small (marked b free rs)
marked-Small b free [] h = h
marked-Small b free (r ∷ rs) (le, h) = elim (Bool-cases (r.at == b)) [
  | inl here ↦ rw here (le, marked-Small b free rs h)
  | inr other ↦ rw other (le, marked-Small b free rs h)
]

row_at-Small :
    (b : ℕ) (r : Row) (rs : List Row) → row_at b rs ≡ some r → Small rs → r.size ≤ max_size
row_at-Small b r [] found h = absurd (cc)
row_at-Small b r (x ∷ rs) found (le, h) = elim (Bool-cases (x.at == b)) [
  | inl here ↦
      let some_x : some x ≡ some r = rw here at found in
      let same_row : x ≡ r = cc in rw (← same_row) le
  | inr other ↦ row_at-Small b r rs (rw other at found) h
]

module _ (brk : ℕ) (rows : List Row) (t : BlockList) (inv : Inv brk rows t) (b : ℕ) (r : Row)
    (found : row_at b rows ≡ some r) where
  -- The header of a row.
  stands : (q : ℕ) × (pv : ℕ) × (t.heap b ≡ some (header r q pv)) × (0 < b)
  stands =
      let m = mark-IsMarked t.heap 1 0 t.head b true r rows inv.list found in
      let (q, pv, e) = m.stands in (q, pv, e, m.pos)

  -- A free row is handed out.
  pub reuse-Inv :
      r.free ≡ true
      → Returns (λ out. (out.1 ≡ b + meta_size) × Inv brk (marked b false rows) out.0) (reuse t b)
  unfolding reuse
  reuse-Inv r_free =
      let m = mark-IsMarked t.heap 1 0 t.head b false r rows inv.list found in
      let (q, pv, e) = m.stands in
      let small = row_at-Small b r rows found inv.small in
      same (step _ (load-some t.heap b (header r q pv) m.pos e)) (
        returns (
          refl,
          record {
            list = write-Linked t.heap 1 0 t.head b (header r q pv) false rows e inv.list;
            below = omega (arith, marked-limit 1 b false rows, inv.below);
            small = marked-Small b false rows inv.small;
            free_count = ground (arith, inv.free_count, m.free_count, r_free);
            free_size = ground (arith, inv.free_size, m.free_size, r_free, small);
            count = omega (arith, inv.count, m.count);
            size = omega (arith, inv.size, m.size);
            metadata = omega (arith, inv.metadata, m.count);
          },
        ))

  -- `sfree` of the pointer behind the header of a row that is handed out makes the row free; the rows
  -- stay a sound list, and the counters count them.
  pub sfree_first-Inv :
      r.free ≡ false → Returns (Inv brk (marked b true rows)) (sfree_first t (b + meta_size))
  unfolding sfree_first
  sfree_first-Inv r_busy =
      let m = mark-IsMarked t.heap 1 0 t.head b true r rows inv.list found in
      let (q, pv, e) = m.stands in
      let not_null : b + meta_size == 0 ≡ false = ground arith in
      let same_b : b + meta_size - meta_size ≡ b = omega arith in
      rw (not_null, same_b)
        (same (step _ (load-some t.heap b (header r q pv) m.pos e)) (
          rw r_busy (
            returns (record {
              list = write-Linked t.heap 1 0 t.head b (header r q pv) true rows e inv.list;
              below = omega (arith, marked-limit 1 b true rows, inv.below);
              small = marked-Small b true rows inv.small;
              free_count = ground (arith, inv.free_count, m.free_count, r_busy);
              free_size = ground (arith, inv.free_size, m.free_size, r_busy);
              count = omega (arith, inv.count, m.count);
              size = omega (arith, inv.size, m.size);
              metadata = omega (arith, inv.metadata, m.count);
            }))))
