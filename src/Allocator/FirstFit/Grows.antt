-- ===== src/Allocator/FirstFit/Grows.antt =====
-- `smalloc` of malloc_2.cpp takes a free block or makes a new one.
use operating_systems_course.Prelude.{
  ℕ, ◌+◌, ◌≤◌, ◌<◌, ◌≡◌, refl, false, ◌||◌, Option, none, some, List, [], ◌∷◌, ◌++◌, ◌==◌, ltb,
  if◌then◌else◌, arith, length, length-append, ap, sym, ◌∙◌, inl, inr, ◌⊎◌, Bool-cases, eq→eqb,
  eqb→eq, eqb→ne, if_true, if_false,
}
use operating_systems_course.Server.Run.{ok, step, Returns, returns, returns_at, bind, mono, same}
use operating_systems_course.Allocator.{MetaData, Heap, meta_size, write}
use operating_systems_course.Allocator.Links.Chain.{set_next-some, set_prev-some}
use operating_systems_course.Allocator.FirstFit.{
  BlockList, max_size, last_block, add_new_block, reuse, grow, smalloc_first,
}
use operating_systems_course.Allocator.FirstFit.Blocks.{
  Row, end_of, Linked, limit, fit_of, marked, find_fit-Linked, frame_within, last_at, last_stands,
  last_block-Linked, append-Linked,
}
use operating_systems_course.Allocator.FirstFit.Keeps.{
  Inv, Small, free_rows, free_bytes_of, bytes_of, reuse-Inv, fit_row, row_at,
}

-- A row that is handed out, and a header that no row leads to.
abbrev pub fresh : (mem size : ℕ) → Row
fresh mem size = record { at = mem; size = size; free = false }

abbrev pub unlinked : (size : ℕ) → MetaData
unlinked size = record { size = size; is_free = false; next = 0; prev = 0 }

add_new_block-first :
    (fuel : ℕ) (h : Heap) (head block : ℕ)
    → head ≡ 0
    → add_new_block fuel h head block ≡ ok (h, block)
unfolding add_new_block
add_new_block-first fuel h head block e = if_true (head == 0) _ _ (eq→eqb head 0 e)

module _ (fuel : ℕ) (h : Heap) (head mem l : ℕ) (m new : MetaData) (head_pos : 0 < head)
    (mem_pos : 0 < mem) (l_pos : 0 < l) (differ : l < mem) (at_l : h l ≡ some m)
    (at_mem : h mem ≡ some new) (last : last_block fuel h head ≡ ok l) where
  abbrev pub linked_heap : Heap
  linked_heap =
      write (write (write h l (record m { next = mem })) mem (record new { prev = l })) mem
        (record new { prev = l; next = 0 })

  add_new_block-last : add_new_block fuel h head mem ≡ ok (linked_heap, head)
  unfolding add_new_block
  add_new_block-last =
      if_false (head == 0) _ _ (ground arith)
      ∙ step _ last
      ∙ step _ (set_next-some h l mem m l_pos at_l)
      ∙ step _ (
          set_prev-some (write h l (record m { next = mem })) mem l new mem_pos
            (ground (arith, at_mem)))
      ∙ step _ (
          set_next-some (write (write h l (record m { next = mem })) mem (record new { prev = l }))
            mem 0 (record new { prev = l }) mem_pos (ground (arith, eq→eqb mem mem refl)))

  linked_last : linked_heap l ≡ some (record m { next = mem })
  linked_last = ground (arith, eq→eqb l l refl)

  linked_again : (m' : MetaData) → h l ≡ some m' → linked_heap l ≡ some (record m' { next = mem })
  linked_again m' e =
      let same_some : some m ≡ some m' = sym at_l ∙ e in
      let same_m : m ≡ m' = cc in
      linked_last ∙ ap {A = MetaData} (λ x. some (record x { next = mem })) same_m

-- What `addNewBlock` leaves: a list with a row behind the others.
IsAppended : (rows : List Row) → (mem size : ℕ) → Heap × ℕ → Type 0
IsAppended rows mem size out = Linked out.0 1 0 out.1 (rows ++ (fresh mem size ∷ []))

add_new_block-IsAppended :
    (fuel : ℕ) (h : Heap) (head mem size : ℕ) (rows : List Row)
    → length rows < fuel
    → 0 < mem
    → limit 1 rows ≤ mem
    → Linked h 1 0 head rows
    → Returns (IsAppended rows mem size) (add_new_block fuel (write h mem (unlinked size)) head mem)
unfolding IsAppended
add_new_block-IsAppended fuel h head mem size [] room pos below c =
    returns_at (add_new_block-first fuel (write h mem (unlinked size)) head mem c)
      (refl, pos, omega arith, (0, ground (arith, eq→eqb mem mem refl), refl))
add_new_block-IsAppended fuel h head mem size (r ∷ rs) room pos below c =
    let h0 = write h mem (unlinked size) in
    let c0 : Linked h0 1 0 head (r ∷ rs) =
      frame_within h h0 1 0 head (r ∷ rs) (λ a lt. ground arith) c in
    let l = last_at r.at rs in
    let (m, at_l, l_pos, lt) = last_stands h0 1 0 head r rs c0 in
    let (e, r_pos, _, _) = c0 in
    let apart : l < mem = omega arith in
    let at_mem : h0 mem ≡ some (unlinked size) = ground (arith, eq→eqb mem mem refl) in
    let last = last_block-Linked fuel h0 1 0 head r rs (omega arith) c0 in
    returns_at
      (add_new_block-last fuel h0 head mem l m (unlinked size) (omega arith) pos l_pos apart at_l
        at_mem last)
      (append-Linked h0 _ 1 0 head r (fresh mem size) rs c0 pos below
        (ground (arith, eq→eqb mem mem refl))
        (linked_again fuel h0 head mem l m (unlinked size) (omega arith) pos l_pos apart at_l at_mem
          last)
        (λ a lo before. ground arith))

limit-append : (lo : ℕ) (rs : List Row) (r : Row) → limit lo (rs ++ (r ∷ [])) ≡ end_of r
limit-append lo [] r = refl
limit-append lo (x ∷ rs) r = limit-append (end_of x) rs r

Small-append : (rs : List Row) (r : Row) → Small rs → r.size ≤ max_size → Small (rs ++ (r ∷ []))
Small-append [] r h le = (le, tt)
Small-append (x ∷ rs) r (p, h) le = (p, Small-append rs r h le)

-- The sums with a row behind the others that is not free.
append-sums :
    (rs : List Row) (mem size : ℕ)
    → (free_rows (rs ++ (fresh mem size ∷ [])) ≡ free_rows rs)
      × (free_bytes_of (rs ++ (fresh mem size ∷ [])) ≡ free_bytes_of rs)
      × (bytes_of (rs ++ (fresh mem size ∷ [])) ≡ bytes_of rs + size)
append-sums [] mem size = (refl, refl, omega arith)
append-sums (x ∷ rs) mem size =
    let (a, b, c) = append-sums rs mem size in
    (omega (arith, a), omega (arith, b), omega (arith, c))

grow-none : (fuel : ℕ) (t : BlockList) (size : ℕ) → grow fuel t size none ≡ ok (t, 0)
unfolding grow
grow-none fuel t size = refl

-- How a call of `smalloc` ends: the first free row that is large enough is handed out; or a new row is,
-- behind the break; or nothing is, for its size or where no row fits and `sbrk` fails.
pub data IsFirst (brk : ℕ) (rows : List Row) (t : BlockList) (size : ℕ) (sbrk : ℕ → Option ℕ)
    (out : BlockList × ℕ) : Type 0 where
  reused :
      (r : Row) (b : ℕ)
      → (0 < size) × (size ≤ max_size)
      → b ≡ fit_of size rows
      → row_at b rows ≡ some r
      → out.1 ≡ b + meta_size
      → size ≤ r.size
      → Inv brk (marked b false rows) out.0
      → IsFirst brk rows t size sbrk out
  grown :
      (mem : ℕ)
      → (0 < size) × (size ≤ max_size)
      → fit_of size rows ≡ 0
      → sbrk (size + meta_size) ≡ some mem
      → out.1 ≡ mem + meta_size
      → Inv (mem + meta_size + size) (rows ++ (fresh mem size ∷ [])) out.0
      → IsFirst brk rows t size sbrk out
  refused : out ≡ (t, 0) → (size ≡ 0) ⊎ (max_size < size) → IsFirst brk rows t size sbrk out
  exhausted :
      out ≡ (t, 0)
      → (0 < size) × (size ≤ max_size)
      → fit_of size rows ≡ 0
      → sbrk (size + meta_size) ≡ none
      → IsFirst brk rows t size sbrk out

module _ (fuel : ℕ) (brk : ℕ) (rows : List Row) (t : BlockList) (size : ℕ) (sbrk : ℕ → Option ℕ)
    (room : length rows < fuel) (inv : Inv brk rows t) (some_bytes : 0 < size)
    (small : size ≤ max_size) (brk_pos : 0 < brk) where
  grown-IsFirst :
      (mem : ℕ)
      → sbrk (size + meta_size) ≡ some mem
      → brk ≤ mem
      → fit_of size rows ≡ 0
      → Returns (IsFirst brk rows t size sbrk) (grow fuel t size (some mem))
  unfolding grow IsAppended
  grown-IsFirst mem e le none_fits =
      let (a, b, c) = append-sums rows mem size in
      let n = length-append rows (fresh mem size ∷ []) in
      bind
        (add_new_block-IsAppended fuel t.heap t.head mem size rows room (omega arith)
          (omega (arith, inv.below)) inv.list)
        λ out list. returns (
          grown mem (some_bytes, small) none_fits e refl
            (record {
              list = list;
              below = omega (arith, limit-append 1 rows (fresh mem size));
              small = Small-append rows (fresh mem size) inv.small small;
              free_count = omega (arith, a, inv.free_count);
              free_size = omega (arith, b, inv.free_size);
              count = omega (arith, n, inv.count);
              size = omega (arith, c, inv.size);
              metadata = omega (arith, n, inv.metadata);
            }))

  grow-IsFirst :
      (o : Option ℕ)
      → sbrk (size + meta_size) ≡ o
      → ((mem : ℕ) → o ≡ some mem → brk ≤ mem)
      → fit_of size rows ≡ 0
      → Returns (IsFirst brk rows t size sbrk) (grow fuel t size o)
  grow-IsFirst none e above none_fits =
      returns_at (grow-none fuel t size) (exhausted refl (some_bytes, small) none_fits e)
  grow-IsFirst (some mem) e above none_fits = grown-IsFirst mem e (above mem refl) none_fits

  fit-IsFirst :
      (o : Option ℕ)
      → sbrk (size + meta_size) ≡ o
      → ((mem : ℕ) → o ≡ some mem → brk ≤ mem)
      → (b : ℕ) → fit_of size rows ≡ b
      → Returns (IsFirst brk rows t size sbrk) (if b == 0 then grow fuel t size o else reuse t b)
  fit-IsFirst o e above b at_b = elim (Bool-cases (b == 0)) [
    | inr found ↦
        let (r, at_r, r_free, large, lo) =
          fit_row size rows b at_b (eqb→ne b 0 found) t.heap 1 0 t.head inv.list in
        rw found (
          mono (reuse-Inv brk rows t inv b r at_r r_free)
            λ out (p, inv'). reused r b (some_bytes, small) (sym at_b) at_r p large inv')
    | inl none_fits ↦ rw none_fits (grow-IsFirst o e above (at_b ∙ eqb→eq b 0 none_fits))
  ]

-- Where the rows are a sound list that ends at the break, and `sbrk` gives memory behind the break,
-- `smalloc` ends with fuel above the number of rows. It hands out the first free row that is large
-- enough, or else a new one behind the break; or it returns NULL and changes nothing, for no bytes,
-- for more than 10^8, or where no free row is large enough and `sbrk` fails. The rows are a sound
-- list again, and the counters count them.
pub smalloc_first-IsFirst :
    (fuel : ℕ) (brk : ℕ) (rows : List Row) (t : BlockList) (size : ℕ) (sbrk : ℕ → Option ℕ)
    → length rows < fuel
    → 0 < brk
    → ((n mem : ℕ) → sbrk n ≡ some mem → brk ≤ mem)
    → Inv brk rows t
    → Returns (IsFirst brk rows t size sbrk) (smalloc_first fuel sbrk t size)
unfolding smalloc_first
smalloc_first-IsFirst fuel brk rows t size sbrk room pos above inv =
    elim (Bool-cases (size == 0 || ltb max_size size)) [
      | inl turned_down ↦ rw turned_down (returns (refused refl (ground arith)))
      | inr asked ↦ rw asked (
          same (step _ (find_fit-Linked fuel size t.heap 1 0 t.head rows room inv.list)) (
            fit-IsFirst fuel brk rows t size sbrk room inv (ground arith) (ground arith) pos
              (sbrk (size + meta_size)) refl (above (size + meta_size)) (fit_of size rows) refl))
    ]
