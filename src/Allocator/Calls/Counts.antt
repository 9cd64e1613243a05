-- ===== src/Allocator/Calls/Counts.antt =====
-- `freeBlocksCount` and `freeBytesCount` of malloc_3.cpp.
use operating_systems_course.Prelude.{
  ℕ, zero, suc, ◌+◌, ◌<◌, ◌≡◌, refl, false, List, [], ◌∷◌, ◌==◌, arith, length, ap, ◌∙◌, some,
}
use operating_systems_course.Server.Run.{ok, ◌>>=◌, step}
use operating_systems_course.Allocator.{Heap}
use operating_systems_course.Allocator.Links.Chain.{linked, Chain, load-some}
use operating_systems_course.Allocator.Buddy.{Tracker}
use operating_systems_course.Allocator.Buddy.Sizes.{payload}
use operating_systems_course.Allocator.Buddy.Invariant.{Blocks, Inv}
use operating_systems_course.Allocator.Calls.{count_list, count_free}

-- The payload bytes of blocks of `s` bytes each.
abbrev pub bytes_of : (s : ℕ) → List ℕ → ℕ
bytes_of s [] = 0
bytes_of s (x ∷ xs) = s + bytes_of s xs

count_list-empty : (fuel : ℕ) (h : Heap) → count_list (suc fuel) h 0 ≡ ok (0, 0)
unfolding count_list
count_list-empty fuel h = refl

count_list-suc :
    (fuel s : ℕ) (h : Heap) (p q pv : ℕ)
    → 0 < p
    → h p ≡ some (linked s q pv)
    → count_list (suc fuel) h p
      ≡ (count_list fuel h q >>= λ (blocks, bytes). ok (suc blocks, s + bytes))
unfolding count_list
count_list-suc fuel s h p q pv pos e =
    let ne : p == 0 ≡ false = ground arith in
    rw (count_list, ne) (step _ (load-some h p (linked s q pv) pos e))

count_list-Chain :
    (fuel s : ℕ) (h : Heap) (pv p : ℕ) (xs : List ℕ)
    → length xs < fuel
    → Chain s h pv p xs
    → count_list fuel h p ≡ ok (length xs, bytes_of s xs)
count_list-Chain zero s h pv p xs room c = absurd (omega arith)
count_list-Chain (suc fuel) s h pv p [] room c =
    ap (count_list (suc fuel) h) c ∙ count_list-empty fuel h
count_list-Chain (suc fuel) s h pv p (x ∷ xs) room (e, lt, (q, at_x, c)) =
    count_list-suc fuel s h p q pv (omega arith) (ap h e ∙ at_x)
    ∙ step _ (count_list-Chain fuel s h x q xs (omega arith) c)

-- The free blocks of the orders below `orders`, and their bytes.
abbrev pub blocks_below : Blocks → (orders : ℕ) → ℕ
blocks_below B zero = 0
blocks_below B (suc k) = blocks_below B k + length (B.free k)

abbrev pub bytes_below : Blocks → (orders : ℕ) → ℕ
bytes_below B zero = 0
bytes_below B (suc k) = bytes_below B k + bytes_of (payload k) (B.free k)

-- Where the invariant holds and the fuel exceeds the number of free blocks of each order,
-- `freeBlocksCount` and `freeBytesCount` return the number of the free blocks of the invariant and
-- the sum of their payloads, for as many of the orders as they visit.
pub count_free-Inv :
    (fuel orders : ℕ) (B : Blocks) (t : Tracker)
    → Inv B t
    → ((k : ℕ) → length (B.free k) < fuel)
    → count_free fuel orders t ≡ ok (blocks_below B orders, bytes_below B orders)
unfolding count_free
count_free-Inv fuel zero B t inv room = refl
count_free-Inv fuel (suc k) B t inv room =
    step _ (count_free-Inv fuel k B t inv room)
    ∙ step _
        (count_list-Chain fuel (payload k) t.heap 0 (t.heads k) (B.free k) (room k) (inv.lists k))
