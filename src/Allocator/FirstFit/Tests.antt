-- ===== src/Allocator/FirstFit/Tests.antt =====
-- A free block of 100 bytes, and one of 50 behind it that is handed out.
use operating_systems_course.Prelude.{
  ℕ, ◌≡◌, refl, true, false, Option, none, some, List, [], ◌∷◌, arith,
}
use operating_systems_course.Server.Run.{Run, ok, ◌>>=◌, Returns}
use operating_systems_course.Allocator.{write}
use operating_systems_course.Allocator.Links.{set_next, set_prev}
use operating_systems_course.Allocator.FirstFit.{
  BlockList, smalloc_first, find_fit, reuse, grow, add_new_block, last_block,
}
use operating_systems_course.Allocator.FirstFit.Blocks.{Row, header}
use operating_systems_course.Allocator.FirstFit.Keeps.{Inv}
use operating_systems_course.Allocator.FirstFit.Grows.{IsFirst, smalloc_first-IsFirst}

abbrev first_row : Row
first_row = record { at = 4096; size = 100; free = true }

abbrev second_row : Row
second_row = record { at = 4228; size = 50; free = false }

abbrev rows : List Row
rows = first_row ∷ (second_row ∷ [])

abbrev two_blocks : BlockList
two_blocks = record {
  heap = write (write (λ a. none) 4096 (header first_row 4228 0)) 4228 (header second_row 0 4096);
  head = 4096;
  free_blocks = 1;
  free_bytes = 100;
  total_blocks = 2;
  total_bytes = 150;
  meta_data_bytes = 64;
}

two_blocks-Inv : Inv 4310 rows two_blocks
two_blocks-Inv = record {
  list = (
    refl,
    omega arith,
    omega arith,
    (4228, refl, (refl, omega arith, omega arith, (0, refl, refl))),
  );
  below = omega arith;
  small = (omega arith, (omega arith, tt));
  free_count = refl;
  free_size = refl;
  count = refl;
  size = refl;
  metadata = refl;
}

abbrev sbrk : ℕ → Option ℕ
sbrk n = some 4310

smalloc_first-IsFirst_example :
    Returns (IsFirst 4310 rows two_blocks 80 sbrk) (smalloc_first 3 sbrk two_blocks 80)
smalloc_first-IsFirst_example =
    smalloc_first-IsFirst 3 4310 rows two_blocks 80 sbrk (omega arith) (omega arith)
      (λ n mem e. let same_mem : 4310 ≡ mem = cc in omega (arith, same_mem)) two_blocks-Inv

-- A request for 80 bytes gets the first block, one for 120 a new one.
pointers : Run (ℕ × ℕ)
unfolding smalloc_first find_fit reuse
pointers = smalloc_first 3 sbrk two_blocks 80 >>= λ (t, p).
    smalloc_first 3 sbrk t 120 >>= λ (t', q). ok (p, q)

pointers_two : pointers ≡ ok (4128, 4342)
unfolding pointers grow add_new_block last_block set_next set_prev
pointers_two = refl
