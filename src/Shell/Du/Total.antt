-- ===== src/Shell/Du/Total.antt =====
-- What `getDirSize` of Commands.cpp adds up.
use operating_systems_course.Prelude.{
  false, refl, Bool, sym, ◌==◌, ◌&&◌, ℕ, ◌+◌, ◌*◌, ◌/◌, ◌^◌, ◌<◌, ◌≡◌, Option, some, List, [], ◌∷◌,
  ◌++◌, if◌then◌else◌, arith, ap, ◌∙◌, inl, inr, Bool-cases,
}
use operating_systems_course.Shell.Du.{
  Entries, end_of_directory, unreadable, next_batch, unknown, closed, directory, file, long,
  is_dots, Sum, complain, count, dir_size, get_dir_size, total, kilobytes, disk_usage,
}

-- The two names of a directory in itself, for itself and its parent.
abbrev pub is_link_up : List ℕ → Bool
is_link_up [] = false
is_link_up (a ∷ []) = a == 46
is_link_up (a ∷ (b ∷ [])) = (a == 46) && (b == 46)
is_link_up (a ∷ (b ∷ (c ∷ rest))) = false

is_dots-is_link_up : (name : List ℕ) → is_dots name ≡ is_link_up name
is_dots-is_link_up [] = refl
is_dots-is_link_up (a ∷ []) = ground arith
is_dots-is_link_up (a ∷ (b ∷ [])) = ground arith
is_dots-is_link_up (a ∷ (b ∷ (c ∷ rest))) = ground arith

-- The blocks of each entry below a directory that is no directory itself.
abbrev pub files : Entries → List ℕ
files end_of_directory = []
files unreadable = []
files (next_batch rest) = files rest
files (unknown name rest) = files rest
files (closed name rest) = files rest
files (directory name inside rest) =
    let below = files inside in if is_link_up name then files rest else below ++ files rest
files (file name blocks rest) =
    let more = files rest in if is_link_up name then more else blocks ∷ more

abbrev pub sum : List ℕ → ℕ
sum [] = 0
sum (x ∷ xs) = x + sum xs

sum-append : (xs ys : List ℕ) → sum (xs ++ ys) ≡ sum xs + sum ys
sum-append [] ys = omega arith
sum-append (x ∷ xs) ys = omega (arith, sum-append xs ys)

-- The loops add the bytes of the files to what they have so far.
dir_size-bytes :
    (d : Entries) (s : Sum)
    → s.bytes < 2 ^ 64
    → (dir_size s d).bytes ≡ long (s.bytes + 512 * sum (files d))
unfolding dir_size
dir_size-bytes end_of_directory s small = omega arith
dir_size-bytes unreadable s small = omega arith
dir_size-bytes (next_batch rest) s small = dir_size-bytes rest s small
dir_size-bytes (unknown name rest) s small = elim (Bool-cases (is_dots name)) [
  | inl dots ↦ rw (dir_size, dots) (dir_size-bytes rest s small)
  | inr other ↦ rw (dir_size, other) (dir_size-bytes rest (complain s) small)
]
dir_size-bytes (closed name rest) s small = elim (Bool-cases (is_dots name)) [
  | inl dots ↦ rw (dir_size, dots) (dir_size-bytes rest s small)
  | inr other ↦ rw (dir_size, other) (dir_size-bytes rest (complain s) small)
]
dir_size-bytes (directory name inside rest) s small = elim (Bool-cases (is_dots name)) [
  | inl dots ↦
      rw (dir_size, dots, sym (is_dots-is_link_up name) ∙ dots) (dir_size-bytes rest s small)
  | inr other ↦
      let sub = dir_size (record { bytes = 0; errors = 0 }) inside in
      rw (dir_size, other, sym (is_dots-is_link_up name) ∙ other)
        (omega (
          arith,
          dir_size-bytes rest (count s sub.bytes sub.errors) (omega arith),
          dir_size-bytes inside (record { bytes = 0; errors = 0 }) (omega arith),
          sum-append (files inside) (files rest),
        ))
]
dir_size-bytes (file name blocks rest) s small = elim (Bool-cases (is_dots name)) [
  | inl dots ↦
      rw (dir_size, dots, sym (is_dots-is_link_up name) ∙ dots) (dir_size-bytes rest s small)
  | inr other ↦
      rw (dir_size, other, sym (is_dots-is_link_up name) ∙ other)
        (omega (arith, dir_size-bytes rest (count s (long (blocks * 512)) 0) (omega arith)))
]

-- Where the files below a directory take up fewer than 2^64 - 1023 bytes, `du` of it prints their
-- kilobytes, rounded up, however `getdents64` cuts the directories into batches.
pub disk_usage-files :
    (at : List ℕ → Option Entries) (path : List ℕ) (d : Entries)
    → at path ≡ some d
    → 512 * sum (files d) + 1023 < 2 ^ 64
    → disk_usage at (path ∷ [])
      ≡ total ((512 * sum (files d) + 1023) / 1024) (get_dir_size (some d)).errors
unfolding disk_usage get_dir_size
disk_usage-files at path d e fits =
    let s = dir_size (record { bytes = 0; errors = 0 }) d in
    let bytes : s.bytes ≡ 512 * sum (files d) =
      omega (arith, dir_size-bytes d (record { bytes = 0; errors = 0 }) (omega arith)) in
    let whole : long (512 * sum (files d) + 1023) ≡ 512 * sum (files d) + 1023 = omega arith in
    rw e (ap (λ b. total (kilobytes b) s.errors) bytes ∙ ap (λ b. total (b / 1024) s.errors) whole)
