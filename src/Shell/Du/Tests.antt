-- ===== src/Shell/Du/Tests.antt =====
-- A directory with a file, a directory in it, and one that does not open.
use operating_systems_course.Prelude.{
  ℕ, ◌+◌, ◌*◌, ◌/◌, ◌≡◌, refl, Option, none, some, List, [], ◌∷◌, arith,
}
use operating_systems_course.Shell.Du.{
  Entries, end_of_directory, next_batch, closed, directory, file, dir_size, get_dir_size,
  disk_usage, total,
}
use operating_systems_course.Shell.Du.Total.{files, sum, disk_usage-files}

abbrev here : Entries
here = closed (46 ∷ []) (
    file (97 ∷ []) 8 (
      next_batch (
        directory (98 ∷ []) (file (99 ∷ []) 3 end_of_directory)
          (closed (100 ∷ []) end_of_directory))))

abbrev at : List ℕ → Option Entries
at path = some here

disk_usage-files_example :
    disk_usage at ((120 ∷ []) ∷ [])
    ≡ total ((512 * sum (files here) + 1023) / 1024) (get_dir_size (some here)).errors
disk_usage-files_example = disk_usage-files at (120 ∷ []) here refl (omega arith)

-- 11 blocks are 5.5 kilobytes; one directory is not counted.
eleven_blocks : disk_usage at [] ≡ total 6 1
unfolding disk_usage get_dir_size dir_size
eleven_blocks = refl

-- A path that is not a directory has 0 kilobytes, and a message.
no_directory : disk_usage (λ path. none) [] ≡ total 0 1
unfolding disk_usage get_dir_size
no_directory = refl
