-- ===== src/Shell/Du.antt =====
-- `du` of Commands.cpp: `getDirSize` and `DiskUsageCommand::execute`.
--
-- A directory is what opening and reading it gives; `getdents64` hands out its entries in batches.
pub mod Total
mod Tests
use operating_systems_course.Prelude.{
  ℕ, ◌+◌, ◌*◌, ◌/◌, ◌%◌, ◌^◌, Bool, true, false, ◌||◌, Option, none, some, List, [], ◌∷◌,
  if◌then◌else◌,
}
use operating_systems_course.Shell.Text.{same_text}

-- The entries behind a place of a directory that is open: its end, an error of `getdents64`, the next
-- batch; or an entry, which `lstat` fails on, or which is a directory that does not open, a directory,
-- or something else that takes up a number of blocks of 512 bytes.
pub data Entries : Type 0 where
  end_of_directory : Entries
  unreadable : Entries
  next_batch : Entries → Entries
  unknown : (name : List ℕ) → Entries → Entries
  closed : (name : List ℕ) → Entries → Entries
  directory : (name : List ℕ) → (inside : Entries) → Entries → Entries
  file : (name : List ℕ) → (blocks : ℕ) → Entries → Entries

-- An `unsigned long`
abbrev pub long : ℕ → ℕ
long n = n % 2 ^ 64

-- The names `.` and `..`
abbrev pub is_dots : List ℕ → Bool
is_dots name = same_text name (46 ∷ []) || same_text name (46 ∷ (46 ∷ []))

-- The sum so far, and the number of messages.
pub record Sum : Type 0 where
  pub bytes : ℕ
  pub errors : ℕ

abbrev pub complain : Sum → Sum
complain s = record s { errors = s.errors + 1 }

abbrev pub count : Sum → (bytes errors : ℕ) → Sum
count s bytes errors = record { bytes = long (s.bytes + bytes); errors = s.errors + errors }

-- The loops of `getDirSize`, behind the place they have come to.
pub dir_size : Sum → Entries → Sum
dir_size s end_of_directory = s
dir_size s unreadable = complain s
dir_size s (next_batch rest) = dir_size s rest
dir_size s (unknown name rest) = dir_size (if is_dots name then s else complain s) rest
dir_size s (closed name rest) = dir_size (if is_dots name then s else complain s) rest
dir_size s (directory name inside rest) =
    let sub = dir_size (record { bytes = 0; errors = 0 }) inside in
    dir_size (if is_dots name then s else count s sub.bytes sub.errors) rest
dir_size s (file name blocks rest) =
    dir_size (if is_dots name then s else count s (long (blocks * 512)) 0) rest

-- `getDirSize` of a path; `none` is one that does not open as a directory.
pub get_dir_size : Option Entries → Sum
unfolding dir_size
get_dir_size none = record { bytes = 0; errors = 1 }
get_dir_size (some d) = dir_size (record { bytes = 0; errors = 0 }) d

-- `du`: an error for too many arguments, or the kilobytes and the number of messages.
pub data Printed : Type 0 where
  too_many_arguments : Printed
  total : (kilobytes errors : ℕ) → Printed

abbrev pub kilobytes : ℕ → ℕ
kilobytes bytes = long (bytes + 1023) / 1024

pub disk_usage : (at : List ℕ → Option Entries) → (args : List (List ℕ)) → Printed
unfolding get_dir_size
disk_usage at [] = let s = get_dir_size (at (46 ∷ [])) in total (kilobytes s.bytes) s.errors
disk_usage at (path ∷ []) = let s = get_dir_size (at path) in total (kilobytes s.bytes) s.errors
disk_usage at (path ∷ (more ∷ rest)) = too_many_arguments
