-- ===== src/Shell/Who.antt =====
-- `whoami` of Commands.cpp: `get_uid`, `get_name_gid_and_dir` and `WhoAmICommand::execute`.
--
-- A file is its text, or none where opening, reading or closing it fails; `number` is `strtoul` with
-- base 10.
pub mod Passwd
mod Tests
use operating_systems_course.Prelude.{
  ℕ, zero, suc, ◌^◌, ◌%◌, Bool, true, false, ◌||◌, ◌&&◌, Option, none, some, List, [], ◌∷◌, ◌++◌,
  ◌==◌, take, if◌then◌else◌,
}

abbrev pub newline : ℕ
newline = 10

abbrev pub colon : ℕ
colon = 58

-- The characters in front of a NUL.
abbrev pub c_string : List ℕ → List ℕ
c_string [] = []
c_string (c ∷ cs) = if c == 0 then [] else c ∷ c_string cs

-- What is read into the buffer of 8192 bytes, as a string.
abbrev pub buffered : List ℕ → List ℕ
buffered text = c_string (take 8191 text)

-- A token that `strtok` returns; it returns no empty one.
abbrev pub token : List ℕ → List (List ℕ) → List (List ℕ)
token [] rest = rest
token (c ∷ cs) rest = (c ∷ cs) ∷ rest

-- The lines that `strtok` returns one after the other, where `line` has been read of the first.
abbrev pub tokens : (line : List ℕ) → List ℕ → List (List ℕ)
tokens line [] = token line []
tokens line (c ∷ cs) = elim (c == newline) [
  | true ↦ token line (tokens [] cs)
  | false ↦ tokens (line ++ (c ∷ [])) cs
]

-- A string up to the first `d`, and what is behind it: `strchr`, where the `d` becomes a NUL.
abbrev pub cut : (d : ℕ) → List ℕ → List ℕ × Option (List ℕ)
cut d [] = ([], none)
cut d (c ∷ cs) = let (front, rest) = cut d cs in if c == d then ([], some cs) else (c ∷ front, rest)

-- The fields of a line, with at most `more` behind the first.
abbrev pub fields : (more : ℕ) → List ℕ → List (List ℕ)
fields zero p = p ∷ []
fields (suc more) p =
    let (front, behind) = cut colon p in
    elim behind [ none ↦ front ∷ [] | some rest ↦ front ∷ fields more rest ]

-- `uid_t` and `gid_t` have 32 bits.
abbrev pub id_of : (List ℕ → ℕ) → List ℕ → ℕ
id_of number text = number text % 2 ^ 32

pub record Account : Type 0 where
  pub name : List ℕ
  pub gid : ℕ
  pub dir : List ℕ

-- The account that the fields of a line describe, if it has the user id.
abbrev pub account_of : (List ℕ → ℕ) → (uid : ℕ) → List (List ℕ) → Option Account
account_of number uid (name ∷ (password ∷ (u ∷ (g ∷ (info ∷ (dir ∷ rest)))))) =
    if id_of number u == uid
    then some (record { name = name; gid = id_of number g; dir = dir })
    else none
account_of number uid few = none

abbrev pub find_account : (List ℕ → ℕ) → (uid : ℕ) → List (List ℕ) → Option Account
find_account number uid [] = none
find_account number uid (l ∷ ls) = elim (account_of number uid (fields 6 l)) [
  | some a ↦ some a
  | none ↦ find_account number uid ls
]

-- `get_name_gid_and_dir`
pub get_account : (List ℕ → ℕ) → (uid : ℕ) → (passwd : Option (List ℕ)) → Option Account
get_account number uid none = none
get_account number uid (some text) = find_account number uid (tokens [] (buffered text))

abbrev pub skip_blanks : List ℕ → List ℕ
skip_blanks [] = []
skip_blanks (c ∷ cs) = if c == 32 || c == 9 then skip_blanks cs else c ∷ cs

-- The id of a line that begins with `Uid:`.
abbrev pub uid_of : (List ℕ → ℕ) → List ℕ → Option ℕ
uid_of number (a ∷ (b ∷ (c ∷ (d ∷ rest)))) =
    if (a == 85) && ((b == 105) && ((c == 100) && (d == colon)))
    then some (id_of number (skip_blanks rest))
    else none
uid_of number short = none

abbrev pub find_uid : (List ℕ → ℕ) → List (List ℕ) → Option ℕ
find_uid number [] = none
find_uid number (l ∷ ls) = elim (uid_of number l) [
  | some uid ↦ some uid
  | none ↦ find_uid number ls
]

-- `get_uid`
pub get_uid : (List ℕ → ℕ) → (status : Option (List ℕ)) → Option ℕ
get_uid number none = none
get_uid number (some text) = find_uid number (tokens [] (buffered text))

-- What `whoami` prints: the account, with the user id.
abbrev pub with_uid : ℕ → Option Account → Option (ℕ × Account)
with_uid uid none = none
with_uid uid (some a) = some (uid, a)

abbrev pub whoami_as : (List ℕ → ℕ) → Option (List ℕ) → Option ℕ → Option (ℕ × Account)
whoami_as number passwd none = none
whoami_as number passwd (some uid) = with_uid uid (get_account number uid passwd)

pub whoami : (List ℕ → ℕ) → (status passwd : Option (List ℕ)) → Option (ℕ × Account)
unfolding get_account get_uid
whoami number status passwd = whoami_as number passwd (get_uid number status)
