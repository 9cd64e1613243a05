-- ===== src/Shell/Text.antt =====
-- Lines and words: the helpers at the top of Commands.cpp.
--
-- A string is the list of its characters. `find_last_not_of` gives `npos` for a blank string, which the
-- code does not recognize where it keeps it in an `unsigned int`; an access there is a fault.
use operating_systems_course.Prelude.{
  ℕ, zero, suc, Bool, true, false, ◌&&◌, ◌||◌, Option, none, some, List, [], ◌∷◌, ◌++◌, ◌==◌, leb,
  ltb, length, if◌then◌else◌,
}
use operating_systems_course.Server.Run.{Run, ok, fault}

-- A character of `WHITESPACE`
abbrev pub is_space : ℕ → Bool
is_space c = c == 32 || (leb 9 c && leb c 13)

-- The character `&`
abbrev pub ampersand : ℕ
ampersand = 38

abbrev pub same_text : List ℕ → List ℕ → Bool
same_text [] [] = true
same_text [] (d ∷ ds) = false
same_text (c ∷ cs) [] = false
same_text (c ∷ cs) (d ∷ ds) = (c == d) && same_text cs ds

-- `_ltrim`
abbrev pub ltrim : List ℕ → List ℕ
ltrim [] = []
ltrim (c ∷ cs) = if is_space c then ltrim cs else c ∷ cs

-- `c` in front of a string without spaces at its end.
abbrev pub keep : ℕ → List ℕ → List ℕ
keep c [] = if is_space c then [] else c ∷ []
keep c (d ∷ ds) = c ∷ (d ∷ ds)

-- `_rtrim`
abbrev pub rtrim : List ℕ → List ℕ
rtrim [] = []
rtrim (c ∷ cs) = keep c (rtrim cs)

-- `_trim`
abbrev pub trim : List ℕ → List ℕ
trim s = rtrim (ltrim s)

abbrev pub with_word : List ℕ → List (List ℕ) → List (List ℕ)
with_word [] words = words
with_word (c ∷ cs) words = (c ∷ cs) ∷ words

-- The words that `iss >> s` reads, with the part of a word that is read.
abbrev pub words : (word text : List ℕ) → List (List ℕ)
words word [] = with_word word []
words word (c ∷ cs) =
    if is_space c then with_word word (words [] cs) else words (word ++ (c ∷ [])) cs

abbrev pub command_max_args : ℕ
command_max_args = 20

-- `_parseCommandLine`: the words, which with the null pointer behind them must fit in `args`.
abbrev pub parse_command_line : List ℕ → Run (List (List ℕ))
parse_command_line text =
    let args = words [] (trim text) in if ltb (length args) command_max_args then ok args else fault

-- `args[i]`; what stands behind the null pointer is not initialized.
abbrev pub arg : List (List ℕ) → (i : ℕ) → Run (Option (List ℕ))
arg [] zero = ok none
arg [] (suc i) = fault
arg (a ∷ args) zero = ok (some a)
arg (a ∷ args) (suc i) = arg args i

abbrev pub or_first : ℕ → Option ℕ → Option ℕ
or_first c none = if is_space c then none else some c
or_first c (some d) = some d

-- The character at `find_last_not_of(WHITESPACE)`, if there is one, and the string in front of it.
abbrev pub last_char : List ℕ → Option ℕ
last_char [] = none
last_char (c ∷ cs) = or_first c (last_char cs)

abbrev pub before_last : List ℕ → List ℕ
before_last [] = []
before_last (c ∷ cs) = elim (last_char cs) [ none ↦ [] | some d ↦ c ∷ before_last cs ]

-- `_isBackgroundComamnd`
abbrev pub is_background : List ℕ → Run Bool
is_background text = elim (last_char text) [ none ↦ fault | some c ↦ ok (c == ampersand) ]

-- The end of `_removeBackgroundSignConstant`, on what stands in front of the sign.
abbrev pub cut_spaces : List ℕ → Run (List ℕ)
cut_spaces text = elim (last_char text) [ none ↦ fault | some c ↦ ok (rtrim text) ]

-- `_removeBackgroundSignConstant`
abbrev pub remove_background_sign : List ℕ → Run (List ℕ)
remove_background_sign text = elim (last_char text) [
  | none ↦ fault
  | some c ↦ if c == ampersand then cut_spaces (before_last text) else ok text
]
