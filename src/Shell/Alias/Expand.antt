-- ===== src/Shell/Alias/Expand.antt =====
-- What a new alias does to the lines that are read: Commands.cpp.
use operating_systems_course.Prelude.{◌≢◌, ◌⊎◌, ◌<◌, ◌≤◌, has, ℕ, false, List, [], ◌∷◌, ◌++◌, ◌≡◌}
use operating_systems_course.Shell.Alias.{Alias}

abbrev added : (name command : List ℕ) → List Alias → List Alias
added name command aliases = aliases ++ (record { name = name; command = command } ∷ [])

-- A character that `>>` skips, and one that it reads.
abbrev Blank : ℕ → Type 0
Blank c = (c ≡ 32) ⊎ ((9 ≤ c) × (c ≤ 13))

abbrev Solid : ℕ → Type 0
Solid c = (c ≢ 32) × ((c < 9) ⊎ (13 < c))

abbrev AllBlank : List ℕ → Type 0
AllBlank [] = Unit {0}
AllBlank (c ∷ cs) = Blank c × AllBlank cs

abbrev AllSolid : List ℕ → Type 0
AllSolid [] = Unit {0}
AllSolid (c ∷ cs) = Solid c × AllSolid cs

-- The end of a line, or a newline with what follows it.
abbrev EndsLine : List ℕ → Type 0
EndsLine [] = Unit {0}
EndsLine (c ∷ cs) = c ≡ 10

-- Nothing, or a text that begins with a blank.
abbrev BeginsBlank : List ℕ → Type 0
BeginsBlank [] = Unit {0}
BeginsBlank (c ∷ cs) = Blank c

-- A line with a word: blanks, the word `c ∷ cs`, and what stands behind the word up to a newline.
pub record IsLine (blanks : List ℕ) (c : ℕ) (cs behind tail : List ℕ) : Type 0 where
  pub blanks_skipped : AllBlank blanks
  pub word : AllSolid (c ∷ cs)
  pub apart : BeginsBlank (behind ++ tail)
  pub one_line : has 10 behind ≡ false
  pub tail_ends : EndsLine tail

module _ (blanks : List ℕ) (c : ℕ) (cs behind tail : List ℕ)
    (l : IsLine blanks c cs behind tail) where
  abbrev line : List ℕ
  line = blanks ++ ((c ∷ cs) ++ (behind ++ tail))

-- What becomes of a line whose first word is `word`, with `behind` behind it up to a newline.
pub data Converted (name command word behind : List ℕ) (before after : List ℕ) : Type 0 where
  replaced :
      word ≡ name → after ≡ command ++ behind → Converted name command word behind before after
  kept : word ≢ name → after ≡ before → Converted name command word behind before after
