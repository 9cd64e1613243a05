-- ===== src/Server/Log/Tests.antt =====
-- A log with memory that never runs out, and zeros in what is allocated.
use operating_systems_course.Prelude.{
  ℕ, zero, suc, ◌+◌, ◌*◌, ◌-◌, ◌≤◌, ◌≡◌, refl, ◌⊎◌, Option, some, List, [], ◌∷◌, ◌++◌, arith,
  length, length-append,
}
use operating_systems_course.Server.Run.{◌>>=◌, Returns}
use operating_systems_course.Server.Stats.Text.{stats_text}
use operating_systems_course.Server.Stats.Length.{length-stats_text}
use operating_systems_course.Server.Stats.Tests.{counts, times, counts-Fits}
use operating_systems_course.Server.Log.{Log, create_log, add_to_log, get_log}
use operating_systems_course.Server.Log.Append.{Holds, IsRealloc, add_to_log-Holds}
use operating_systems_course.Server.Log.History.{
  IsMalloc, no_entries, one_more, add_all, entries_text, get_log-add_all,
}

abbrev blank : ℕ → List ℕ
blank zero = []
blank (suc n) = 0 ∷ blank n

length-blank : (n : ℕ) → length (blank n) ≡ n
length-blank zero = refl
length-blank (suc n) = omega (arith, length-blank n)

abbrev malloc : ℕ → Option (List ℕ)
malloc size = some (blank size)

abbrev realloc : List ℕ → ℕ → Option (List ℕ)
realloc cells size = some (cells ++ blank (size - length cells))

malloc-IsMalloc : IsMalloc malloc
malloc-IsMalloc size = (blank size, refl, length-blank size)

realloc-IsRealloc : IsRealloc realloc
realloc-IsRealloc cells size le = (
  blank (size - length cells),
  refl,
  omega (
    arith,
    length-append cells (blank (size - length cells)),
    length-blank (size - length cells),
  ),
)

-- The entry takes at most 425 bytes.
entry_length : length (stats_text counts times ++ (10 ∷ [])) ≤ 425
entry_length = omega (
  arith,
  length-stats_text counts times counts-Fits,
  length-append (stats_text counts times) (10 ∷ []),
)

-- A log of eight bytes that holds `hi`.
abbrev small : Log
small = record { cells = 104 ∷ (105 ∷ (0 ∷ blank 5)); text_length = 2; capacity = 8 }

add_to_log-Holds_example :
    Returns
      (λ l'.
        Holds (104 ∷ (105 ∷ (stats_text counts times ++ (10 ∷ [])))) l'
        × (8 ≤ l'.capacity)
        × ((l'.capacity ≡ 8)
            ⊎ (l'.capacity
                ≤ 2 * (length (104 ∷ (105 ∷ (stats_text counts times ++ (10 ∷ [])))) + 1))))
      (add_to_log realloc counts times small)
add_to_log-Holds_example =
    add_to_log-Holds realloc realloc-IsRealloc counts times (104 ∷ (105 ∷ [])) small counts-Fits
      (record { front = refl; size = refl; counted = refl; room = omega arith })
      (omega (arith, entry_length))

get_log-add_all_example :
    Returns
      (λ out. out ≡ (
        entries_text ((counts, times) ∷ ((counts, times) ∷ [])) ++ (0 ∷ []),
        length (entries_text ((counts, times) ∷ ((counts, times) ∷ []))),
      ))
      (create_log malloc >>= λ l.
        add_all realloc ((counts, times) ∷ ((counts, times) ∷ [])) l >>= get_log malloc)
get_log-add_all_example =
    get_log-add_all realloc realloc-IsRealloc malloc malloc-IsMalloc
      ((counts, times) ∷ ((counts, times) ∷ []))
      (one_more counts-Fits (one_more counts-Fits no_entries))
      (omega (
        arith,
        entry_length,
        length-append (stats_text counts times ++ (10 ∷ [])) (entries_text ((counts, times) ∷ [])),
        length-append (stats_text counts times ++ (10 ∷ [])) [],
      ))
