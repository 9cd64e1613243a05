-- ===== src/Server/Log/History.antt =====
-- From its creation on, the log is the entries that were added, in order: log.c.
use mathlib.Core.List.{append_assoc, append-nil}
use operating_systems_course.Prelude.{
  ℕ, ◌+◌, ◌≡◌, refl, ◌∙◌, List, [], ◌∷◌, ◌++◌, length, length-append, ap, ◌*◌, ◌<◌, arith, Option,
  some,
}
use operating_systems_course.Server.Run.{Run, ok, ◌>>=◌, Returns, returns, bind, mono}
use operating_systems_course.Server.Stats.{ThreadsStats, TimeStats}
use operating_systems_course.Server.Stats.Text.{stats_text}
use operating_systems_course.Server.Stats.Length.{Fits}
use operating_systems_course.Server.Log.{
  Log, int_limit, initial_capacity, start_text, create_log, add_to_log, get_log,
}
use operating_systems_course.Server.Log.Buffer.{store-Stored}
use operating_systems_course.Server.Log.Append.{Holds, IsRealloc, add_to_log-Holds, get_log-Holds}

-- What `malloc` does where there is memory.
abbrev pub IsMalloc : (ℕ → Option (List ℕ)) → Type 0
IsMalloc malloc = (size : ℕ) → (cells : List ℕ) × (malloc size ≡ some cells) × (length cells ≡ size)

-- The calls of `add_to_log` that the writers make, in the order in which they hold the lock.
pub add_all :
    (realloc : List ℕ → ℕ → Option (List ℕ)) → List (ThreadsStats × TimeStats) → Log → Run Log
unfolding add_to_log
add_all realloc [] l = ok l
add_all realloc ((t, tm) ∷ rest) l = add_to_log realloc t tm l >>= add_all realloc rest

pub data AllFit : List (ThreadsStats × TimeStats) → Type 0 where
  no_entries : AllFit []
  one_more :
      {t : ThreadsStats} {tm : TimeStats} {rest : List (ThreadsStats × TimeStats)}
      → Fits t tm
      → AllFit rest
      → AllFit ((t, tm) ∷ rest)

abbrev pub entries_text : List (ThreadsStats × TimeStats) → List ℕ
entries_text [] = []
entries_text ((t, tm) ∷ rest) = (stats_text t tm ++ (10 ∷ [])) ++ entries_text rest

start_text-Holds :
    (cells : List ℕ)
    → length cells ≡ initial_capacity
    → Returns (Holds []) (start_text (some cells))
unfolding start_text
start_text-Holds cells size = bind (store-Stored 0 (0 ∷ []) cells (omega (arith, size))) λ cells' s.
    returns (record { front = s.front; size = s.size ∙ size; counted = refl; room = omega arith })

create_log-Holds :
    (malloc : ℕ → Option (List ℕ)) → IsMalloc malloc → Returns (Holds []) (create_log malloc)
unfolding create_log
create_log-Holds malloc memory =
    let (cells, gives, size) = memory initial_capacity in rw gives (start_text-Holds cells size)

module _ (realloc : List ℕ → ℕ → Option (List ℕ)) (has_memory : IsRealloc realloc) where
  add_all-Holds :
      (entries : List (ThreadsStats × TimeStats)) (text : List ℕ) (l : Log)
      → AllFit entries
      → Holds text l
      → (length (text ++ entries_text entries) + 1) * 2 < int_limit
      → Returns (Holds (text ++ entries_text entries)) (add_all realloc entries l)
  unfolding add_all
  add_all-Holds [] text l fit h in_range = returns (rw (append-nil text) h)
  add_all-Holds ((t, tm) ∷ rest) text l (one_more fits fit) h in_range =
      let entry = stats_text t tm ++ (10 ∷ []) in
      let e = append_assoc text entry (entries_text rest) in
      let n = length-append (text ++ entry) (entries_text rest) in
      let whole = ap length e in
      bind (add_to_log-Holds realloc has_memory t tm text l fits h (omega (arith, n, whole)))
        λ l' (h', grows, limit).
          mono (add_all-Holds rest (text ++ entry) l' fit h' (omega (arith, whole))) λ l'' h''.
            rw (append_assoc text (stats_text t tm ++ (10 ∷ [])) (entries_text rest)) at h''

  -- Where there is memory, a new log to which entries of less than 2^30 bytes together, with their
  -- NUL, are added hands out exactly these, in order, each ended by a newline, with a NUL behind them
  -- that the length does not count.
  pub get_log-add_all :
      (malloc : ℕ → Option (List ℕ))
      → IsMalloc malloc
      → (entries : List (ThreadsStats × TimeStats)) → AllFit entries
      → (length (entries_text entries) + 1) * 2 < int_limit
      → Returns
          (λ out. out ≡ (entries_text entries ++ (0 ∷ []), length (entries_text entries)))
          (create_log malloc >>= λ l. add_all realloc entries l >>= get_log malloc)
  get_log-add_all malloc memory entries fit in_range = bind (create_log-Holds malloc memory) λ l h.
      bind (add_all-Holds entries [] l fit h in_range) λ l' h'.
        let (dst, gives, size) = memory (length (entries_text entries) + 1) in
        rw (get_log-Holds malloc (entries_text entries) dst l' h' gives size (omega arith))
          (returns refl)
