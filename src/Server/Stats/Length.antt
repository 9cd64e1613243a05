-- ===== src/Server/Stats/Length.antt =====
-- The statistics fit the buffers that they are printed into.
use Prim.Native.String.{String}
use mathlib.Core.List.{append_assoc, append-nil}
use operating_systems_course.Prelude.{
  take, refl, ap, sym, ◌∙◌, if_false, leb, ℕ, ◌+◌, ◌^◌, ◌≤◌, ◌<◌, ◌≡◌, List, [], ◌∷◌, ◌++◌, length,
  length-append, arith,
}
use operating_systems_course.Server.Run.{Timeval, ok, step}
use operating_systems_course.Server.Stats.{
  ThreadsStats, TimeStats, codes, decimal, decimal_06, line, time, log_pieces, sprintf_at,
  print_each, append_stats_in_log,
}
use operating_systems_course.Server.Stats.Text.{field, seconds, stats_text}
use operating_systems_course.Server.Stats.Digits.{length-decimal, length-decimal_06}

-- The numbers are C `int`s and `long`s.
pub record FitsTime (t : Timeval) : Type 0 where
  pub sec : t.tv_sec < 2 ^ 63
  pub usec : t.tv_usec < 2 ^ 63

pub record Fits (t : ThreadsStats) (tm : TimeStats) : Type 0 where
  pub id : t.id < 2 ^ 31
  pub stat_req : t.stat_req < 2 ^ 31
  pub dynm_req : t.dynm_req < 2 ^ 31
  pub post_req : t.post_req < 2 ^ 31
  pub total_req : t.total_req < 2 ^ 31
  pub task_arrival : FitsTime tm.task_arrival
  pub task_dispatch : FitsTime tm.task_dispatch
  pub log_enter : FitsTime tm.log_enter
  pub log_exit : FitsTime tm.log_exit

length-field :
    (name : String) (value : List ℕ)
    → length (field name value) ≡ length (codes name) + length value + 2
unfolding field
length-field name value = omega (
  arith,
  length-append (codes name) (value ++ (13 ∷ (10 ∷ []))),
  length-append value (13 ∷ (10 ∷ [])),
)

length-seconds : (t : Timeval) → FitsTime t → length (seconds t) ≤ 39
unfolding seconds
length-seconds t f = omega (
  arith,
  length-append (decimal t.tv_sec) (46 ∷ decimal_06 t.tv_usec),
  length-decimal 18 t.tv_sec (omega (arith, f.sec)),
  length-decimal_06 18 t.tv_usec (omega arith) (omega (arith, f.usec)),
)

length-count : (n : ℕ) → n < 2 ^ 31 → length (decimal n) ≤ 10
length-count n lt = length-decimal 9 n (omega arith)

record Short (n : ℕ) (xs : List ℕ) : Type 0 where
  pub bound : length xs ≤ n

Short-append : (a b : ℕ) {xs ys : List ℕ} → Short a xs → Short b ys → Short (a + b) (xs ++ ys)
Short-append a b {xs = xs} {ys = ys} p q = record {
  bound = omega (arith, length-append xs ys, p.bound, q.bound);
}

field-seconds :
    (name : String) (t : Timeval)
    → FitsTime t
    → length (codes name) ≤ 22
    → Short 63 (field name (seconds t))
field-seconds name t f short = record {
  bound = omega (arith, length-field name (seconds t), length-seconds t f);
}

field-decimal :
    (name : String) (n : ℕ)
    → n < 2 ^ 31
    → length (codes name) ≤ 22
    → Short 34 (field name (decimal n))
field-decimal name n lt short = record {
  bound = omega (arith, length-field name (decimal n), length-count n lt);
}

stats_text-Short : (t : ThreadsStats) (tm : TimeStats) → Fits t tm → Short 424 (stats_text t tm)
unfolding stats_text
stats_text-Short t tm f =
    Short-append 63 361
      (field-seconds "Stat-Req-Arrival:: " tm.task_arrival f.task_arrival (omega arith))
      (Short-append 63 298
        (field-seconds "Stat-Req-Dispatch:: " tm.task_dispatch f.task_dispatch (omega arith))
        (Short-append 63 235
          (field-seconds "Stat-Log-Arrival:: " tm.log_enter f.log_enter (omega arith))
          (Short-append 63 172
            (field-seconds "Stat-Log-Dispatch:: " tm.log_exit f.log_exit (omega arith))
            (Short-append 34 138 (field-decimal "Stat-Thread-Id:: " t.id f.id (omega arith)) (
              Short-append 34 104
                (field-decimal "Stat-Thread-Count:: " t.total_req f.total_req (omega arith))
                (Short-append 34 70
                  (field-decimal "Stat-Thread-Static:: " t.stat_req f.stat_req (omega arith))
                  (Short-append 34 36
                    (field-decimal "Stat-Thread-Dynamic:: " t.dynm_req f.dynm_req (omega arith))
                    (Short-append 34 2
                      (field-decimal "Stat-Thread-Post:: " t.post_req f.post_req (omega arith))
                      (record { bound = omega arith })))))))))

-- The text of the statistics takes at most 424 bytes.
pub length-stats_text :
    (t : ThreadsStats) (tm : TimeStats) → Fits t tm → length (stats_text t tm) ≤ 424
length-stats_text t tm f = (stats_text-Short t tm f).bound

-- The pieces, one behind the other.
abbrev pub together : List (List ℕ) → List ℕ
together [] = []
together (p ∷ ps) = p ++ together ps

together-log_pieces :
    (t : ThreadsStats) (tm : TimeStats) → together (log_pieces t tm) ≡ stats_text t tm
unfolding log_pieces line time field seconds stats_text
together-log_pieces t tm = simp append-nil

pub take-length : (xs : List ℕ) → take (length xs) xs ≡ xs
take-length [] = refl
take-length (x ∷ xs) = ap (λ t. x ∷ t) (take-length xs)

pub sprintf_at-end :
    (size : ℕ) (buf piece : List ℕ)
    → length buf + length piece < size
    → sprintf_at size buf (length buf) piece ≡ ok (buf ++ piece, length (buf ++ piece))
unfolding sprintf_at
sprintf_at-end size buf piece room =
    if_false (leb size (length buf + length piece)) _ _ (ground arith)
    ∙ ap (λ t. ok (t ++ piece, length buf + length piece)) (take-length buf)
    ∙ ap (λ n. ok (buf ++ piece, n)) (sym (length-append buf piece))

-- Calls of `sprintf` that have room print their pieces one behind the other.
print_each-together :
    (size : ℕ) (buf : List ℕ) (ps : List (List ℕ))
    → length buf + length (together ps) < size
    → print_each size buf (length buf) ps ≡ ok (buf ++ together ps, length (buf ++ together ps))
unfolding print_each
print_each-together size buf [] room = ap (λ t. ok (t, length t)) (sym (append-nil buf))
print_each-together size buf (p ∷ ps) room =
    let n = length-append p (together ps) in
    step _ (sprintf_at-end size buf p (omega (arith, n)))
    ∙ print_each-together size (buf ++ p) ps (omega (arith, n, length-append buf p))
    ∙ ap (λ t. ok (t, length t)) (append_assoc buf p (together ps))

pub append_stats_in_log-stats_text :
    (size : ℕ) (buf : List ℕ) (t : ThreadsStats) (tm : TimeStats)
    → Fits t tm
    → length buf + 424 < size
    → append_stats_in_log size buf t tm
      ≡ ok (buf ++ stats_text t tm, length (buf ++ stats_text t tm))
unfolding append_stats_in_log
append_stats_in_log-stats_text size buf t tm f room =
    let e = together-log_pieces t tm in
    let short = length-stats_text t tm f in
    print_each-together size buf (log_pieces t tm) (omega (arith, short, ap length e))
    ∙ ap (λ x. ok (buf ++ x, length (buf ++ x))) e
