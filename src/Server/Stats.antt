-- ===== src/Server/Stats.antt =====
-- The statistics that go into the log and into every answer: `append_stats` of
-- hw03-multithreaded-web-server/request.c, and `append_stats_in_log` of log.c.
--
-- Text is a list of character codes. The counters and times that are printed are never negative.
pub mod Digits
pub mod Text
pub mod Length
pub mod Tests
use Prim.Native.Char.{code}
use Prim.Native.String.{String}
use operating_systems_course.Prelude.{
  take, ℕ, zero, suc, ◌+◌, ◌-◌, ◌/◌, ◌%◌, Bool, true, false, List, [], ◌∷◌, ◌++◌, leb, ltb, length,
  if◌then◌else◌,
}
use operating_systems_course.Server.Run.{Run, ok, fault, ◌>>=◌, Timeval}

abbrev pub codes : String → List ℕ
codes String.[] = []
codes (String.◌∷◌ c s) = code c ∷ codes s

-- `struct Threads_stats`
pub record ThreadsStats : Type 0 where
  pub id : ℕ
  pub stat_req : ℕ
  pub dynm_req : ℕ
  pub post_req : ℕ
  pub total_req : ℕ

-- `struct Time_stats`
pub record TimeStats : Type 0 where
  pub task_arrival : Timeval
  pub task_dispatch : Timeval
  pub log_enter : Timeval
  pub log_exit : Timeval

-- The decimal digits of `n` before `acc`, at most `fuel` of them.
pub digits : (fuel n : ℕ) → (acc : List ℕ) → List ℕ
digits zero n acc = acc
digits (suc fuel) n acc = elim (ltb n 10) [
  | true ↦ (48 + n) ∷ acc
  | false ↦ digits fuel (n / 10) ((48 + n % 10) ∷ acc)
]

-- `%d` and `%ld`
pub decimal : ℕ → List ℕ
unfolding digits
decimal n = digits (suc n) n []

pub zeros : ℕ → List ℕ
zeros zero = []
zeros (suc n) = 48 ∷ zeros n

-- `%06ld`
pub decimal_06 : ℕ → List ℕ
unfolding decimal zeros
decimal_06 n = zeros (6 - length (decimal n)) ++ decimal n

-- A field's name, its value, and the end of the line.
pub line : String → List ℕ → List ℕ
line name value = codes name ++ (value ++ (13 ∷ (10 ∷ [])))

-- `%ld.%06ld` of a time
pub time : Timeval → List ℕ
unfolding decimal decimal_06
time t = decimal t.tv_sec ++ (46 ∷ decimal_06 t.tv_usec)

-- What the nine calls of `sprintf` in `append_stats` print, one after the other.
pub pieces : ThreadsStats → TimeStats → List (List ℕ)
unfolding line time decimal
pieces t tm =
    line "Stat-Req-Arrival:: " (time tm.task_arrival)
    ∷ (line "Stat-Req-Dispatch:: " (time tm.task_dispatch)
        ∷ (line "Stat-Log-Arrival:: " (time tm.log_enter)
            ∷ (line "Stat-Log-Dispatch:: " (time tm.log_exit)
                ∷ (line "Stat-Thread-Id:: " (decimal t.id)
                    ∷ (line "Stat-Thread-Count:: " (decimal t.total_req)
                        ∷ (line "Stat-Thread-Static:: " (decimal t.stat_req)
                            ∷ (line "Stat-Thread-Dynamic:: " (decimal t.dynm_req)
                                ∷ ((line "Stat-Thread-Post:: " (decimal t.post_req)
                                      ++ (13 ∷ (10 ∷ [])))
                                    ∷ []))))))))

-- The same nine calls in `append_stats_in_log`.
pub log_pieces : ThreadsStats → TimeStats → List (List ℕ)
unfolding line time decimal
log_pieces t tm =
    line "Stat-Req-Arrival:: " (time tm.task_arrival)
    ∷ (line "Stat-Req-Dispatch:: " (time tm.task_dispatch)
        ∷ (line "Stat-Log-Arrival:: " (time tm.log_enter)
            ∷ (line "Stat-Log-Dispatch:: " (time tm.log_exit)
                ∷ (line "Stat-Thread-Id:: " (decimal t.id)
                    ∷ (line "Stat-Thread-Count:: " (decimal t.total_req)
                        ∷ (line "Stat-Thread-Static:: " (decimal t.stat_req)
                            ∷ (line "Stat-Thread-Dynamic:: " (decimal t.dynm_req)
                                ∷ ((line "Stat-Thread-Post:: " (decimal t.post_req)
                                      ++ (13 ∷ (10 ∷ [])))
                                    ∷ []))))))))

-- `offset += sprintf(buf + offset, piece)` on a buffer of `size` bytes that holds the string `buf`. What
-- does not fit with its NUL is written beyond the buffer.
pub sprintf_at : (size : ℕ) (buf : List ℕ) (offset : ℕ) (piece : List ℕ) → Run (List ℕ × ℕ)
sprintf_at size buf offset piece =
    if leb size (offset + length piece)
    then fault
    else ok (take offset buf ++ piece, offset + length piece)

pub print_each : (size : ℕ) (buf : List ℕ) (offset : ℕ) → List (List ℕ) → Run (List ℕ × ℕ)
unfolding sprintf_at
print_each size buf offset [] = ok (buf, offset)
print_each size buf offset (p ∷ ps) =
    sprintf_at size buf offset p >>= λ (buf', offset'). print_each size buf' offset' ps

-- `append_stats`: the string then, and the offset that it returns.
pub append_stats : (size : ℕ) (buf : List ℕ) → ThreadsStats → TimeStats → Run (List ℕ × ℕ)
unfolding pieces print_each
append_stats size buf t tm = print_each size buf (length buf) (pieces t tm)

-- The same in log.c.
pub append_stats_in_log : (size : ℕ) (buf : List ℕ) → ThreadsStats → TimeStats → Run (List ℕ × ℕ)
unfolding log_pieces print_each
append_stats_in_log size buf t tm = print_each size buf (length buf) (log_pieces t tm)
