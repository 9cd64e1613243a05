-- ===== src/Server/Log.antt =====
-- The contents of the log: `create_log`, `add_to_log` and `get_log` of
-- hw03-multithreaded-web-server/log.c, between the calls of the lock. The sleep for debugging is left
-- out.
--
-- `malloc` and `realloc` are parameters. A write or read beyond an allocated buffer is a fault, and so
-- is one through the null pointer. The length and the capacity are C `int`s: a sum or a doubling that
-- leaves their range is a fault.
mod Buffer
mod Append
mod History
mod Tests
use operating_systems_course.Prelude.{
  ℕ, zero, suc, ◌+◌, ◌*◌, ◌-◌, Bool, true, false, Option, none, some, List, [], ◌∷◌, ◌++◌, leb, ltb,
  length, take, drop, if◌then◌else◌,
}
use operating_systems_course.Server.Run.{Run, ok, exit, fault, ◌>>=◌}
use operating_systems_course.Server.Stats.{ThreadsStats, TimeStats, append_stats_in_log}

-- `buffer`, `length` and `capacity` of `struct Server_Log`; `cells` are the bytes allocated.
pub record Log : Type 0 where
  pub cells : List ℕ
  pub text_length : ℕ
  pub capacity : ℕ

abbrev pub initial_capacity : ℕ
initial_capacity = 1024

abbrev pub maxbuf : ℕ
maxbuf = 8192

-- 2 ^ 31, one more than the largest `int`
abbrev pub int_limit : ℕ
int_limit = 2147483648

-- An `int` that an addition or a multiplication yields.
pub int : ℕ → Run ℕ
int n = if leb int_limit n then fault else ok n

-- `memcpy(buffer + at, bytes, ...)`
pub store : (at_index : ℕ) → (bytes cells : List ℕ) → Run (List ℕ)
store i bytes cells =
    if leb (i + length bytes) (length cells)
    then ok (take i cells ++ (bytes ++ drop (i + length bytes) cells))
    else fault

-- `create_log` behind `malloc` of the buffer, which answered with bytes, whatever they hold.
pub start_text : Option (List ℕ) → Run Log
unfolding store
start_text none = exit 1
start_text (some cells) = store 0 (0 ∷ []) cells >>= λ cells'.
    ok (record { cells = cells'; text_length = 0; capacity = initial_capacity })

pub create_log : (malloc : ℕ → Option (List ℕ)) → Run Log
unfolding start_text
create_log malloc = start_text (malloc initial_capacity)

-- `while (need >= capacity) capacity *= 2;`
pub double : (fuel need capacity : ℕ) → Run ℕ
unfolding int
double zero need capacity = fault
double (suc fuel) need capacity = elim (leb capacity need) [
  | true ↦ int (capacity * 2) >>= double fuel need
  | false ↦ ok capacity
]

-- The buffer of `l` with room for `need` bytes and one more.
pub make_room : (realloc : List ℕ → ℕ → Option (List ℕ)) → (need : ℕ) → Log → Run Log
unfolding double
make_room realloc need l =
    if leb l.capacity need
    then (double (suc need) need l.capacity >>= λ capacity. elim (realloc l.cells capacity) [
      | none ↦ fault
      | some cells ↦ ok (record l { cells = cells; capacity = capacity })
    ])
    else ok l

-- `add_to_log` behind the text of the entry.
pub append : (realloc : List ℕ → ℕ → Option (List ℕ)) → (entry : List ℕ) → Log → Run Log
unfolding int make_room store
append realloc entry l = int (l.text_length + length entry + 1) >>= λ need.
    make_room realloc need l >>= λ roomy. store roomy.text_length entry roomy.cells >>= λ cells.
    store (roomy.text_length + length entry) (0 ∷ []) cells >>= λ cells'.
    ok (record roomy { cells = cells'; text_length = roomy.text_length + length entry })

-- `add_to_log` between `writer_lock`, which has set `log_exit`, and `writer_unlock`.
pub add_to_log : (realloc : List ℕ → ℕ → Option (List ℕ)) → ThreadsStats → TimeStats → Log → Run Log
unfolding append
add_to_log realloc t tm l = append_stats_in_log maxbuf [] t tm >>= λ (log_buf, len).
    if ltb len maxbuf then append realloc (log_buf ++ (10 ∷ [])) l else fault

-- `get_log` behind `malloc`, which answered with `dst`.
pub copy_out : Log → Option (List ℕ) → Run (List ℕ × ℕ)
unfolding store
copy_out l none = exit 1
copy_out l (some dst) =
    if leb (l.text_length + 1) (length l.cells)
    then (store 0 (take (l.text_length + 1) l.cells) dst >>= λ copy. ok (copy, l.text_length))
    else fault

-- `get_log` between `reader_lock` and `reader_unlock`: the copy, and its length.
pub get_log : (malloc : ℕ → Option (List ℕ)) → Log → Run (List ℕ × ℕ)
unfolding int copy_out
get_log malloc l = int (l.text_length + 1) >>= λ size. copy_out l (malloc size)
