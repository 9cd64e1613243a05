-- ===== src/Lib.antt =====
-- Coursework on operating systems: a kernel that bans system calls, a small shell, a web server
-- with threads, and a buddy allocator.
--
-- The parts, and the files that model them:
--
--   - Ban, Ban/*: `hw02-linux-syscall-ban`. A task has a word of ban bits, `Task.banned_signals`. The
--   calls of kernel/hw2.c read and write it: `set_ban`, `get_ban`, `check_ban`, `flip_ban_branch` for
--   `sys_set_ban` and so on. `getpid`, `kill` and `pipe` (kernel/sys.c, kernel/signal.c, fs/pipe.c)
--   ask for a bit and then do what they did before, which is an argument. Tasks stand in a store
--   from pointers to tasks; `flip_ban_branch` climbs `real_parent` in it.
--   - Creds, Creds/*: the calls of hw02-linux-syscall-ban/kernel/sys.c that change user and group ids,
--   `setuid` to `setfsgid`. They run on a `Cred`, the part of `struct cred` that they read and write,
--   and end in the credentials that they commit or in an error. What they ask of the kernel is the
--   record of parameters `World`. `Creds.Run` runs sequences of them.
--   - Limits, Limits/*: `do_prlimit` of the same file, on the limits of one task; what it asks of the
--   rest of the kernel is the record of parameters `Env`. Limits/Calls are `getrlimit`, `setrlimit`,
--   their versions for 32 bits, and `prlimit64` on a table of tasks; `Caller` is who calls.
--   - Server/Threads, Server/Run: what the two models of threads share: a thread is a number, its
--   place in the code a constructor, and a family of threads a function with a count. Runs that can
--   fault, for the queue.
--   - Server/Queue: hw03-multithreaded-web-server/queue.c over a heap of jobs, in which a read of an
--   address that holds no job is a fault, and the loop of server.c that empties a queue (`drain`).
--   - Server/RwLock: the reader-writer lock of hw03-multithreaded-web-server/log.c. The state is the
--   three counters and where each thread is. A step is what one thread does between taking the mutex
--   and giving it back, by sleeping or by leaving: `reader_turn`, `writer_turn`, `reader_unlock`,
--   `writer_unlock`. A sleeper can also wake with no signal.
--   - Server/Stats, Server/Log: the contents of the log of hw03-multithreaded-web-server/log.c, as the
--   holder of the lock sees them: a buffer of cells with its length and capacity, `create_log`,
--   `add_to_log` and `get_log`; and the text of the statistics that go into it, by `append_stats` of
--   request.c and `append_stats_in_log` of log.c, a call of `sprintf` after the other. `malloc` and
--   `realloc` are parameters.
--   - Server/Request: `requestParseURI`, `requestGetFiletype` and `requestError` of
--   hw03-multithreaded-web-server/request.c: `parse_uri`, `get_filetype`, `request_error`.
--   - Server/Pool: hw03-multithreaded-web-server/server.c. `main` and any number of workers, in steps
--   of the same kind, at `queue_lock`. The queue is here the list that Server/Queue shows it to be.
--   - Server/Rio: the `rio_` functions of hw03-multithreaded-web-server/segel.c. `read` and `write`
--   are parameters; `IsPosix` and `IsPosixSink` state what POSIX says of them: a call delivers bytes in
--   order, is interrupted, or fails, and it fails only on a descriptor that is broken.
--   - Allocator: hw04-custom-memory-allocator/malloc_3.cpp. Allocator/Links is `BlockOrderList`, a list
--   linked both ways through the headers of free blocks; Allocator/Buddy is `MemoryTracker` with the
--   splitting and merging of blocks; Allocator/Calls are `initHeap`, `smalloc`, `scalloc`, `sfree`,
--   `srealloc` and the counts. The heap takes an address to the header written there; a read where
--   there is none, or through NULL, is a fault. `sbrk`, `mmap` and `munmap` are parameters. The
--   invariant, Allocator/Buddy/Invariant, says which blocks are free and which are handed out;
--   Allocator/Buddy/Tiling, that the blocks leave no gap in the heap and are aligned. Allocator/Client
--   is a program that calls `smalloc` and `sfree`, for what holds over all of them. Allocator/FirstFit
--   is hw04-custom-memory-allocator/stages/malloc_2.cpp, the list of blocks with first fit, whose
--   functions are here `smalloc_first`, `scalloc_first`, `sfree_first` and `srealloc_first`.
--   - Shell: hw01-small-shell/Commands.h and Commands.cpp. Shell/Text are the helpers that trim and cut
--   a line, Shell/Jobs is `JobsList`, Shell/Alias is `AliasHelper` with the parsing of `alias`,
--   Shell/Dispatch is `CreateCommand` and the constructors that cut a line, and Shell/Commands and
--   Shell/Control are the `execute` of the built-in commands on the state in Shell/Session, with the
--   handler of signals.cpp; Shell/Environment is `unsetenv`, Shell/Du is `du` with `getDirSize`, and
--   Shell/Who is `whoami` with the reading of /etc/passwd. What waitpid, kill and chdir answer are
--   arguments.
--   - Prelude: Boolean tests, lists over native numbers, signed results with error numbers, bit masks.
--
-- Sizes. Ban words and ids are natural numbers; the masks of the ban calls are below 8. Heights and
-- arguments of the ban calls carry a sign. The counters of the lock and of the pool are unbounded;
-- the theorems bound them by numbers of threads. The statistics of the allocator wrap around at 2^64;
-- addresses and the sizes of blocks are sums that do not, as a block has at most 2^27 bytes.
-- The length and the capacity of the log are C `int`s: where a sum or a doubling of them would leave
-- that range, the run is a fault, and the theorems ask for logs below 2^30 bytes. The counters that
-- are printed are bounded by hypotheses. The ids of jobs and processes are natural numbers.
--
-- Fuel. A loop that ends by what it reads takes fuel: `flip_loop` by the height, `drain` one more
-- than the number of jobs, `double` one more than the bytes needed, the loops of Server/Rio one more
-- than the bytes wanted and the number of interruptions still to come, `walk`, `count_list`,
-- `find_fit` and `last_block` one more than the blocks of the list. The theorems on them prove that
-- this much is enough. The loops of merges, `merge_loop` and `try_merge`, take fuel too, a round for
-- each order they climb; for `merge_loop` this is proved to be enough. As a list has at most 32768 blocks, the client's 32779 is.
--
-- Not modelled: the other commands of the shell that print what the system says of itself, its forks, the
-- first stage of the allocator and the payloads of blocks, reading requests, deciding on them and
-- printing the other answers, sockets, and the parts of the kernel files that the coursework left as they were, other than the
-- calls on ids and limits.
pub mod Allocator
pub mod Ban
pub mod Creds
pub mod Limits
pub mod Prelude
pub mod Server
pub mod Shell
