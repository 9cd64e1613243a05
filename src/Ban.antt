-- ===== src/Ban.antt =====
-- The syscall bans of hw02-linux-syscall-ban: kernel/hw2.c, and the three system calls that ask it
-- (`getpid` in kernel/sys.c, `kill` in kernel/signal.c, `pipe` in fs/pipe.c).
mod Flip
mod Branch
mod Words
mod Tests
use Prim.Native.Nat.{bit_and, bit_or}
use operating_systems_course.Prelude.{
  ℕ, zero, suc, ◌+◌, ◌-◌, Bool, true, not, ◌||◌, Option, none, some, ◌==◌, if◌then◌else◌, ℤ, pos,
  negsuc, is_neg, is_pos, neg, eperm, esrch, einval,
}

-- An address of a `struct task_struct`.
abbrev pub Ptr : Type 0
Ptr = ℕ

abbrev pub null : Ptr
null = 0

-- The fields of `struct task_struct` that the ban code reads or writes. `banned_signals` is the bit
-- pattern of a `char`; `euid` is what `current_euid().val` reads.
pub record Task : Type 0 where
  pub real_parent : Ptr
  pub euid : ℕ
  pub banned_signals : ℕ

abbrev pub Tasks : Type 0
Tasks = Ptr → Task

pub record Kernel : Type 0 where
  pub tasks : Tasks
  pub current : Ptr

-- #define GETPID, PIPE, KILL
abbrev pub getpid_bit : ℕ
getpid_bit = 0x01

abbrev pub pipe_bit : ℕ
pipe_bit = 0x02

abbrev pub kill_bit : ℕ
kill_bit = 0x04

-- `p->banned_signals = b`
abbrev pub write_banned : Tasks → Ptr → ℕ → Tasks
write_banned t p b q = if q == p then record (t q) { banned_signals = b } else t q

-- The statement `if (test) banned_signals |= sig`.
abbrev pub raise : Bool → ℕ → ℕ → ℕ
raise test sig b = if test then bit_or b sig else b

pub set_ban : Kernel → (ban_getpid ban_pipe ban_kill : ℤ) → Kernel × ℤ
set_ban k g p kl =
    if is_neg g || (is_neg p || is_neg kl)
    then (k, neg einval)
    else if not ((k.tasks k.current).euid == 0)
    then (k, neg eperm)
    else (
      record k {
        tasks = write_banned k.tasks k.current (
            raise (is_pos kl) kill_bit (raise (is_pos p) pipe_bit (raise (is_pos g) getpid_bit 0)));
      },
      pos 0,
    )

-- The `switch (ban)` of the other three calls; `none` is its `default`.
unfoldable pub ban_mask : ℕ → Option ℕ
ban_mask c =
    if c == b'g'
    then some getpid_bit
    else if c == b'p'
    then some pipe_bit
    else if c == b'k'
    then some kill_bit
    else none

-- `banned_signals & sig`, as the truth value that C makes of it
abbrev pub is_banned : Task → ℕ → Bool
is_banned t sig = not (bit_and t.banned_signals sig == 0)

pub get_ban : Kernel → ℕ → ℤ
get_ban k ban = elim (ban_mask ban) [
  | none ↦ neg einval
  | some sig ↦ if is_banned (k.tasks k.current) sig then pos 1 else pos 0
]

-- A `long` as the condition of an `if`
abbrev pub is_true : ℤ → Bool
is_true (pos n) = not (n == 0)
is_true (negsuc n) = true

-- `find_task_by_vpid` is the kernel's, and a parameter.
pub check_ban : (find_task_by_vpid : ℤ → Ptr) → Kernel → (pid : ℤ) → (ban : ℕ) → ℤ
check_ban find_task_by_vpid k pid ban = elim (ban_mask ban) [
  | none ↦ neg einval
  | some sig ↦
      let other = find_task_by_vpid pid in
      if other == null
      then neg esrch
      else if is_banned (k.tasks k.current) sig
      then neg eperm
      else if is_banned (k.tasks other) sig
      then pos 1
      else pos 0
]

-- The body of the loop on one task: set the bit and count, or clear it. `~sig` on a `char` is
-- `255 - sig`.
pub flip_task : ℕ → Task → Task × ℕ
flip_task sig t =
    if bit_and t.banned_signals sig == 0
    then (record t { banned_signals = bit_or t.banned_signals sig }, 1)
    else (record t { banned_signals = bit_and t.banned_signals (255 - sig) }, 0)

-- `*p = t` for a task structure
abbrev pub update : Tasks → Ptr → Task → Tasks
update t p x q = if q == p then x else t q

-- `while (parent && height > 0)`, by recursion on `height`
pub flip_loop : ℕ → (height : ℕ) → Tasks → (parent : Ptr) → (count : ℕ) → Tasks × ℕ
unfolding flip_task
flip_loop sig zero t parent count = (t, count)
flip_loop sig (suc height) t parent count =
    let (x, one) = flip_task sig (t parent) in
    let t' = update t parent x in
    let rest = flip_loop sig height t' (t' parent).real_parent (count + one) in
    if parent == null
    then (t, count)
    else if parent == (t' parent).real_parent
    then (t', count + one)
    else rest

-- The part of `sys_flip_ban_branch` behind its checks of `height` and `ban`.
pub flip_checked : Kernel → ℕ → ℕ → Kernel × ℤ
flip_checked k height sig =
    if is_banned (k.tasks k.current) sig
    then (k, neg eperm)
    else (let (t, count) = flip_loop sig height k.tasks (k.tasks k.current).real_parent 0 in
        (record k { tasks = t }, pos count))

pub flip_ban_branch : Kernel → ℤ → ℕ → Kernel × ℤ
flip_ban_branch k (negsuc n) ban = (k, neg einval)
flip_ban_branch k (pos zero) ban = (k, neg einval)
flip_ban_branch k (pos (suc h)) ban = elim (ban_mask ban) [
  | none ↦ (k, neg einval)
  | some sig ↦ flip_checked k (suc h) sig
]

-- SYSCALL_DEFINE0(getpid); `task_tgid_vnr` is the kernel's.
pub getpid : (task_tgid_vnr : Ptr → ℕ) → Kernel → ℤ
unfolding get_ban
getpid task_tgid_vnr k =
    if is_true (get_ban k b'g') then neg eperm else pos (task_tgid_vnr k.current)

-- `struct siginfo`, the fields that `kill` fills in
pub record SigInfo : Type 0 where
  pub si_signo : ℤ
  pub si_errno : ℕ
  pub si_code : ℕ
  pub si_pid : ℕ
  pub si_uid : ℕ

abbrev pub si_user : ℕ
si_user = 0

-- SYSCALL_DEFINE2(kill, ...). What it calls behind the ban is an argument: `task_tgid_vnr` and
-- the munged uid are the kernel's, and `kill_something_info` delivers the signal.
pub kill :
    (task_tgid_vnr : Ptr → ℕ) (munged_uid : Ptr → ℕ)
    → (kill_something_info : (sig : ℤ) → SigInfo → (pid : ℤ) → Kernel → Kernel × ℤ) → Kernel
    → (pid sig : ℤ) → Kernel × ℤ
unfolding get_ban
kill task_tgid_vnr munged_uid kill_something_info k pid sig =
    if is_true (get_ban k b'k')
    then (k, neg eperm)
    else kill_something_info sig
        (record {
          si_signo = sig;
          si_errno = 0;
          si_code = si_user;
          si_pid = task_tgid_vnr k.current;
          si_uid = munged_uid k.current;
        })
        pid k

-- SYSCALL_DEFINE1(pipe, ...), with `sys_pipe2` as an argument
pub pipe : (sys_pipe2 : (fildes flags : ℕ) → Kernel → Kernel × ℤ) → Kernel → ℕ → Kernel × ℤ
unfolding get_ban
pipe sys_pipe2 k fildes = if is_true (get_ban k b'p') then (k, neg eperm) else sys_pipe2 fildes 0 k
