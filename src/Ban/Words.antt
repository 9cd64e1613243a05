-- ===== src/Ban/Words.antt =====
-- `sys_set_ban`, `sys_get_ban`, `sys_check_ban` and the banned calls: kernel/hw2.c.
use operating_systems_course.Prelude.{
  ℕ, ◌≡◌, refl, Bool, true, false, not, ◌||◌, arith, ◌==◌, if◌then◌else◌, ℤ, pos, neg, is_neg,
  is_pos, eperm, einval, esrch,
}
use operating_systems_course.Ban.{
  Ptr, null, Kernel, ban_mask, set_ban, get_ban, check_ban, getpid, kill, pipe, SigInfo, is_true,
}

-- 1 for a test that holds and 0 for one that fails, as a result
abbrev pub as_long : Bool → ℤ
as_long b = if b then pos 1 else pos 0

is_true-as_long : (b : Bool) → is_true (as_long b) ≡ b
is_true-as_long true = refl
is_true-as_long false = refl

set_ban-current : (k : Kernel) (g p kl : ℤ) → (set_ban k g p kl).0.current ≡ k.current
unfolding set_ban
set_ban-current k g p kl = ground arith

-- As root and with no negative argument, `sys_set_ban` returns 0; `sys_get_ban` then answers 1 for
-- exactly the letters whose argument was positive.
pub get_ban-set_ban :
    (k : Kernel) (g p kl : ℤ)
    → is_neg g ≡ false
    → is_neg p ≡ false
    → is_neg kl ≡ false
    → (k.tasks k.current).euid ≡ 0
    → ((set_ban k g p kl).1 ≡ pos 0)
      × (get_ban (set_ban k g p kl).0 b'g' ≡ as_long (is_pos g))
      × (get_ban (set_ban k g p kl).0 b'p' ≡ as_long (is_pos p))
      × (get_ban (set_ban k g p kl).0 b'k' ≡ as_long (is_pos kl))
unfolding set_ban get_ban ban_mask
get_ban-set_ban k g p kl hg hp hk root = ground arith

-- `sys_set_ban` fails exactly on a negative argument, with EINVAL, or else for an effective uid other
-- than 0, with EPERM. A call that fails changes nothing, and no call changes another task `q`.
pub set_ban_frame :
    (k : Kernel) (g p kl : ℤ) (q : Ptr)
    → let invalid = is_neg g || (is_neg p || is_neg kl) in
      let refused = invalid || not ((k.tasks k.current).euid == 0) in
      ((set_ban k g p kl).1
        ≡ (if refused then (if invalid then neg einval else neg eperm) else pos 0))
      × ((set_ban k g p kl).0 ≡ (if refused then k else (set_ban k g p kl).0))
      × ((set_ban k g p kl).0.tasks q
          ≡ (if q == k.current then (set_ban k g p kl).0.tasks q else k.tasks q))
unfolding set_ban
set_ban_frame k g p kl q = ground arith

-- After a successful `sys_set_ban`, each of `getpid`, `kill` and `pipe` fails with EPERM, without
-- calling what it would call, exactly if its argument was positive.
pub banned_calls-set_ban :
    (tgid uid : Ptr → ℕ) (send : ℤ → SigInfo → ℤ → Kernel → Kernel × ℤ)
    (pipe2 : ℕ → ℕ → Kernel → Kernel × ℤ) (k : Kernel) (g p kl pid sig : ℤ) (fildes : ℕ)
    → is_neg g ≡ false
    → is_neg p ≡ false
    → is_neg kl ≡ false
    → (k.tasks k.current).euid ≡ 0
    → let k' = (set_ban k g p kl).0 in
      (getpid tgid k' ≡ (if is_pos g then neg eperm else pos (tgid k.current)))
      × (pipe pipe2 k' fildes ≡ (if is_pos p then (k', neg eperm) else pipe2 fildes 0 k'))
      × (kill tgid uid send k' pid sig ≡ (
          if is_pos kl
          then (k', neg eperm)
          else send sig
              (record {
                si_signo = sig;
                si_errno = 0;
                si_code = 0;
                si_pid = tgid k.current;
                si_uid = uid k.current;
              })
              pid
              k'))
unfolding getpid kill pipe
banned_calls-set_ban tgid uid send pipe2 k g p kl pid sig fildes hg hp hk root =
    let (done, on_g, on_p, on_k) = get_ban-set_ban k g p kl hg hp hk root in
    (
      rw (on_g, is_true-as_long, set_ban-current),
      rw (on_p, is_true-as_long),
      rw (on_k, is_true-as_long, set_ban-current),
    )

-- `sys_check_ban` told by `sys_get_ban`: EINVAL on another letter, else ESRCH for a pid that no task
-- has, else EPERM if the caller itself is banned, else what the other task's own `sys_get_ban` says.
pub check_ban-get_ban :
    (find_task_by_vpid : ℤ → Ptr) (k : Kernel) (pid : ℤ) (ban : ℕ)
    → check_ban find_task_by_vpid k pid ban ≡ (
        if is_neg (get_ban k ban)
        then neg einval
        else if find_task_by_vpid pid == null
        then neg esrch
        else if is_true (get_ban k ban)
        then neg eperm
        else get_ban (record k { current = find_task_by_vpid pid }) ban)
unfolding check_ban get_ban
check_ban-get_ban find k pid ban = ground arith
