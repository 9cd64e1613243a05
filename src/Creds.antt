-- ===== src/Creds.antt =====
-- The calls that change user and group ids: hw02-linux-syscall-ban/kernel/sys.c.
--
-- What these calls ask of the rest of the kernel is a record of parameters, `World`. A call ends in
-- `commit_creds(new)` with the new credentials, or in an error and the old ones.
mod Run
mod Tests
use operating_systems_course.Prelude.{
  ℕ, ◌-◌, ◌^◌, Bool, true, false, not, ◌&&◌, ◌||◌, Option, none, some, ◌==◌, leb, if◌then◌else◌, ℤ,
  pos, neg, is_neg, eperm, einval, enomem, eagain, List, [], ◌∷◌,
}

-- Four ids of a kind: `uid`, `euid`, `suid`, `fsuid`, or the same of groups.
pub record Ids : Type 0 where
  pub real : ℕ
  pub effective : ℕ
  pub saved : ℕ
  pub fs : ℕ

-- `struct user_struct`, and whether it is `INIT_USER`
pub record User : Type 0 where
  pub processes : ℕ
  pub is_init : Bool

-- `struct cred`
pub record Cred : Type 0 where
  pub uids : Ids
  pub gids : Ids
  pub user : User

-- What the calls use of the kernel: the id maps of the caller's namespace, the tests of an id's
-- validity, `ns_capable` for CAP_SETUID and CAP_SETGID, whether `prepare_creds` finds memory,
-- `alloc_uid`, the limit RLIMIT_NPROC, and the security hook.
pub record World : Type 0 where
  pub make_kuid : ℕ → ℕ
  pub make_kgid : ℕ → ℕ
  pub from_kuid_munged : ℕ → ℕ
  pub from_kgid_munged : ℕ → ℕ
  pub uid_valid : ℕ → Bool
  pub gid_valid : ℕ → Bool
  pub setuid_capable : Cred → Bool
  pub setgid_capable : Cred → Bool
  pub prepare_creds : Cred → Bool
  pub alloc_uid : ℕ → Option User
  pub rlimit_nproc : ℕ
  pub security_task_fix_setuid : Cred → Cred → ℤ

-- `(uid_t) -1`: the argument that leaves an id alone
abbrev pub no_id : ℕ
no_id = 2 ^ 32 - 1

-- How a call ends; `flag` is PF_NPROC_EXCEEDED of the caller.
pub data Ending : Type 0 where
  commits : (new : Cred) → (flag : Bool) → Ending
  fails : (error : ℤ) → (flag : Bool) → Ending

-- `(id != (uid_t) -1) && !valid(k)`
abbrev pub is_invalid : (ℕ → Bool) → ℕ → ℕ → Bool
is_invalid valid id k = not (id == no_id) && not (valid k)

-- `if (id != (uid_t) -1) x = k;`
abbrev pub chosen : ℕ → ℕ → ℕ → ℕ
chosen id k x = if id == no_id then x else k

-- Whether `id` may become `k` for a caller that has it as its real, effective or saved id.
abbrev pub may_take : Bool → Ids → ℕ → ℕ → Bool
may_take capable old id k =
    id == no_id || (k == old.real || (k == old.effective || (k == old.saved || capable)))

-- As `may_take`, for the real id of `setreuid` and `setregid`: the saved id does not count.
abbrev pub may_take_real : Bool → Ids → ℕ → ℕ → Bool
may_take_real capable old id k = id == no_id || (k == old.real || (k == old.effective || capable))

-- What `set_user` does to the caller's flag.
pub exceeds : World → User → Bool
exceeds w u = leb w.rlimit_nproc u.processes && not u.is_init

-- The end of the calls that set user ids, from `set_user` on: it runs if the real uid changes.
pub fix_and_commit : World → (old new : Cred) → (flag : Bool) → Ending
fix_and_commit w old new flag =
    if is_neg (w.security_task_fix_setuid new old)
    then fails (w.security_task_fix_setuid new old) flag
    else commits new flag

-- `set_user(new)` if the real uid is no longer `old`'s, and then `rest`
pub with_user : World → (old new : Cred) → (flag : Bool) → (rest : Cred → Bool → Ending) → Ending
unfolding exceeds
with_user w old new flag rest =
    if new.uids.real == old.uids.real then rest new flag else elim (w.alloc_uid new.uids.real) [
      | none ↦ fails (neg eagain) flag
      | some u ↦ rest (record new { user = u }) (exceeds w u)
    ]

-- The ids that `setreuid` and `setregid` leave: the saved id follows the effective one where the real
-- id is given, or the effective one is given and is not the old real id.
pub reids : Ids → (rid krid eid keid : ℕ) → Ids
reids old rid krid eid keid = record {
  real = chosen rid krid old.real;
  effective = chosen eid keid old.effective;
  saved =
      if not (rid == no_id) || (not (eid == no_id) && not (keid == old.real))
      then chosen eid keid old.effective
      else old.saved;
  fs = chosen eid keid old.effective;
}

pub resids : Ids → (rid krid eid keid sid ksid : ℕ) → Ids
resids old rid krid eid keid sid ksid = record {
  real = chosen rid krid old.real;
  effective = chosen eid keid old.effective;
  saved = chosen sid ksid old.saved;
  fs = chosen eid keid old.effective;
}

pub setreuid : World → Cred → Bool → (ruid euid : ℕ) → Ending
unfolding with_user fix_and_commit reids
setreuid w old flag ruid euid =
    let kruid = w.make_kuid ruid in
    let keuid = w.make_kuid euid in
    let capable = w.setuid_capable old in
    if is_invalid w.uid_valid ruid kruid || is_invalid w.uid_valid euid keuid
    then fails (neg einval) flag
    else if not (w.prepare_creds old)
    then fails (neg enomem) flag
    else if not (may_take_real capable old.uids ruid kruid && may_take capable old.uids euid keuid)
    then fails (neg eperm) flag
    else with_user w old (record old { uids = reids old.uids ruid kruid euid keuid }) flag
        (fix_and_commit w old)

pub setuid : World → Cred → Bool → (uid : ℕ) → Ending
unfolding with_user fix_and_commit
setuid w old flag uid =
    let kuid = w.make_kuid uid in
    if not (w.uid_valid kuid)
    then fails (neg einval) flag
    else if not (w.prepare_creds old)
    then fails (neg enomem) flag
    else if w.setuid_capable old
    then with_user w old
        (record old { uids = record { real = kuid; effective = kuid; saved = kuid; fs = kuid } })
        flag (fix_and_commit w old)
    else if not (kuid == old.uids.real) && not (kuid == old.uids.saved)
    then fails (neg eperm) flag
    else fix_and_commit w old
        (record old { uids = record (old.uids) { effective = kuid; fs = kuid } }) flag

pub setresuid : World → Cred → Bool → (ruid euid suid : ℕ) → Ending
unfolding with_user fix_and_commit resids
setresuid w old flag ruid euid suid =
    let kruid = w.make_kuid ruid in
    let keuid = w.make_kuid euid in
    let ksuid = w.make_kuid suid in
    let capable = w.setuid_capable old in
    if is_invalid w.uid_valid ruid kruid
      || (is_invalid w.uid_valid euid keuid || is_invalid w.uid_valid suid ksuid)
    then fails (neg einval) flag
    else if not (w.prepare_creds old)
    then fails (neg enomem) flag
    else if not (
        may_take capable old.uids ruid kruid
        && (may_take capable old.uids euid keuid && may_take capable old.uids suid ksuid))
    then fails (neg eperm) flag
    else with_user w old (record old { uids = resids old.uids ruid kruid euid keuid suid ksuid })
        flag (fix_and_commit w old)

pub setregid : World → Cred → Bool → (rgid egid : ℕ) → Ending
unfolding reids
setregid w old flag rgid egid =
    let krgid = w.make_kgid rgid in
    let kegid = w.make_kgid egid in
    let capable = w.setgid_capable old in
    if is_invalid w.gid_valid rgid krgid || is_invalid w.gid_valid egid kegid
    then fails (neg einval) flag
    else if not (w.prepare_creds old)
    then fails (neg enomem) flag
    else if not (may_take_real capable old.gids rgid krgid && may_take capable old.gids egid kegid)
    then fails (neg eperm) flag
    else commits (record old { gids = reids old.gids rgid krgid egid kegid }) flag

pub setgid : World → Cred → Bool → (gid : ℕ) → Ending
setgid w old flag gid =
    let kgid = w.make_kgid gid in
    if not (w.gid_valid kgid)
    then fails (neg einval) flag
    else if not (w.prepare_creds old)
    then fails (neg enomem) flag
    else if w.setgid_capable old
    then commits
        (record old { gids = record { real = kgid; effective = kgid; saved = kgid; fs = kgid } })
        flag
    else if kgid == old.gids.real || kgid == old.gids.saved
    then commits (record old { gids = record (old.gids) { effective = kgid; fs = kgid } }) flag
    else fails (neg eperm) flag

pub setresgid : World → Cred → Bool → (rgid egid sgid : ℕ) → Ending
unfolding resids
setresgid w old flag rgid egid sgid =
    let krgid = w.make_kgid rgid in
    let kegid = w.make_kgid egid in
    let ksgid = w.make_kgid sgid in
    let capable = w.setgid_capable old in
    if is_invalid w.gid_valid rgid krgid
      || (is_invalid w.gid_valid egid kegid || is_invalid w.gid_valid sgid ksgid)
    then fails (neg einval) flag
    else if not (w.prepare_creds old)
    then fails (neg enomem) flag
    else if not (
        may_take capable old.gids rgid krgid
        && (may_take capable old.gids egid kegid && may_take capable old.gids sgid ksgid))
    then fails (neg eperm) flag
    else commits (record old { gids = resids old.gids rgid krgid egid kegid sgid ksgid }) flag

abbrev is_zero : ℤ → Bool
is_zero (pos n) = n == 0
is_zero z = false

-- `id` is one of the four that its caller has, or the caller is capable.
abbrev pub may_take_fs : Bool → Ids → ℕ → Bool
may_take_fs capable old k =
    k == old.real || (k == old.effective || (k == old.saved || (k == old.fs || capable)))

-- `setfsuid` reports no error: its result is the old id, and the credentials change or stay.
pub setfsuid : World → Cred → (uid : ℕ) → Cred × ℕ
setfsuid w old uid =
    let kuid = w.make_kuid uid in
    let new = record old { uids = record (old.uids) { fs = kuid } } in
    let changes =
      w.uid_valid kuid
      && (w.prepare_creds old
          && (may_take_fs (w.setuid_capable old) old.uids kuid
              && (not (kuid == old.uids.fs) && is_zero (w.security_task_fix_setuid new old)))) in
    (if changes then new else old, w.from_kuid_munged old.uids.fs)

pub setfsgid : World → Cred → (gid : ℕ) → Cred × ℕ
setfsgid w old gid =
    let kgid = w.make_kgid gid in
    let changes =
      w.gid_valid kgid
      && (w.prepare_creds old
          && (may_take_fs (w.setgid_capable old) old.gids kgid && not (kgid == old.gids.fs))) in
    (
      if changes then record old { gids = record (old.gids) { fs = kgid } } else old,
      w.from_kgid_munged old.gids.fs,
    )

-- The two calls `getresuid` and `getresgid` on the ids `i`, with the map of the namespace. `put_user`
-- answers 0 or an error; the list holds the stores that it made, in order.
pub getresids :
    (from_munged : ℕ → ℕ) (put_user : ℕ → ℕ → ℤ) → Ids → (rp ep sp : ℕ) → ℤ × List (ℕ × ℕ)
getresids from_munged put_user i rp ep sp =
    let r = from_munged i.real in
    let e = from_munged i.effective in
    let s = from_munged i.saved in
    if not (is_zero (put_user r rp))
    then (put_user r rp, [])
    else if not (is_zero (put_user e ep))
    then (put_user e ep, (rp, r) ∷ [])
    else if not (is_zero (put_user s sp))
    then (put_user s sp, (rp, r) ∷ ((ep, e) ∷ []))
    else (put_user s sp, (rp, r) ∷ ((ep, e) ∷ ((sp, s) ∷ [])))

-- `getuid`, `geteuid`, `getgid`, `getegid`
pub getuid : World → Cred → ℕ
getuid w c = w.from_kuid_munged c.uids.real

pub geteuid : World → Cred → ℕ
geteuid w c = w.from_kuid_munged c.uids.effective

pub getgid : World → Cred → ℕ
getgid w c = w.from_kgid_munged c.gids.real

pub getegid : World → Cred → ℕ
getegid w c = w.from_kgid_munged c.gids.effective
