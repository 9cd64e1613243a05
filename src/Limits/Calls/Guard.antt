-- ===== src/Limits/Calls/Guard.antt =====
-- Whose limits `prlimit64` of hw02-linux-syscall-ban/kernel/sys.c changes.
use operating_systems_course.Prelude.{
  ◌⊎◌, ℕ, ◌≡◌, refl, Bool, true, false, Option, none, some, List, [], ◌∷◌, ◌==◌, if◌then◌else◌,
  arith, ap, sym, ◌∙◌, inl, inr, Bool-cases, eqb→eq,
}
use operating_systems_course.Limits.{
  Limit, Process, Result, done, refused, is_zero, do_prlimit, after,
}
use operating_systems_course.Limits.Bound.{Bounded, do_prlimit-Bounded}
use operating_systems_course.Limits.Calls.{
  Subject, Ids, Caller, id_match, check_prlimit_permission, set_task, finished, limit_task,
  check_flags, is_given, prlimit64, rlim64_to_rlim,
}

-- A call of `prlimit64`.
pub record Request : Type 0 where
  pub pid : ℕ
  pub resource : ℕ
  pub new : Option (Option Limit)
  pub old : Option Bool

pub run : Caller → List Request → (ℕ → Option Subject) → ℕ → Option Subject
run s [] tasks = tasks
run s (r ∷ rest) tasks = run s rest (prlimit64 s tasks r.pid r.resource r.new r.old).tasks

-- The caller itself, or a task all of whose ids are the caller's real ones.
pub record IsReal (cred ids : Ids) : Type 0 where
  pub euid : ids.euid ≡ cred.uid
  pub suid : ids.suid ≡ cred.uid
  pub uid : ids.uid ≡ cred.uid
  pub egid : ids.egid ≡ cred.gid
  pub sgid : ids.sgid ≡ cred.gid
  pub gid : ids.gid ≡ cred.gid

abbrev pub IsOwn : Caller → ℕ → Ids → Type 0
IsOwn s pid ids = (s.current ≡ pid) ⊎ IsReal s.cred ids

-- What may become of a task: nothing, or, if it is the caller's own, changed limits within bounds.
pub data Guarded (s : Caller) (pid : ℕ) (t : Subject) : Subject → Type 0 where
  untouched : Guarded s pid t t
  limited :
      (t' : Subject)
      → IsOwn s pid t.ids
      → t'.ids ≡ t.ids
      → Bounded (s.env pid) t.process t'.process
      → Guarded s pid t t'

module _ (s : Caller) (weak : (pid : ℕ) → (s.env pid).capable ≡ false)
    (outside : (pid : ℕ) → s.ns_capable pid ≡ false) where
  Guarded-twice :
      (pid : ℕ) (t t' t'' : Subject)
      → Guarded s pid t t'
      → Guarded s pid t' t''
      → Guarded s pid t t''
  Guarded-twice pid t _ t'' untouched h = h
  Guarded-twice pid t t' _ (limited _ own ids b) untouched = limited t' own ids b
  Guarded-twice pid t t' t'' (limited _ own ids b) (limited _ own' ids' b') =
      limited t'' own (ids' ∙ ids) (record {
        hard = λ r. omega (arith, b.hard r, b'.hard r);
        soft = λ r h. b'.soft r (b.soft r h);
      })

  -- How the table may change.
  abbrev Preserved : (ℕ → Option Subject) → (ℕ → Option Subject) → Type 0
  Preserved tasks tasks' =
      (pid : ℕ) (t : Subject)
      → tasks pid ≡ some t
      → (t' : Subject) × (tasks' pid ≡ some t') × Guarded s pid t t'

  same-Preserved : (tasks : ℕ → Option Subject) → Preserved tasks tasks
  same-Preserved tasks pid t e = (t, e, untouched)

  permitted :
      (pid flags : ℕ) (ids : Ids)
      → is_zero (check_prlimit_permission s pid ids flags) ≡ true
      → IsOwn s pid ids
  unfolding check_prlimit_permission
  permitted pid flags ids e = elim (Bool-cases (s.current == pid)) [
    | inl own ↦ inl (eqb→eq s.current pid own)
    | inr other ↦ elim (Bool-cases (id_match s.cred ids)) [
      | inl match ↦ inr (record {
        euid = ground arith;
        suid = ground arith;
        uid = ground arith;
        egid = ground arith;
        sgid = ground arith;
        gid = ground arith;
      })
      | inr differ ↦ absurd (cc (rw (other, differ, outside pid) at e))
    ]
  ]

  set_task-Preserved :
      (tasks : ℕ → Option Subject) (pid : ℕ) (t : Subject) (p : Process)
      → tasks pid ≡ some t
      → IsOwn s pid t.ids
      → Bounded (s.env pid) t.process p
      → Preserved tasks (set_task tasks pid (record t { process = p }))
  unfolding set_task
  set_task-Preserved tasks pid t p at_pid own b q u e = elim (Bool-cases (q == pid)) [
    | inr other ↦ (u, rw other e, untouched)
    | inl here ↦
        let same_pid = eqb→eq q pid here in
        let same_task : some t ≡ some u = sym at_pid ∙ sym (ap tasks same_pid) ∙ e in
        let same_subject : t ≡ u = cc in
        (
          record t { process = p },
          rw here refl,
          rw (same_pid, ← same_subject) (limited (record t { process = p }) own refl b),
        )
  ]

  finished-Preserved :
      (tasks : ℕ → Option Subject) (pid : ℕ) (t : Subject) (old : Option Bool) (r : Result)
      → tasks pid ≡ some t
      → IsOwn s pid t.ids
      → Bounded (s.env pid) t.process (after t.process r)
      → Preserved tasks (finished tasks pid t old r).tasks
  unfolding finished
  finished-Preserved tasks pid t old (refused error) at_pid own b = same-Preserved tasks
  finished-Preserved tasks pid t none (done limit p) at_pid own b =
      set_task-Preserved tasks pid t p at_pid own b
  finished-Preserved tasks pid t (some true) (done limit p) at_pid own b =
      set_task-Preserved tasks pid t p at_pid own b
  finished-Preserved tasks pid t (some false) (done limit p) at_pid own b =
      set_task-Preserved tasks pid t p at_pid own b

  limit_task-Preserved :
      (tasks : ℕ → Option Subject) (pid resource flags : ℕ) (new : Option Limit) (old : Option Bool)
      (o : Option Subject)
      → tasks pid ≡ o
      → Preserved tasks (limit_task s tasks pid resource flags new old o).tasks
  unfolding limit_task
  limit_task-Preserved tasks pid resource flags new old none at_pid = same-Preserved tasks
  limit_task-Preserved tasks pid resource flags new old (some t) at_pid =
      elim (Bool-cases (is_zero (check_prlimit_permission s pid t.ids flags))) [
        | inr refusal ↦ rw refusal (same-Preserved tasks)
        | inl allowed ↦ rw allowed (
            finished-Preserved tasks pid t old (do_prlimit (s.env pid) t.process resource new)
              at_pid (permitted pid flags t.ids allowed)
              (do_prlimit-Bounded (s.env pid) (weak pid) t.process resource new))
      ]

  prlimit64-Preserved :
      (tasks : ℕ → Option Subject) (r : Request)
      → Preserved tasks (prlimit64 s tasks r.pid r.resource r.new r.old).tasks
  unfolding prlimit64
  prlimit64-Preserved tasks r =
      elim r.new as (λ n. Preserved tasks (prlimit64 s tasks r.pid r.resource n r.old).tasks) [
        | none ↦
            limit_task-Preserved tasks (target r.pid) r.resource
              (check_flags false (is_given r.old)) none r.old (tasks (target r.pid)) refl
        | some none ↦ same-Preserved tasks
        | some (some n) ↦
            limit_task-Preserved tasks (target r.pid) r.resource (check_flags true (is_given r.old))
              (some (rlim64_to_rlim n)) r.old (tasks (target r.pid)) refl
      ]
    where
      target : ℕ → ℕ
      target pid = if pid == 0 then s.current else pid

  -- For a caller without CAP_SYS_RESOURCE, in no name space, no sequence of calls of `prlimit64`
  -- removes a task, changes the ids of one, or the limits of a task that is not the caller itself and
  -- has an id other than the real ones of the caller. No hard limit of another is raised, and its soft
  -- limits that are at most the hard ones stay so, but for 1 second of CPU time over a hard limit of 0.
  pub run-Guarded :
      (rest : List Request) (tasks : ℕ → Option Subject) (pid : ℕ) (t : Subject)
      → tasks pid ≡ some t
      → (t' : Subject) × (run s rest tasks pid ≡ some t') × Guarded s pid t t'
  unfolding run
  run-Guarded [] tasks pid t e = (t, e, untouched)
  run-Guarded (r ∷ rest) tasks pid t e =
      let (t', e', g) = prlimit64-Preserved tasks r pid t e in
      let (t'', e'', g') =
        run-Guarded rest (prlimit64 s tasks r.pid r.resource r.new r.old).tasks pid t' e' in
      (t'', e'', Guarded-twice pid t t' t'' g g')
