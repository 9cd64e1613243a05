-- ===== src/Limits/Bound.antt =====
-- A caller without CAP_SYS_RESOURCE cannot raise a hard limit, and soft limits stay below hard ones.
use operating_systems_course.Prelude.{
  ℕ, ◌≤◌, ◌≡◌, refl, Bool, true, false, not, ◌&&◌, Option, none, some, List, [], ◌∷◌, ◌==◌, leb,
  ltb, if◌then◌else◌, ℤ, arith, ◌⊎◌, inl, inr, Bool-cases, neg, eperm, esrch, einval, eqb→eq,
}
use operating_systems_course.Limits.{
  Limit, Process, Env, Result, refused, is_zero, adjusted, set_limit, change_limit, do_prlimit,
  after, run,
}

-- The soft limit is at most the hard one; or it is the one second that stands for no CPU time.
abbrev pub IsLimit : Env → ℕ → Limit → Type 0
IsLimit env resource l = (l.rlim_cur ≤ l.rlim_max) ⊎ ((resource ≡ env.cpu) × (l.rlim_cur ≡ 1))

-- How the limits of a task may have changed.
pub record Bounded (env : Env) (p p' : Process) : Type 0 where
  pub hard : (r : ℕ) → (p'.limits r).rlim_max ≤ (p.limits r).rlim_max
  pub soft : (r : ℕ) → IsLimit env r (p.limits r) → IsLimit env r (p'.limits r)

module _ (env : Env) (weak : env.capable ≡ false) where
  pub same-Bounded : (p : Process) → Bounded env p p
  same-Bounded p = record { hard = λ r. omega arith; soft = λ r h. h }

  adjusted-rlim_max : (resource : ℕ) (n : Limit) → (adjusted env resource n).rlim_max ≡ n.rlim_max
  adjusted-rlim_max resource n = elim (Bool-cases (resource == env.cpu && n.rlim_cur == 0)) [
    | inl zero_time ↦ rw zero_time refl
    | inr other ↦ rw other refl
  ]

  adjusted-IsLimit :
      (resource : ℕ) (n : Limit)
      → n.rlim_cur ≤ n.rlim_max
      → IsLimit env resource (adjusted env resource n)
  adjusted-IsLimit resource n sound = elim (Bool-cases (resource == env.cpu && n.rlim_cur == 0)) [
    | inl zero_time ↦ rw zero_time (inr (ground arith, refl))
    | inr other ↦ rw other (inl sound)
  ]

  set_limit-Bounded :
      (p : Process) (resource : ℕ) (n : Limit)
      → n.rlim_cur ≤ n.rlim_max
      → n.rlim_max ≤ (p.limits resource).rlim_max
      → Bounded env p (set_limit p resource (adjusted env resource n))
  set_limit-Bounded p resource n sound low = record {
    hard = λ r. elim (Bool-cases (r == resource)) [
      | inl here ↦ rw (here, eqb→eq r resource here) (omega (arith, adjusted-rlim_max resource n))
      | inr there ↦ rw there (omega arith)
    ];
    soft = λ r h. elim (Bool-cases (r == resource)) [
      | inl here ↦ rw (here, eqb→eq r resource here) (adjusted-IsLimit resource n sound)
      | inr there ↦ rw there h
    ];
  }

  if_refused :
      (p : Process) (b : Bool) (error : ℤ) (rest : Result)
      → (b ≡ false → Bounded env p (after p rest))
      → Bounded env p (after p (if b then refused error else rest))
  if_refused p true error rest next = same-Bounded p
  if_refused p false error rest next = next refl

  change_limit-Bounded :
      (p : Process) (resource : ℕ) (n : Limit)
      → n.rlim_cur ≤ n.rlim_max
      → Bounded env p (after p (change_limit env p resource n))
  unfolding change_limit
  change_limit-Bounded p resource n sound = if_refused p (not p.has_sighand) (neg esrch) _ λ alive.
      if_refused p (ltb (p.limits resource).rlim_max n.rlim_max && not env.capable) (neg eperm) _
        λ low.
          if_refused p (not (is_zero (env.security resource n))) (env.security resource n) _
            λ agreed. set_limit-Bounded p resource n sound (ground arith)

  pub do_prlimit-Bounded :
      (p : Process) (resource : ℕ) (new : Option Limit)
      → Bounded env p (after p (do_prlimit env p resource new))
  unfolding do_prlimit
  do_prlimit-Bounded p resource none =
      if_refused p (leb env.nlimits resource) (neg einval) _
        λ known. if_refused p (not p.has_sighand) (neg esrch) _ λ alive. same-Bounded p
  do_prlimit-Bounded p resource (some n) =
      if_refused p (leb env.nlimits resource) (neg einval) _ λ known.
        if_refused p (ltb n.rlim_max n.rlim_cur) (neg einval) _ λ sound.
          if_refused p (resource == env.nofile && ltb env.nr_open n.rlim_max) (neg eperm) _
            λ open_files. change_limit-Bounded p resource n (ground arith)

  -- For a caller without CAP_SYS_RESOURCE, no sequence of calls on a task raises a hard limit, and a
  -- soft limit that is at most the hard one stays so, but for the limit on CPU time, whose soft limit
  -- may be 1 over a hard limit of 0.
  pub run-Bounded :
      (calls : List (ℕ × Option Limit)) (p : Process) → Bounded env p (run env calls p)
  unfolding run
  run-Bounded [] p = same-Bounded p
  run-Bounded ((resource, new) ∷ rest) p =
      let first = do_prlimit-Bounded p resource new in
      let others = run-Bounded rest (after p (do_prlimit env p resource new)) in
      record {
        hard = λ r. omega (arith, first.hard r, others.hard r);
        soft = λ r h. others.soft r (first.soft r h);
      }
