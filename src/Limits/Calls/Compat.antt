-- ===== src/Limits/Calls/Compat.antt =====
-- What `getrlimit` of hw02-linux-syscall-ban/kernel/sys.c reads after `setrlimit`.
use operating_systems_course.Prelude.{
  ℕ, ◌≤◌, ◌≡◌, refl, Bool, true, false, not, ◌&&◌, none, some, ◌==◌, leb, ltb, if◌then◌else◌, ℤ,
  pos, neg, arith, ap, ◌∙◌, inl, inr, Bool-cases, eqb→eq, eq→eqb, esrch, einval, eperm,
}
use operating_systems_course.Limits.{
  Limit, Process, Env, Result, done, refused, is_zero, adjusted, set_limit, change_limit,
  do_prlimit,
}
use operating_systems_course.Limits.Calls.{
  setrlimit, settled, shown, getrlimit, compat_infinity, widen, narrow, compat_setrlimit,
  compat_getrlimit,
}

-- The limit that a task has once one is set: for the CPU time, a soft limit of 0 becomes 1.
abbrev pub stored : Env → ℕ → Limit → Limit
stored env resource n = record {
  rlim_cur = if resource == env.cpu && n.rlim_cur == 0 then 1 else n.rlim_cur;
  rlim_max = n.rlim_max;
}

adjusted-stored :
    (env : Env) (resource : ℕ) (n : Limit) → adjusted env resource n ≡ stored env resource n
adjusted-stored env resource n = elim (Bool-cases (resource == env.cpu && n.rlim_cur == 0)) [
  | inl zero_time ↦ rw zero_time refl
  | inr other ↦ rw other refl
]

-- How `do_prlimit` with a new limit ends.
data Ending (env : Env) (p : Process) (resource : ℕ) (n : Limit) : Result → Type 0 where
  failed : (error : ℤ) → is_zero error ≡ false → Ending env p resource n (refused error)
  changed :
      leb env.nlimits resource ≡ false
      → p.has_sighand ≡ true
      → Ending env p resource n
          (done (p.limits resource) (set_limit p resource (adjusted env resource n)))

module _ (env : Env) (p : Process) (resource : ℕ) (n : Limit) where
  if_failed :
      (b : Bool) (error : ℤ) (rest : Result)
      → (b ≡ true → is_zero error ≡ false)
      → (b ≡ false → Ending env p resource n rest)
      → Ending env p resource n (if b then refused error else rest)
  if_failed true error rest bad next = failed error (bad refl)
  if_failed false error rest bad next = next refl

  do_prlimit-Ending : Ending env p resource n (do_prlimit env p resource (some n))
  unfolding do_prlimit change_limit
  do_prlimit-Ending =
      if_failed (leb env.nlimits resource) (neg einval) _ (λ b. refl)
        λ known.
          if_failed (ltb n.rlim_max n.rlim_cur) (neg einval) _ (λ b. refl)
            λ sound.
              if_failed (resource == env.nofile && ltb env.nr_open n.rlim_max) (neg eperm) _
                (λ b. refl)
                λ open_files.
                  if_failed (not p.has_sighand) (neg esrch) _ (λ b. refl)
                    λ alive.
                      if_failed (ltb (p.limits resource).rlim_max n.rlim_max && not env.capable)
                        (neg eperm) _ (λ b. refl)
                        λ low.
                          if_failed (not (is_zero (env.security resource n)))
                            (env.security resource n) _ (λ b. ground arith)
                            λ agreed. changed known (ground arith)

  -- What is read behind a limit that was set.
  read_set :
      leb env.nlimits resource ≡ false
      → p.has_sighand ≡ true
      → do_prlimit env (set_limit p resource (adjusted env resource n)) resource none
        ≡ done (adjusted env resource n) (set_limit p resource (adjusted env resource n))
  unfolding do_prlimit
  read_set known alive = rw (known, alive, eq→eqb resource resource refl) refl

  read_back :
      (r : Result) (p' : Process)
      → Ending env p resource n r
      → settled p r ≡ (pos 0, p')
      → do_prlimit env p' resource none ≡ done (adjusted env resource n) p'
  unfolding settled
  read_back _ p' (failed error bad) q =
      let e : error ≡ pos 0 = ap (λ x. x.0) q in absurd (cc (rw e at bad))
  read_back _ p' (changed known alive) q =
      let e : set_limit p resource (adjusted env resource n) ≡ p' = ap (λ x. x.1) q in
      rw (← e) (read_set known alive)

-- After a `setrlimit` that succeeds, `getrlimit` returns 0 and the limit that was set; where the soft
-- limit on CPU time was set to 0, it returns 1 for it.
pub getrlimit-setrlimit :
    (env : Env) (p p' : Process) (resource : ℕ) (n : Limit)
    → setrlimit env p resource (some n) ≡ (pos 0, p')
    → getrlimit env p' resource true ≡ (pos 0, some (stored env resource n))
unfolding setrlimit getrlimit shown
getrlimit-setrlimit env p p' resource n e =
    ap (shown (λ l. l) true) (
      read_back env p resource n (do_prlimit env p resource (some n)) p'
        (do_prlimit-Ending env p resource n) e)
    ∙ ap (λ l. (pos 0, some l)) (adjusted-stored env resource n)

abbrev wide : Limit → Limit
wide n = record { rlim_cur = widen n.rlim_cur; rlim_max = widen n.rlim_max }

abbrev narrowed : Limit → Limit
narrowed n = record { rlim_cur = narrow n.rlim_cur; rlim_max = narrow n.rlim_max }

narrow-widen : (w : ℕ) → w ≤ compat_infinity → narrow (widen w) ≡ w
narrow-widen w le = elim (Bool-cases (w == compat_infinity)) [
  | inl here ↦ rw here (ground arith)
  | inr there ↦ rw there (ground arith)
]

widen_zero : (w : ℕ) → widen w == 0 ≡ w == 0
widen_zero w = elim (Bool-cases (w == compat_infinity)) [
  | inl here ↦ rw (here, eqb→eq w compat_infinity here) refl
  | inr there ↦ rw there refl
]

narrowed-wide :
    (env : Env) (resource : ℕ) (n : Limit)
    → n.rlim_cur ≤ compat_infinity
    → n.rlim_max ≤ compat_infinity
    → narrowed (adjusted env resource (wide n)) ≡ adjusted env resource n
narrowed-wide env resource n cur max =
    let low = narrow-widen n.rlim_cur cur in
    let high = narrow-widen n.rlim_max max in
    elim (Bool-cases (resource == env.cpu && n.rlim_cur == 0)) [
      | inl zero_time ↦
          rw (widen_zero n.rlim_cur, zero_time)
            (ap (λ m. record { rlim_cur = 1; rlim_max = m }) high)
      | inr other ↦
          rw (widen_zero n.rlim_cur, other)
            (ap (λ c. record { rlim_cur = c; rlim_max = narrow (widen n.rlim_max) }) low
              ∙ ap (λ m. record { rlim_cur = n.rlim_cur; rlim_max = m }) high)
    ]

-- The same of the calls for 32 bits, where both parts of the limit have 32 bits.
pub compat_getrlimit-compat_setrlimit :
    (env : Env) (p p' : Process) (resource : ℕ) (n : Limit)
    → n.rlim_cur ≤ compat_infinity
    → n.rlim_max ≤ compat_infinity
    → compat_setrlimit env p resource (some n) ≡ (pos 0, p')
    → compat_getrlimit env p' resource true ≡ (pos 0, some (stored env resource n))
unfolding compat_setrlimit compat_getrlimit shown
compat_getrlimit-compat_setrlimit env p p' resource n cur max e =
    ap (shown narrowed true) (
      read_back env p resource (wide n) (do_prlimit env p resource (some (wide n))) p'
        (do_prlimit-Ending env p resource (wide n)) e)
    ∙ ap (λ l. (pos 0, some l))
        (narrowed-wide env resource n cur max ∙ adjusted-stored env resource n)
