-- ===== src/Creds/Run/Swap.antt =====
-- A program can drop the privilege of its effective user id and take it back: `setreuid` of sys.c.
use operating_systems_course.Prelude.{
  ℕ, ◌≡◌, refl, Bool, true, false, not, ◌&&◌, ◌||◌, ◌==◌, arith, some, [], ◌∷◌, if◌then◌else◌,
  Bool-cases, inl, inr, is_neg, neg, einval, enomem, eperm, ap, ◌∙◌, sym, eq→eqb,
}
use operating_systems_course.Creds.{
  Ids, User, Cred, World, no_id, Ending, commits, fails, is_invalid, may_take, may_take_real,
  exceeds, fix_and_commit, with_user, reids, setreuid,
}
use operating_systems_course.Creds.Run.{setreuid_call, after, perform, run}

-- The kernel has memory, and its security hook does not object.
pub record Allows (w : World) : Type 0 where
  pub user_of : ℕ → User
  pub memory : (c : Cred) → w.prepare_creds c ≡ true
  pub users : (k : ℕ) → w.alloc_uid k ≡ some (user_of k)
  pub security : (new old : Cred) → is_neg (w.security_task_fix_setuid new old) ≡ false

-- The number `id` stands for the kernel's id `k`.
pub record Names (w : World) (id k : ℕ) : Type 0 where
  pub given : (id == no_id) ≡ false
  pub maps : w.make_kuid id ≡ k
  pub valid : w.uid_valid k ≡ true

Names-same : {w : World} {id k j : ℕ} → Names w id k → k ≡ j → Names w id j
Names-same n same = record { given = n.given; maps = n.maps ∙ same; valid = rw (← same) n.valid }

module _ (w : World) (allows : Allows w) where
  open allows use {user_of, memory, users, security}

  fix_and_commit-commits :
      (old new : Cred) (flag : Bool) → fix_and_commit w old new flag ≡ commits new flag
  unfolding fix_and_commit
  fix_and_commit-commits old new flag = rw (security new old) refl

  -- Whatever user the call finds, it commits the ids.
  data Leaves (ids : Ids) : Ending → Type 0 where
    leaves : {new : Cred} {flag : Bool} → new.uids ≡ ids → Leaves ids (commits new flag)

  with_user-Leaves :
      (old new : Cred) (flag : Bool)
      → Leaves new.uids (with_user w old new flag (fix_and_commit w old))
  unfolding with_user
  with_user-Leaves old new flag = elim (Bool-cases (new.uids.real == old.uids.real)) [
    | inl same ↦ rw (same, fix_and_commit-commits old new flag) (leaves refl)
    | inr other ↦
        rw
          (
            other,
            users new.uids.real,
            fix_and_commit-commits old (record new { user = user_of new.uids.real })
                (exceeds w (user_of new.uids.real)),
          )
          (leaves refl)
  ]

  pub swapped : Ids → Ids
  swapped i = record { real = i.effective; effective = i.real; saved = i.real; fs = i.real }

  may_swap :
      (cap : Bool) (i : Ids)
      → ((i.effective == i.real || (i.effective == i.effective || cap))
          && (i.real == i.real || (i.real == i.effective || (i.real == i.saved || cap))))
        ≡ true
  may_swap cap i = ground (arith, eq→eqb i.effective i.effective refl, eq→eqb i.real i.real refl)

  Leaves-tests :
      (invalid memory refuse flag : Bool) {ids : Ids} (rest : Ending)
      → invalid ≡ false
      → memory ≡ true
      → refuse ≡ false
      → Leaves ids rest
      → Leaves ids (
          if invalid
          then fails (neg einval) flag
          else if not memory
          then fails (neg enomem) flag
          else if refuse
          then fails (neg eperm) flag
          else rest)
  Leaves-tests invalid memory refuse flag rest i m r l = rw (i, m, r) l

  Leaves-same : {i j : Ids} (end : Ending) → Leaves i end → i ≡ j → Leaves j end
  Leaves-same (commits new flag) (leaves e) same = leaves (e ∙ same)
  Leaves-same (fails error flag) l same = elim l [ ]

  module _ (c : Cred) (flag : Bool) (r e : ℕ) (nr : Names w r c.uids.effective)
      (ne : Names w e c.uids.real) where
    reids-swapped : reids c.uids r (w.make_kuid r) e (w.make_kuid e) ≡ swapped c.uids
    unfolding reids swapped
    reids-swapped = rw (nr.given, ne.given, nr.maps, ne.maps) refl

    valid_ids :
        (is_invalid w.uid_valid r (w.make_kuid r) || is_invalid w.uid_valid e (w.make_kuid e))
        ≡ false
    valid_ids = rw (nr.given, ne.given, nr.maps, ne.maps, nr.valid, ne.valid) refl

    not_refused :
        not (
          may_take_real (w.setuid_capable c) c.uids r (w.make_kuid r)
          && may_take (w.setuid_capable c) c.uids e (w.make_kuid e))
        ≡ false
    not_refused =
        rw (nr.given, ne.given, nr.maps, ne.maps, may_swap (w.setuid_capable c) c.uids) refl

    setreuid-Leaves : Leaves (swapped c.uids) (setreuid w c flag r e)
    unfolding setreuid
    setreuid-Leaves =
        let new = record c { uids = reids c.uids r (w.make_kuid r) e (w.make_kuid e) } in
        Leaves-tests
          (is_invalid w.uid_valid r (w.make_kuid r) || is_invalid w.uid_valid e (w.make_kuid e))
          (w.prepare_creds c)
          (not (
            may_take_real (w.setuid_capable c) c.uids r (w.make_kuid r)
            && may_take (w.setuid_capable c) c.uids e (w.make_kuid e)))
          flag (with_user w c new flag (fix_and_commit w c)) valid_ids (memory c) not_refused
          (Leaves-same _ (with_user-Leaves c new flag) reids-swapped)

  Leaves-after : (ids : Ids) (c : Cred) (end : Ending) → Leaves ids end → (after end c).0.uids ≡ ids
  Leaves-after ids c (commits new flag) (leaves e) = e
  Leaves-after ids c (fails error flag) l = elim l [ ]

  perform-swapped :
      (c : Cred) (flag : Bool) (r e : ℕ)
      → Names w r c.uids.effective
      → Names w e c.uids.real
      → (perform w (setreuid_call r e) c flag).0.uids ≡ swapped c.uids
  unfolding perform
  perform-swapped c flag r e nr ne =
      Leaves-after (swapped c.uids) c (setreuid w c flag r e) (setreuid-Leaves c flag r e nr ne)

  -- Where the kernel has memory and its security hook does not object, a process that names its real
  -- and its effective user id can swap the two by `setreuid`, with or without the capability, and by
  -- a second call swap them back; its saved id is then the effective one.
  pub run-setreuid_twice :
      (c : Cred) (flag : Bool) (real effective : ℕ)
      → Names w real c.uids.real
      → Names w effective c.uids.effective
      → ((run w (setreuid_call effective real ∷ []) c flag).0.uids ≡ record {
        real = c.uids.effective;
        effective = c.uids.real;
        saved = c.uids.real;
        fs = c.uids.real;
      })
        × ((run w
              (setreuid_call effective real ∷ (setreuid_call real effective ∷ []))
              c
              flag).0.uids
            ≡ record {
              real = c.uids.real;
              effective = c.uids.effective;
              saved = c.uids.effective;
              fs = c.uids.effective;
            })
  unfolding run swapped
  run-setreuid_twice c flag real effective nr ne =
      let once = perform-swapped c flag effective real ne nr in
      let (c', flag') = perform w (setreuid_call effective real) c flag in
      (
        once,
        perform-swapped c' flag' real effective (Names-same nr (sym (ap (λ i. i.effective) once)))
              (Names-same ne (sym (ap (λ i. i.real) once)))
            ∙ ap swapped once,
      )
