-- ===== src/Creds/Run/Confine.antt =====
-- What a caller without the capabilities can make of its ids, over any sequence of calls.
use operating_systems_course.Prelude.{
  ℕ, ◌≡◌, refl, Bool, true, false, not, ◌&&◌, ◌||◌, ◌==◌, arith, none, some, List, [], ◌∷◌,
  if◌then◌else◌, Option, Bool-cases, inl, inr, is_neg, neg, eagain, einval, enomem, eperm, ℤ,
}
use operating_systems_course.Creds.Run.{
  Call, setreuid_call, setregid_call, setuid_call, setgid_call, setfsuid_call, setfsgid_call,
  setresuid_call, setresgid_call, after, perform, run,
}
use operating_systems_course.Creds.Run.Choice.{
  Among, unnot, reids-Among, resids-Among, fs-ok, own-ok,
}
use operating_systems_course.Creds.{
  User, Cred, World, Ending, commits, fails, is_invalid, may_take, may_take_real, may_take_fs,
  exceeds, fix_and_commit, with_user, reids, resids, setreuid, setuid, setresuid, setregid, setgid,
  setresgid, setfsuid, setfsgid,
}

module _ (uid_ok gid_ok : ℕ → Bool) where
  -- Every id of the process passes its test.
  pub record Confined (c : Cred) : Type 0 where
    pub user_ids : Among uid_ok c.uids
    pub group_ids : Among gid_ok c.gids

  -- A call that commits leaves such ids.
  data Keeps : Ending → Type 0 where
    committed : {new : Cred} {flag : Bool} → Confined new → Keeps (commits new flag)
    failed : {e : ℤ} {flag : Bool} → Keeps (fails e flag)

  module _ (w : World) (weak_u : (c : Cred) → w.setuid_capable c ≡ false)
      (weak_g : (c : Cred) → w.setgid_capable c ≡ false) (old : Cred) (flag : Bool)
      (h : Confined old) where
    -- The tests that all the calls begin with.
    tests-Keeps :
        (invalid memory refuse : Bool) (rest : Ending)
        → (refuse ≡ false → Keeps rest)
        → Keeps (
            if invalid
            then fails (neg einval) flag
            else if not memory
            then fails (neg enomem) flag
            else if refuse
            then fails (neg eperm) flag
            else rest)
    tests-Keeps true memory refuse rest next = failed
    tests-Keeps false false refuse rest next = failed
    tests-Keeps false true true rest next = failed
    tests-Keeps false true false rest next = next refl

    fix_and_commit-Keeps :
        (new : Cred) (flag' : Bool) → Confined new → Keeps (fix_and_commit w old new flag')
    unfolding fix_and_commit
    fix_and_commit-Keeps new flag' hn =
        elim (Bool-cases (is_neg (w.security_task_fix_setuid new old))) [
          | inl refused ↦ rw refused failed
          | inr fine ↦ rw fine (committed hn)
        ]

    user-Keeps :
        (new : Cred) (a : Option User)
        → Confined new
        → Keeps (elim a [
          | none ↦ fails (neg eagain) flag
          | some u ↦ fix_and_commit w old (record new { user = u }) (exceeds w u)
        ])
    user-Keeps new none hn = failed
    user-Keeps new (some u) hn =
        fix_and_commit-Keeps (record new { user = u }) (exceeds w u)
          (record { user_ids = hn.user_ids; group_ids = hn.group_ids })

    with_user-Keeps :
        (new : Cred) → Confined new → Keeps (with_user w old new flag (fix_and_commit w old))
    unfolding with_user
    with_user-Keeps new hn = elim (Bool-cases (new.uids.real == old.uids.real)) [
      | inl same ↦ rw same (fix_and_commit-Keeps new flag hn)
      | inr other ↦ rw other (user-Keeps new (w.alloc_uid new.uids.real) hn)
    ]

    setreuid-Keeps : (r e : ℕ) → Keeps (setreuid w old flag r e)
    unfolding setreuid
    setreuid-Keeps r e =
        tests-Keeps
          (is_invalid w.uid_valid r (w.make_kuid r) || is_invalid w.uid_valid e (w.make_kuid e))
          (w.prepare_creds old)
          (not (
            may_take_real (w.setuid_capable old) old.uids r (w.make_kuid r)
            && may_take (w.setuid_capable old) old.uids e (w.make_kuid e)))
          (with_user w old
            (record old { uids = reids old.uids r (w.make_kuid r) e (w.make_kuid e) }) flag
            (fix_and_commit w old))
          λ no_refusal.
            with_user-Keeps
              (record old { uids = reids old.uids r (w.make_kuid r) e (w.make_kuid e) })
              (record {
                user_ids =
                    reids-Among uid_ok old.uids h.user_ids r (w.make_kuid r) e (w.make_kuid e)
                      (unnot _ (rw (weak_u old) at no_refusal));
                group_ids = h.group_ids;
              })

    setresuid-Keeps : (r e s : ℕ) → Keeps (setresuid w old flag r e s)
    unfolding setresuid
    setresuid-Keeps r e s =
        tests-Keeps
          (is_invalid w.uid_valid r (w.make_kuid r)
            || (is_invalid w.uid_valid e (w.make_kuid e)
                || is_invalid w.uid_valid s (w.make_kuid s)))
          (w.prepare_creds old)
          (not (
            may_take (w.setuid_capable old) old.uids r (w.make_kuid r)
            && (may_take (w.setuid_capable old) old.uids e (w.make_kuid e)
                && may_take (w.setuid_capable old) old.uids s (w.make_kuid s))))
          (with_user w old
            (record old {
              uids = resids old.uids r (w.make_kuid r) e (w.make_kuid e) s (w.make_kuid s);
            })
            flag (fix_and_commit w old))
          λ no_refusal.
            with_user-Keeps
              (record old {
                uids = resids old.uids r (w.make_kuid r) e (w.make_kuid e) s (w.make_kuid s);
              })
              (record {
                user_ids =
                    resids-Among uid_ok old.uids h.user_ids r (w.make_kuid r) e (w.make_kuid e) s
                      (w.make_kuid s) (unnot _ (rw (weak_u old) at no_refusal));
                group_ids = h.group_ids;
              })

    setregid-Keeps : (r e : ℕ) → Keeps (setregid w old flag r e)
    unfolding setregid
    setregid-Keeps r e =
        tests-Keeps
          (is_invalid w.gid_valid r (w.make_kgid r) || is_invalid w.gid_valid e (w.make_kgid e))
          (w.prepare_creds old)
          (not (
            may_take_real (w.setgid_capable old) old.gids r (w.make_kgid r)
            && may_take (w.setgid_capable old) old.gids e (w.make_kgid e)))
          (commits (record old { gids = reids old.gids r (w.make_kgid r) e (w.make_kgid e) }) flag)
          λ no_refusal. committed (record {
            user_ids = h.user_ids;
            group_ids =
                reids-Among gid_ok old.gids h.group_ids r (w.make_kgid r) e (w.make_kgid e)
                  (unnot _ (rw (weak_g old) at no_refusal));
          })

    setresgid-Keeps : (r e s : ℕ) → Keeps (setresgid w old flag r e s)
    unfolding setresgid
    setresgid-Keeps r e s =
        tests-Keeps
          (is_invalid w.gid_valid r (w.make_kgid r)
            || (is_invalid w.gid_valid e (w.make_kgid e)
                || is_invalid w.gid_valid s (w.make_kgid s)))
          (w.prepare_creds old)
          (not (
            may_take (w.setgid_capable old) old.gids r (w.make_kgid r)
            && (may_take (w.setgid_capable old) old.gids e (w.make_kgid e)
                && may_take (w.setgid_capable old) old.gids s (w.make_kgid s))))
          (commits
            (record old {
              gids = resids old.gids r (w.make_kgid r) e (w.make_kgid e) s (w.make_kgid s);
            })
            flag)
          λ no_refusal. committed (record {
            user_ids = h.user_ids;
            group_ids =
                resids-Among gid_ok old.gids h.group_ids r (w.make_kgid r) e (w.make_kgid e) s
                  (w.make_kgid s) (unnot _ (rw (weak_g old) at no_refusal));
          })

    setuid-Keeps : (u : ℕ) → Keeps (setuid w old flag u)
    unfolding setuid
    setuid-Keeps u = rw (weak_u old) (
        let k = w.make_kuid u in
        tests-Keeps (not (w.uid_valid k)) (w.prepare_creds old)
          (not (k == old.uids.real) && not (k == old.uids.saved))
          (fix_and_commit w old (record old { uids = record (old.uids) { effective = k; fs = k } })
            flag)
          λ no_refusal.
            let ok = own-ok uid_ok old.uids h.user_ids k (ground (arith, no_refusal)) in
            fix_and_commit-Keeps _ flag
              (record { user_ids = (h.user_ids.0, ok, h.user_ids.2, ok); group_ids = h.group_ids }))

    setgid-end-Keeps :
        (invalid memory own : Bool) (new : Cred)
        → (own ≡ true → Confined new)
        → Keeps (
            if invalid
            then fails (neg einval) flag
            else if not memory
            then fails (neg enomem) flag
            else if own
            then commits new flag
            else fails (neg eperm) flag)
    setgid-end-Keeps true memory own new next = failed
    setgid-end-Keeps false false own new next = failed
    setgid-end-Keeps false true true new next = committed (next refl)
    setgid-end-Keeps false true false new next = failed

    setgid-Keeps : (g : ℕ) → Keeps (setgid w old flag g)
    unfolding setgid
    setgid-Keeps g = rw (weak_g old) (
        let k = w.make_kgid g in
        setgid-end-Keeps (not (w.gid_valid k)) (w.prepare_creds old)
          (k == old.gids.real || k == old.gids.saved)
          (record old { gids = record (old.gids) { effective = k; fs = k } })
          λ own.
            let ok = own-ok gid_ok old.gids h.group_ids k own in
            record { user_ids = h.user_ids; group_ids = (h.group_ids.0, ok, h.group_ids.2, ok) })

    moves-Confined :
        (valid memory may moves : Bool) (new : Cred)
        → (may ≡ true → Confined new)
        → Confined (if valid && (memory && (may && moves)) then new else old)
    moves-Confined true true true true new next = next refl
    moves-Confined true true true false new next = h
    moves-Confined true true false moves new next = h
    moves-Confined true false may moves new next = h
    moves-Confined false memory may moves new next = h

    setfsuid-Confined : (u : ℕ) → Confined (setfsuid w old u).0
    unfolding setfsuid
    setfsuid-Confined u = rw (weak_u old) (
        let k = w.make_kuid u in
        moves-Confined (w.uid_valid k) (w.prepare_creds old) (may_take_fs false old.uids k) _
          (record old { uids = record (old.uids) { fs = k } })
          λ may. record {
            user_ids =
                (h.user_ids.0, h.user_ids.1, h.user_ids.2, fs-ok uid_ok old.uids h.user_ids k may);
            group_ids = h.group_ids;
          })

    setfsgid-Confined : (g : ℕ) → Confined (setfsgid w old g).0
    unfolding setfsgid
    setfsgid-Confined g = rw (weak_g old) (
        let k = w.make_kgid g in
        moves-Confined (w.gid_valid k) (w.prepare_creds old) (may_take_fs false old.gids k) _
          (record old { gids = record (old.gids) { fs = k } })
          λ may. record {
            user_ids = h.user_ids;
            group_ids = (
              h.group_ids.0,
              h.group_ids.1,
              h.group_ids.2,
              fs-ok gid_ok old.gids h.group_ids k may,
            );
          })

    Keeps-after : (end : Ending) → Keeps end → Confined (after end old).0
    Keeps-after (commits new f) (committed c) = c
    Keeps-after (fails e f) failed = h

    perform-Confined : (k : Call) → Confined (perform w k old flag).0
    unfolding perform
    perform-Confined (setreuid_call r e) = Keeps-after _ (setreuid-Keeps r e)
    perform-Confined (setregid_call r e) = Keeps-after _ (setregid-Keeps r e)
    perform-Confined (setuid_call u) = Keeps-after _ (setuid-Keeps u)
    perform-Confined (setgid_call g) = Keeps-after _ (setgid-Keeps g)
    perform-Confined (setfsuid_call u) = setfsuid-Confined u
    perform-Confined (setfsgid_call g) = setfsgid-Confined g
    perform-Confined (setresuid_call r e s) = Keeps-after _ (setresuid-Keeps r e s)
    perform-Confined (setresgid_call r e s) = Keeps-after _ (setresgid-Keeps r e s)

  -- Where no process has CAP_SETUID or CAP_SETGID, no sequence of the calls gives a process an id that
  -- it did not have: a test that all its user ids pass, and one that all its group ids pass, they pass
  -- after the calls too.
  pub run-Confined :
      (w : World)
      → ((c : Cred) → w.setuid_capable c ≡ false)
      → ((c : Cred) → w.setgid_capable c ≡ false)
      → (calls : List Call) (c : Cred) (flag : Bool) → Confined c
      → Confined (run w calls c flag).0
  unfolding run
  run-Confined w weak_u weak_g [] c flag h = h
  run-Confined w weak_u weak_g (k ∷ ks) c flag h =
      run-Confined w weak_u weak_g ks (perform w k c flag).0 (perform w k c flag).1
        (perform-Confined w weak_u weak_g c flag h k)
