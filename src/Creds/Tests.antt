-- ===== src/Creds/Tests.antt =====
-- The calls in a small world: id 0 is root, the maps keep an id, and no process is capable.
use operating_systems_course.Prelude.{
  ℕ, ◌≡◌, refl, Bool, true, false, ◌||◌, some, [], ◌∷◌, ◌==◌, pos, neg, eperm, not,
}
use operating_systems_course.Creds.{
  Cred, World, no_id, commits, fails, fix_and_commit, with_user, reids, exceeds, setreuid, setuid,
}
use operating_systems_course.Creds.Run.{
  setreuid_call, setuid_call, setfsuid_call, setresgid_call, run,
}
use operating_systems_course.Creds.Run.Swap.{Allows, run-setreuid_twice}
use operating_systems_course.Creds.Run.Confine.{Confined, run-Confined}

abbrev world : World
world = record {
  make_kuid = λ u. u;
  make_kgid = λ g. g;
  from_kuid_munged = λ u. u;
  from_kgid_munged = λ g. g;
  uid_valid = λ u. not (u == no_id);
  gid_valid = λ g. not (g == no_id);
  setuid_capable = λ c. false;
  setgid_capable = λ c. false;
  prepare_creds = λ c. true;
  alloc_uid = λ u. some (record { processes = 1; is_init = u == 0 });
  rlimit_nproc = 100;
  security_task_fix_setuid = λ new old. pos 0;
}

-- A program of user 10 that runs as user 20.
abbrev set_user_program : Cred
set_user_program = record {
  uids = record { real = 10; effective = 20; saved = 20; fs = 20 };
  gids = record { real = 7; effective = 7; saved = 7; fs = 7 };
  user = record { processes = 3; is_init = false };
}

abbrev user_10_or_20 : ℕ → Bool
user_10_or_20 u = u == 10 || u == 20

abbrev group_7 : ℕ → Bool
group_7 g = g == 7

refused : setuid world set_user_program false 0 ≡ fails (neg eperm) false
unfolding setuid fix_and_commit with_user
refused = refl

swapped :
    setreuid world set_user_program false 20 10
    ≡ commits
        (record {
          uids = record { real = 20; effective = 10; saved = 10; fs = 10 };
          gids = record { real = 7; effective = 7; saved = 7; fs = 7 };
          user = record { processes = 1; is_init = false };
        })
        false
unfolding setreuid fix_and_commit with_user reids exceeds
swapped = refl

run-Confined_example :
    Confined user_10_or_20 group_7
      (run world
        (setuid_call 0 ∷ (setreuid_call 20 10 ∷ (setfsuid_call 20 ∷ (setresgid_call 7 0 7 ∷ []))))
        set_user_program
        false).0
run-Confined_example =
    run-Confined user_10_or_20 group_7 world (λ c. refl) (λ c. refl)
      (setuid_call 0 ∷ (setreuid_call 20 10 ∷ (setfsuid_call 20 ∷ (setresgid_call 7 0 7 ∷ []))))
      set_user_program false
      (record { user_ids = (refl, refl, refl, refl); group_ids = (refl, refl, refl, refl) })

world-Allows : Allows world
world-Allows = record {
  user_of = λ u. record { processes = 1; is_init = u == 0 };
  memory = λ c. refl;
  users = λ u. refl;
  security = λ new old. refl;
}

run-setreuid_twice_example :
    ((run world (setreuid_call 20 10 ∷ []) set_user_program false).0.uids
      ≡ record { real = 20; effective = 10; saved = 10; fs = 10 })
    × ((run world (setreuid_call 20 10 ∷ (setreuid_call 10 20 ∷ [])) set_user_program false).0.uids
        ≡ record { real = 10; effective = 20; saved = 20; fs = 20 })
run-setreuid_twice_example =
    run-setreuid_twice world world-Allows set_user_program false 10 20
      (record { given = refl; maps = refl; valid = refl })
      (record { given = refl; maps = refl; valid = refl })
