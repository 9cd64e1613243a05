-- ===== src/Shell/Who/Tests.antt =====
-- A file of two accounts.
use operating_systems_course.Prelude.{ℕ, ◌+◌, ◌*◌, ◌-◌, ◌≡◌, refl, none, some, List, [], ◌∷◌, arith}
use operating_systems_course.Server.Stats.{codes}
use operating_systems_course.Shell.Who.{get_account, get_uid, whoami}
use operating_systems_course.Shell.Who.Passwd.{User, text_of, first_user, get_account-text_of}

abbrev value : ℕ → List ℕ → ℕ
value n [] = n
value n (c ∷ cs) = value (n * 10 + (c - 48)) cs

abbrev number : List ℕ → ℕ
number text = value 0 text

abbrev users : List User
users =
    record {
      name = codes "root";
      password = codes "x";
      uid = codes "0";
      gid = codes "0";
      info = [];
      dir = codes "/root";
      shell = codes "/bin/sh";
    }
    ∷ (record {
      name = codes "ann";
      password = codes "x";
      uid = codes "1000";
      gid = codes "100";
      info = codes "Ann";
      dir = codes "/home/ann";
      shell = [];
    }
        ∷ [])

get_account-text_of_example :
    get_account number 1000 (some (text_of users)) ≡ first_user number 1000 users
get_account-text_of_example =
    get_account-text_of number 1000 users
      (
        record {
          name = (refl, refl, refl);
          password = (refl, refl, refl);
          uid = (refl, refl, refl);
          gid = (refl, refl, refl);
          info = (refl, refl, refl);
          dir = (refl, refl, refl);
          shell = (refl, refl, refl);
        },
        (
          record {
            name = (refl, refl, refl);
            password = (refl, refl, refl);
            uid = (refl, refl, refl);
            gid = (refl, refl, refl);
            info = (refl, refl, refl);
            dir = (refl, refl, refl);
            shell = (refl, refl, refl);
          },
          tt,
        ),
      )
      (omega arith)

-- The id comes from the line of /proc/self/status that begins with `Uid:`.
ann :
    whoami number (some (codes "Name:smash\nUid: 1000\n")) (some (text_of users))
    ≡ some (1000, record { name = codes "ann"; gid = 100; dir = codes "/home/ann" })
unfolding whoami get_uid get_account
ann = refl

-- A file that is not read gives nothing.
no_file : whoami number (some (codes "Uid: 1000\n")) none ≡ none
unfolding whoami get_uid get_account
no_file = refl
