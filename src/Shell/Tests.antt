-- ===== src/Shell/Tests.antt =====
-- A list of two jobs, and an alias for `ls`.
use operating_systems_course.Prelude.{
  ◌==◌, ◌≡◌, ◌++◌, true, false, none, some, List, [], ◌∷◌, arith, refl, pos,
}
use operating_systems_course.Server.Run.{ok, fault}
use operating_systems_course.Server.Stats.{codes}
use operating_systems_course.Shell.Text.{remove_background_sign}
use operating_systems_course.Shell.Jobs.{
  JobsList, no_jobs, Change, changes, added, refreshed, remove_finished_jobs, add_job,
  get_job_by_id,
}
use operating_systems_course.Shell.Jobs.Order.{IsOrdered, changes-IsOrdered, get_job_by_id-add_job}
use operating_systems_course.Shell.Alias.{Alias, convert_alias_to_original, parse_alias}
use operating_systems_course.Shell.Dispatch.{external_kind, command_of, parse_redirection}
use operating_systems_course.Shell.Session.{kill_no_job}
use operating_systems_course.Shell.Control.{kill_command}
use operating_systems_course.Shell.Environment.{unset_all}

no_jobs-IsOrdered : IsOrdered no_jobs
no_jobs-IsOrdered = record { ascending = _; last = refl }

-- Two jobs start, the first ends, and a third starts.
abbrev session : List Change
session =
    added true (λ p. false) 100 (codes "sleep 9&")
    ∷ (added true (λ p. false) 101 (codes "sleep 7&")
        ∷ (refreshed true (λ p. p == 100) ∷ (added true (λ p. false) 102 (codes "du&") ∷ [])))

changes-IsOrdered_example : IsOrdered (changes session no_jobs)
changes-IsOrdered_example = changes-IsOrdered session no_jobs no_jobs-IsOrdered

session_ids : (changes session no_jobs).max_job_id ≡ 3
session_ids = refl

abbrev two_jobs : JobsList
two_jobs = record {
  job_list =
      record { job_id = 1; pid = 100; cmd_str = codes "sleep 9&" }
      ∷ (record { job_id = 2; pid = 101; cmd_str = codes "sleep 7&" } ∷ []);
  max_job_id = 2;
}

two_jobs-IsOrdered : IsOrdered two_jobs
two_jobs-IsOrdered = record { ascending = (omega arith, (omega arith, _)); last = refl }

get_job_by_id-add_job_example :
    let kept = remove_finished_jobs true (λ p. p == 101) two_jobs in
    (get_job_by_id 2 kept ≡ none)
    × ((get_job_by_id 1 (add_job true (λ p. p == 101) 102 (codes "du&") two_jobs))
        ≡ get_job_by_id 1 kept)
get_job_by_id-add_job_example =
    get_job_by_id-add_job true (λ p. p == 101) 102 (codes "du&") two_jobs 1 two_jobs-IsOrdered

abbrev listed : List Alias
listed = record { name = codes "ll"; command = codes "ls -l" } ∷ []

-- `executeCommand` expands an alias that begins with its own name twice.
expanded_twice :
    command_of (record { name = codes "ls"; command = codes "ls -l" } ∷ []) (codes "ls")
    ≡ (external_kind, codes "ls -l -l")
unfolding command_of convert_alias_to_original
expanded_twice = refl

parse_alias_ll :
    parse_alias (codes "alias ll='ls -l' ")
    ≡ some (record { name = codes "ll"; command = codes "ls -l" })
unfolding parse_alias
parse_alias_ll = refl

-- A line of spaces, and a sign with nothing in front of it, are cut at a place that is not there.
blank_line : remove_background_sign (codes "  ") ≡ fault
blank_line = refl

only_sign : remove_background_sign (codes " & ") ≡ fault
only_sign = refl

kill_missing_job :
    kill_command (λ p n. true) two_jobs (codes "kill" ∷ (codes "-9" ∷ (codes "7" ∷ [])))
    ≡ ok (kill_no_job (pos 7) ∷ [])
unfolding kill_command
kill_missing_job = refl

-- `stoi` throws on a sign without digits, which `isNumber` lets pass.
kill_dash :
    kill_command (λ p n. true) two_jobs (codes "kill" ∷ (codes "-9" ∷ (codes "-" ∷ []))) ≡ fault
unfolding kill_command
kill_dash = refl

append_to_file : (parse_redirection (codes "ls >> out")).output_file ≡ codes "out"
unfolding parse_redirection
append_to_file = refl

-- The file keeps what the process started with, so that a variable can be unset twice.
unset_twice :
    unset_all
      (codes "A=1" ++ (0 ∷ []))
      (codes "A" ∷ (codes "A" ∷ []))
      (codes "B=2" ∷ (codes "A=1" ∷ []))
    ≡ (codes "B=2" ∷ [], [])
unset_twice = refl
