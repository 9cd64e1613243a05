-- ===== src/Creds/Run.antt =====
-- Sequences of the calls.
mod Choice
pub mod Confine
pub mod Swap
use operating_systems_course.Prelude.{ℕ, Bool, List, [], ◌∷◌}
use operating_systems_course.Creds.{
  Cred, World, Ending, commits, fails, setreuid, setuid, setresuid, setregid, setgid, setresgid,
  setfsuid, setfsgid,
}

-- The calls that a process can make.
pub data Call : Type 0 where
  setreuid_call setregid_call : ℕ → ℕ → Call
  setuid_call setgid_call setfsuid_call setfsgid_call : ℕ → Call
  setresuid_call setresgid_call : ℕ → ℕ → ℕ → Call

-- The credentials and the flag that a call leaves.
abbrev pub after : Ending → Cred → Cred × Bool
after (commits new flag) old = (new, flag)
after (fails e flag) old = (old, flag)

pub perform : World → Call → Cred → Bool → Cred × Bool
perform w (setreuid_call r e) c flag = after (setreuid w c flag r e) c
perform w (setregid_call r e) c flag = after (setregid w c flag r e) c
perform w (setuid_call u) c flag = after (setuid w c flag u) c
perform w (setgid_call g) c flag = after (setgid w c flag g) c
perform w (setfsuid_call u) c flag = ((setfsuid w c u).0, flag)
perform w (setfsgid_call g) c flag = ((setfsgid w c g).0, flag)
perform w (setresuid_call r e s) c flag = after (setresuid w c flag r e s) c
perform w (setresgid_call r e s) c flag = after (setresgid w c flag r e s) c

pub run : World → List Call → Cred → Bool → Cred × Bool
unfolding perform
run w [] c flag = (c, flag)
run w (k ∷ ks) c flag = run w ks (perform w k c flag).0 (perform w k c flag).1
