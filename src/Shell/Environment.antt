-- ===== src/Shell/Environment.antt =====
-- `UnSetEnvCommand` of Commands.cpp.
--
-- `environ` is the list of the entries, and the file of the environment that the process started with
-- is an argument, at most the 8192 bytes that are read of it, and `none` where that fails. An entry has
-- no NUL in it.
use operating_systems_course.Prelude.{
  ℕ, Bool, true, false, Option, none, some, List, [], ◌∷◌, ◌++◌, ◌==◌, if◌then◌else◌,
}
use operating_systems_course.Server.Run.{Run, ok, fault}
use operating_systems_course.Server.Request.{is_prefix}
use operating_systems_course.Shell.Text.{same_text}

-- The character `=`
abbrev equals_sign : ℕ
equals_sign = 61

-- The loop of `checkVariableExistence`; `starts` is whether an entry starts here.
abbrev pub exists_in : (variable : List ℕ) → (starts : Bool) → (file : List ℕ) → Bool
exists_in variable starts [] = false
exists_in variable true (c ∷ cs) =
    if is_prefix variable (c ∷ cs) then true else exists_in variable (c == 0) cs
exists_in variable false (c ∷ cs) = exists_in variable (c == 0) cs

-- `checkVariableExistence`
abbrev pub check_variable_existence : (var file : List ℕ) → Bool
check_variable_existence var file = exists_in (var ++ (equals_sign ∷ [])) true file

-- The part of an entry in front of `=`, if it has one.
abbrev pub key : List ℕ → Option (List ℕ)
key [] = none
key (c ∷ cs) =
    if c == equals_sign then some [] else elim (key cs) [ none ↦ none | some k ↦ some (c ∷ k) ]

abbrev pub is_entry_of : (var entry : List ℕ) → Bool
is_entry_of var entry = elim (key entry) [ none ↦ false | some k ↦ same_text k var ]

-- The loop over `__environ`: the first entry of the variable is shifted out.
abbrev pub shift_out : (var : List ℕ) → List (List ℕ) → List (List ℕ)
shift_out var [] = []
shift_out var (e ∷ es) = if is_entry_of var e then es else e ∷ shift_out var es

-- What `unsetenv` prints.
pub data Complaint : Type 0 where
  not_enough_arguments : Complaint
  does_not_exist : (var : List ℕ) → Complaint
  file_failed : Complaint

-- The loop over the arguments
abbrev pub unset_all :
    (file : List ℕ) → (vars environ : List (List ℕ)) → List (List ℕ) × List Complaint
unset_all file [] environ = (environ, [])
unset_all file (v ∷ vs) environ =
    if check_variable_existence v file
    then unset_all file vs (shift_out v environ)
    else (environ, does_not_exist v ∷ [])

-- `UnSetEnvCommand::execute`
pub unset_env :
    (file : Option (List ℕ)) → (environ args : List (List ℕ)) → Run (List (List ℕ) × List Complaint)
unset_env file environ [] = fault
unset_env file environ (name ∷ []) = ok (environ, not_enough_arguments ∷ [])
unset_env none environ (name ∷ (v ∷ vs)) = ok (environ, file_failed ∷ [])
unset_env (some text) environ (name ∷ (v ∷ vs)) = ok (unset_all text (v ∷ vs) environ)
