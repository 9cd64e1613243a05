-- ===== src/Ban/Tests.antt =====
-- The ban calls on a small family: task 3 is the caller, with parent 2, whose parent 1 is its own.
use operating_systems_course.Prelude.{
  ℕ, ◌+◌, ◌≡◌, refl, inr, [], ◌∷◌, arith, ◌==◌, if◌then◌else◌, ℤ, pos, negsuc, neg, eperm, einval,
  is_neg, true,
}
use operating_systems_course.Ban.{
  Ptr, Tasks, Kernel, SigInfo, ban_mask, set_ban, get_ban, check_ban, getpid, kill, pipe,
  flip_ban_branch, is_true, flip_checked, flip_loop, flip_task,
}
use operating_systems_course.Ban.Flip.{branch, parents, allowed, Flips, flip_loop-branch}
use operating_systems_course.Ban.Words.{
  get_ban-set_ban, set_ban_frame, banned_calls-set_ban, check_ban-get_ban,
}
use operating_systems_course.Ban.Branch.{
  toggle_all, flip_ban_branch_lem, flip_ban_branch_twice, get_ban-flip_ban_branch,
  flip_ban_branch-refused,
}

abbrev family : Tasks
family p =
    if p == 1
    then record { real_parent = 1; euid = 0; banned_signals = 5 }
    else if p == 2
    then record { real_parent = 1; euid = 0; banned_signals = 0 }
    else record { real_parent = 2; euid = 0; banned_signals = 2 }

abbrev kernel : Kernel
kernel = record { tasks = family; current = 3 }

flip_both : (flip_ban_branch kernel (pos 4) b'k').1 ≡ pos 1
unfolding flip_ban_branch flip_checked flip_loop flip_task ban_mask
flip_both = refl

flip_clears : ((flip_ban_branch kernel (pos 4) b'k').0.tasks 1).banned_signals ≡ 1
unfolding flip_ban_branch flip_checked flip_loop flip_task ban_mask
flip_clears = refl

get_ban-set_ban_example :
    ((set_ban kernel (pos 1) (pos 0) (pos 7)).1 ≡ pos 0)
    × (get_ban (set_ban kernel (pos 1) (pos 0) (pos 7)).0 b'g' ≡ pos 1)
    × (get_ban (set_ban kernel (pos 1) (pos 0) (pos 7)).0 b'p' ≡ pos 0)
    × (get_ban (set_ban kernel (pos 1) (pos 0) (pos 7)).0 b'k' ≡ pos 1)
get_ban-set_ban_example = get_ban-set_ban kernel (pos 1) (pos 0) (pos 7) refl refl refl refl

set_ban_frame_example :
    ((set_ban kernel (pos 1) (negsuc 0) (pos 0)).1 ≡ neg einval)
    × ((set_ban kernel (pos 1) (negsuc 0) (pos 0)).0 ≡ kernel)
    × ((set_ban kernel (pos 1) (negsuc 0) (pos 0)).0.tasks 2 ≡ family 2)
set_ban_frame_example = set_ban_frame kernel (pos 1) (negsuc 0) (pos 0) 2

abbrev sent : ℤ → SigInfo → ℤ → Kernel → Kernel × ℤ
sent sig info pid k = (k, pos 0)

abbrev made : ℕ → ℕ → Kernel → Kernel × ℤ
made fildes flags k = (k, pos fildes)

banned_calls-set_ban_example :
    let k' = (set_ban kernel (pos 1) (pos 0) (pos 7)).0 in
    (getpid (λ p. p) k' ≡ neg eperm)
    × (pipe made k' 9 ≡ (k', pos 9))
    × (kill (λ p. p) (λ p. 0) sent k' (pos 2) (pos 15) ≡ (k', neg eperm))
banned_calls-set_ban_example =
    banned_calls-set_ban (λ p. p) (λ p. 0) sent made kernel (pos 1) (pos 0) (pos 7) (pos 2) (pos 15)
      9 refl refl refl refl

-- pid 7 is task 2, and nobody has another pid
abbrev find : ℤ → Ptr
find (pos n) = if n == 7 then 2 else 0
find (negsuc n) = 0

check_ban-get_ban_example : check_ban find kernel (pos 7) b'g' ≡ (
    if is_neg (get_ban kernel b'g')
    then neg einval
    else if is_true (get_ban kernel b'g')
    then neg eperm
    else get_ban (record kernel { current = 2 }) b'g')
check_ban-get_ban_example = check_ban-get_ban find kernel (pos 7) b'g'

flip_loop-branch_example : Flips 4 family (branch 2 (parents family) 2) 0 (flip_loop 4 2 family 2 0)
unfolding branch
flip_loop-branch_example =
    flip_loop-branch 4 2 family 2 (inr (inr refl)) (λ p. ground arith) (refl, (refl, tt))

flip_ban_branch_lem_example :
    flip_ban_branch kernel (pos 2) b'k'
    ≡ (record kernel { tasks = toggle_all 4 (2 ∷ 1 ∷ []) family }, pos 1)
unfolding branch allowed ban_mask
flip_ban_branch_lem_example =
    flip_ban_branch_lem kernel 1 b'k' 4 refl refl (λ p. ground arith) (refl, (refl, tt))

flip_ban_branch_twice_example :
    (first second : ℕ) × (first + second ≡ 2)
    × ((flip_ban_branch kernel (pos 2) b'k').1 ≡ pos first)
    × (flip_ban_branch (flip_ban_branch kernel (pos 2) b'k').0 (pos 2) b'k' ≡ (kernel, pos second))
unfolding branch ban_mask
flip_ban_branch_twice_example =
    flip_ban_branch_twice kernel 1 b'k' 4 refl refl (λ p. ground arith) (refl, (refl, tt)) refl

get_ban-flip_ban_branch_example :
    get_ban (record (flip_ban_branch kernel (pos 2) b'k').0 { current = 2 }) b'k' ≡ pos 1
unfolding branch ban_mask get_ban
get_ban-flip_ban_branch_example =
    get_ban-flip_ban_branch kernel 1 b'k' 4 2 refl refl (λ p. ground arith) (refl, (refl, tt))

flip_ban_branch-refused_example :
    (is_neg (flip_ban_branch kernel (pos 2) b'p').1 ≡ true)
    × (flip_ban_branch kernel (pos 2) b'p' ≡ (kernel, neg eperm))
unfolding get_ban ban_mask
flip_ban_branch-refused_example = flip_ban_branch-refused kernel (pos 2) b'p'
