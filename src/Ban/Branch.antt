-- ===== src/Ban/Branch.antt =====
-- `sys_flip_ban_branch` as a whole: kernel/hw2.c.
use mathlib.Core.Path.{fun_ext, ap₂}
use native.Mathlib.Nat.{zero-add}
use operating_systems_course.Prelude.{
  ℕ, zero, suc, ◌+◌, ◌≡◌, refl, Bool, true, false, not, ◌||◌, eq→eqb, List, [], ◌∷◌, some, arith,
  ◌==◌, if◌then◌else◌, Bool-cases, Option-cases, inl, inr, ap, ◌∙◌, has, Distinct, length, ℤ, pos,
  negsuc, neg, eperm, einval, is_neg, is_pos,
}
use operating_systems_course.Prelude.Bits.{IsMask, bit_xor_twice, bit_xor-lt, bit_and-bit_xor}
use operating_systems_course.Ban.{
  Ptr, Tasks, Kernel, is_banned, ban_mask, flip_loop, flip_checked, flip_ban_branch, get_ban,
  is_true,
}
use operating_systems_course.Ban.Flip.{branch, parents, toggled, allowed, IsChars, flip_loop-branch}

ban_mask-IsMask : (c : ℕ) {sig : ℕ} → ban_mask c ≡ some sig → IsMask sig
unfolding ban_mask
ban_mask-IsMask c h = ground arith

-- The branch that `sys_flip_ban_branch` works on for the caller of `k`.
abbrev pub ancestors : Kernel → ℕ → List Ptr
ancestors k height = branch height (parents k.tasks) (parents k.tasks k.current)

-- Every task of a list with its bit flipped.
abbrev pub toggle_all : ℕ → List Ptr → Tasks → Tasks
toggle_all sig ps t q = if has q ps then toggled sig (t q) else t q

or_true : (b : Bool) → (b || true) ≡ true
or_true true = refl
or_true false = refl

flip_ban_branch-checked :
    (k : Kernel) (h ban sig : ℕ)
    → ban_mask ban ≡ some sig
    → is_banned (k.tasks k.current) sig ≡ false
    → let out = flip_loop sig (suc h) k.tasks (parents k.tasks k.current) 0 in
      flip_ban_branch k (pos (suc h)) ban ≡ (record k { tasks = out.0 }, pos out.1)
unfolding flip_ban_branch flip_checked
flip_ban_branch-checked k h ban sig e free = ground arith

-- For a caller that is not banned itself, `sys_flip_ban_branch` flips the ban of every ancestor on
-- its branch, leaves all else as it is, and returns how many ancestors it banned.
pub flip_ban_branch_lem :
    (k : Kernel) (h ban sig : ℕ)
    → ban_mask ban ≡ some sig
    → is_banned (k.tasks k.current) sig ≡ false
    → IsChars k.tasks
    → Distinct (ancestors k (suc h))
    → flip_ban_branch k (pos (suc h)) ban ≡ (
      record k { tasks = toggle_all sig (ancestors k (suc h)) k.tasks },
      pos (allowed sig k.tasks (ancestors k (suc h))),
    )
flip_ban_branch_lem k h ban sig e free chars apart =
    let f =
      flip_loop-branch sig (suc h) k.tasks (parents k.tasks k.current) (ban_mask-IsMask ban e) chars
        apart in
    flip_ban_branch-checked k h ban sig e free
    ∙ ap₂ (λ t n. (record k { tasks = t }, pos n)) (fun_ext f.task) (f.count ∙ zero-add _)

toggle_all_twice :
    (sig : ℕ) (ps : List Ptr) (t : Tasks)
    → IsMask sig
    → IsChars t
    → toggle_all sig ps (toggle_all sig ps t) ≡ t
toggle_all_twice sig ps t mask chars = fun_ext λ q. elim (Bool-cases (has q ps)) [
  | inl in_branch ↦ rw in_branch (rw (bit_xor_twice sig (t q).banned_signals mask (chars q)))
  | inr outside ↦ rw outside
]

toggle_all-IsChars :
    (sig : ℕ) (ps : List Ptr) (t : Tasks) → IsMask sig → IsChars t → IsChars (toggle_all sig ps t)
toggle_all-IsChars sig ps t mask chars q =
    ground (arith, chars q, bit_xor-lt sig (t q).banned_signals mask (chars q))

-- What the two rounds count adds up to the length of the branch.
allowed-toggle_all :
    (sig : ℕ) (qs ps : List Ptr) (t : Tasks)
    → IsMask sig
    → IsChars t
    → ((q : Ptr) → has q ps ≡ true → has q qs ≡ true)
    → allowed sig t ps + allowed sig (toggle_all sig qs t) ps ≡ length ps
unfolding allowed
allowed-toggle_all sig qs [] t mask chars all = refl
allowed-toggle_all sig qs (p ∷ ps) t mask chars all =
    let rest = allowed-toggle_all sig qs ps t mask chars (λ q h. all q (rw h (or_true (q == p)))) in
    rw (all p (rw (eq→eqb p p refl)), bit_and-bit_xor sig (t p).banned_signals mask (chars p))
      (ground (arith, rest))

toggle_all-parents :
    (sig : ℕ) (ps : List Ptr) (t : Tasks) → parents (toggle_all sig ps t) ≡ parents t
toggle_all-parents sig ps t =
    fun_ext λ q. elim (Bool-cases (has q ps)) [ inl e ↦ rw (e, parents) | inr e ↦ rw (e, parents) ]

-- The same call again undoes the first: every ban word is as before, and the two results add up to
-- the length of the branch, for a caller that is not banned and not on its own branch.
pub flip_ban_branch_twice :
    (k : Kernel) (h ban sig : ℕ)
    → ban_mask ban ≡ some sig
    → is_banned (k.tasks k.current) sig ≡ false
    → IsChars k.tasks
    → Distinct (ancestors k (suc h))
    → has k.current (ancestors k (suc h)) ≡ false
    → (first second : ℕ) × (first + second ≡ length (ancestors k (suc h)))
      × ((flip_ban_branch k (pos (suc h)) ban).1 ≡ pos first)
      × (flip_ban_branch (flip_ban_branch k (pos (suc h)) ban).0 (pos (suc h)) ban
          ≡ (k, pos second))
flip_ban_branch_twice k h ban sig e free chars apart off =
    let ps = ancestors k (suc h) in
    let mask = ban_mask-IsMask ban e in
    let t' = toggle_all sig ps k.tasks in
    let k' : Kernel = record k { tasks = t' } in
    let once = flip_ban_branch_lem k h ban sig e free chars apart in
    let same : ancestors k' (suc h) ≡ ps =
      ap (λ f. branch (suc h) f (f k.current)) (toggle_all-parents sig ps k.tasks) in
    let again =
      flip_ban_branch_lem k' h ban sig e (rw off free)
        (toggle_all-IsChars sig ps k.tasks mask chars) (rw same apart) in
    (
      allowed sig k.tasks ps,
      allowed sig t' ps,
      allowed-toggle_all sig ps ps k.tasks mask chars (λ q i. i),
      ap (λ r. r.1) once,
      ap (λ (r : Kernel × ℤ). flip_ban_branch r.0 (pos (suc h)) ban) once
          ∙ again
          ∙ ap₂ (λ t n. (record k { tasks = t }, pos n))
              (ap (λ qs. toggle_all sig qs t') same ∙ toggle_all_twice sig ps k.tasks mask chars)
              (ap (allowed sig t') same),
    )

-- As an ancestor sees it: its own `sys_get_ban` answers the opposite of what it answered before.
-- A task off the branch gets the same answer.
pub get_ban-flip_ban_branch :
    (k : Kernel) (h ban sig : ℕ) (q : Ptr)
    → ban_mask ban ≡ some sig
    → is_banned (k.tasks k.current) sig ≡ false
    → IsChars k.tasks
    → Distinct (ancestors k (suc h))
    → let before = get_ban (record k { current = q }) ban in
      get_ban (record (flip_ban_branch k (pos (suc h)) ban).0 { current = q }) ban
      ≡ (if has q (ancestors k (suc h)) then (if is_true before then pos 0 else pos 1) else before)
unfolding get_ban
get_ban-flip_ban_branch k h ban sig q e free chars apart =
    let r = ap (λ r. r.0) (flip_ban_branch_lem k h ban sig e free chars apart) in
    rw r (
      ground (
        arith,
        e,
        bit_and-bit_xor sig (k.tasks q).banned_signals (ban_mask-IsMask ban e) (chars q),
      ))

-- The call fails exactly for a height that is not positive or where the caller's own `sys_get_ban`
-- does not answer 0. It then changes nothing; the error is EPERM if the caller is banned and the
-- height is positive, and EINVAL otherwise.
pub flip_ban_branch-refused :
    (k : Kernel) (height : ℤ) (ban : ℕ)
    → let refused = not (is_pos height) || is_true (get_ban k ban) in
      let invalid = not (is_pos height) || is_neg (get_ban k ban) in
      (is_neg (flip_ban_branch k height ban).1 ≡ refused)
      × (flip_ban_branch k height ban ≡ (
          if refused
          then (k, if invalid then neg einval else neg eperm)
          else flip_ban_branch k height ban))
unfolding flip_ban_branch flip_checked get_ban
flip_ban_branch-refused k (negsuc n) ban = ground arith
flip_ban_branch-refused k (pos zero) ban = ground arith
flip_ban_branch-refused k (pos (suc h)) ban = elim (Option-cases (ban_mask ban)) [
  | inl e ↦ ground (arith, e)
  | inr (sig, e) ↦ ground (arith, e)
]
