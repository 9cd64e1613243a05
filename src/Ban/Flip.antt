-- ===== src/Ban/Flip.antt =====
-- What `sys_flip_ban_branch` does to the ancestors of the caller: kernel/hw2.c.
use Prim.Native.Nat.{bit_xor}
use operating_systems_course.Prelude.{
  ℕ, zero, suc, ◌+◌, ◌<◌, ◌≡◌, refl, Bool, true, false, ◌||◌, List, [], ◌∷◌, arith, ◌==◌,
  if◌then◌else◌, Bool-cases, eqb→eq, inl, inr, sym, ap, ◌∙◌, has, Distinct,
}
use operating_systems_course.Prelude.Bits.{IsMask, bit_xor-toggles, bit_xor-lt}
use operating_systems_course.Ban.{Ptr, null, Task, Tasks, is_banned, flip_task, flip_loop, update}

-- The ancestors that `height` rounds visit: up the `real_parent` pointers from `p`, ending at a null
-- pointer or at a task that is its own parent.
unfoldable pub branch : (height : ℕ) → (Ptr → Ptr) → Ptr → List Ptr
branch zero parent p = []
branch (suc h) parent p =
    if p == null then [] else p ∷ (if p == parent p then [] else branch h parent (parent p))

abbrev pub parents : Tasks → Ptr → Ptr
parents t p = (t p).real_parent

-- The bit `sig` of the ban word flipped, and nothing else.
abbrev pub toggled : ℕ → Task → Task
toggled sig t = record t { banned_signals = bit_xor t.banned_signals sig }

-- How many tasks of a list lack the ban.
unfoldable pub allowed : ℕ → Tasks → List Ptr → ℕ
allowed sig t [] = 0
allowed sig t (p ∷ ps) = (if is_banned (t p) sig then 0 else 1) + allowed sig t ps

-- A ban word is a `char`.
abbrev pub IsChars : Tasks → Type 0
IsChars t = (p : Ptr) → (t p).banned_signals < 256

-- What one visit adds to the count.
abbrev pub newly : ℕ → Task → ℕ
newly sig x = if is_banned x sig then 0 else 1

flip_task_lem :
    (sig : ℕ) (x : Task)
    → IsMask sig
    → x.banned_signals < 256
    → flip_task sig x ≡ (toggled sig x, newly sig x)
unfolding flip_task
flip_task_lem sig x m lt = ground (arith, bit_xor-toggles sig x.banned_signals m lt)

update_self : (t : Tasks) (p : Ptr) (x : Task) → update t p x p ≡ x
update_self t p x = ground arith

flip_loop-suc :
    (sig h : ℕ) (t : Tasks) (p c : ℕ) {up : Ptr}
    → IsMask sig
    → IsChars t
    → parents t p ≡ up
    → flip_loop sig (suc h) t p c ≡ (
        if p == null
        then (t, c)
        else if p == up
        then (update t p (toggled sig (t p)), c + newly sig (t p))
        else flip_loop sig h (update t p (toggled sig (t p))) up (c + newly sig (t p)))
unfolding flip_loop
flip_loop-suc sig h t p c m chars e =
    rw (← e) (rw (flip_task_lem sig (t p) m (chars p), update_self t p (toggled sig (t p))))

-- One visit, seen from any task `q`, with the later visits told by `b`.
visit_task :
    (sig : ℕ) (t : Tasks) (p q : Ptr) (b : Bool) (x : Task)
    → ((q == p) ≡ true → b ≡ false)
    → x ≡ (
        if b
        then toggled sig (update t p (toggled sig (t p)) q)
        else update t p (toggled sig (t p)) q)
    → x ≡ (if q == p || b then toggled sig (t q) else t q)
visit_task sig t p q b x apart e = elim (Bool-cases (q == p)) [
  | inl here ↦
      rw here ((rw (apart here, here) at e) ∙ ap (λ r. toggled sig (t r)) (sym (eqb→eq q p here)))
  | inr other ↦ rw other (rw other at e)
]

allowed-update :
    (sig : ℕ) (t : Tasks) (p : Ptr) (x : Task) (ps : List Ptr)
    → has p ps ≡ false
    → allowed sig (update t p x) ps ≡ allowed sig t ps
unfolding allowed
allowed-update sig t p x [] out = refl
allowed-update sig t p x (q ∷ ps) out = ground (arith, allowed-update sig t p x ps)

update-parents :
    (sig : ℕ) (t : Tasks) (p q : Ptr) → parents (update t p (toggled sig (t p))) q ≡ parents t q
update-parents sig t p q = elim (Bool-cases (q == p)) [
  | inl here ↦ rw (here, parents) (ap (parents t) (sym (eqb→eq q p here)))
  | inr other ↦ rw (other, parents)
]

-- The loop's result, by induction on the rounds left.
pub record Flips (sig : ℕ) (t : Tasks) (ps : List Ptr) (start : ℕ) (out : Tasks × ℕ) : Type 0 where
  pub task : (q : Ptr) → out.0 q ≡ (if has q ps then toggled sig (t q) else t q)
  pub count : out.1 ≡ start + allowed sig t ps

Flips-cons :
    (sig : ℕ) (t : Tasks) (p c : ℕ) (ps : List Ptr) (out : Tasks × ℕ)
    → has p ps ≡ false
    → Flips sig (update t p (toggled sig (t p))) ps (c + newly sig (t p)) out
    → Flips sig t (p ∷ ps) c out
unfolding allowed
Flips-cons sig t p c ps out fresh f = record {
  task = λ q. visit_task sig t p q (has q ps) (out.0 q) (λ e. rw (eqb→eq q p e) fresh) (f.task q);
  count = omega (arith, f.count, allowed-update sig t p (toggled sig (t p)) ps fresh);
}

module _ (sig : ℕ) (mask : IsMask sig) (par : Ptr → Ptr) where
  pub flip_loop-Flips :
      (h : ℕ) (t : Tasks) (p c : ℕ)
      → IsChars t
      → ((q : Ptr) → parents t q ≡ par q)
      → Distinct (branch h par p)
      → Flips sig t (branch h par p) c (flip_loop sig h t p c)
  unfolding flip_loop branch allowed
  flip_loop-Flips zero t p c chars same apart = record { task = λ q. refl; count = omega arith }
  flip_loop-Flips (suc h) t p c chars same apart = elim (Bool-cases (p == null)) [
    | inl stop ↦ rw stop (record { task = λ q. refl; count = omega arith })
    | inr go ↦ elim (Bool-cases (p == par p)) [
      | inl root ↦
          rw (flip_loop-suc sig h t p c mask chars (same p), go, root)
            (record {
              task = λ q. visit_task sig t p q false _ (λ _. refl) refl;
              count = omega arith;
            })
      | inr up ↦
          rw (flip_loop-suc sig h t p c mask chars (same p), go, up)
            (Flips-cons sig t p c (branch h par (par p)) _ (rw (go, up) at apart).0 (
              flip_loop-Flips h (update t p (toggled sig (t p))) (par p) (c + newly sig (t p))
                (λ q. ground (arith, chars q, bit_xor-lt sig (t p).banned_signals mask (chars p)))
                (λ q. update-parents sig t p q ∙ same q) (rw (go, up) at apart).1))
    ]
  ]

-- `flip_loop` on a branch without repetitions flips the bit of its members alone and counts those
-- that had it clear.
pub flip_loop-branch :
    (sig h : ℕ) (t : Tasks) (p : Ptr)
    → IsMask sig
    → IsChars t
    → Distinct (branch h (parents t) p)
    → Flips sig t (branch h (parents t) p) 0 (flip_loop sig h t p 0)
flip_loop-branch sig h t p mask chars =
    flip_loop-Flips sig mask (parents t) h t p 0 chars (λ q. refl)
