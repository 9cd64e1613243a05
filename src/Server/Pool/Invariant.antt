-- ===== src/Server/Pool/Invariant.antt =====
-- What the pool's state stands for, and that every step keeps it.
use mathlib.Core.List.{append_assoc}
use native.Mathlib.Decide.{dec_lt}
use operating_systems_course.Prelude.{
  ℕ, ◌+◌, ◌≤◌, ◌<◌, ◌≡◌, refl, ◌≢◌, ◌⊎◌, inl, Bool, true, false, List, [], ◌∷◌, ◌++◌, arith, length,
  length-append, ℤ, sym, ap, ◌∙◌,
}
use operating_systems_course.Server.Threads.{
  assign, count, bit, count-zero, count-assign, count-witness,
}
use operating_systems_course.Server.Pool.{
  Pool, Master, testing, waiting, accepting, Worker, ready, asleep, handling, master_turn,
  worker_turn, worker_done, master_enqueue, Woken, woken, lost, Step, master_tests, master_wakes,
  master_accepts, worker_tests, worker_wakes, worker_finishes, start, Reach, here, next,
}

abbrev pub is_ready : Worker → Bool
is_ready ready = true
is_ready _ = false

abbrev pub is_asleep : Worker → Bool
is_asleep asleep = true
is_asleep _ = false

abbrev pub is_handling : Worker → Bool
is_handling (handling c) = true
is_handling _ = false

-- The place that `main` has found free and not filled yet.
abbrev pub reserved : Master → ℕ
reserved accepting = 1
reserved _ = 0

-- `active_jobs` counts the workers with a job; the queue, these and a place in hand never exceed the
-- size; a worker sleeps only while the others that are ready suffice for the queue; `main` sleeps
-- only while the server is full; jobs are started in the order of arrival.
pub record Inv (n : ℕ) (s : Pool) : Type 0 where
  pub active : s.active_jobs ≡ count is_handling n s.pc
  pub within : length s.queue + s.active_jobs + reserved s.master ≤ s.max_size
  pub sleeping : (count is_asleep n s.pc ≡ 0) ⊎ (length s.queue ≤ count is_ready n s.pc)
  pub full : (s.master ≢ waiting) ⊎ (length s.queue + s.active_jobs ≡ s.max_size)
  pub order : s.accepted ≡ s.started ++ s.queue

record Moved (n : ℕ) (pc : ℕ → Worker) (a b : Worker) (pc' : ℕ → Worker) : Type 0 where
  pub of_ready : count is_ready n pc' + bit (is_ready a) ≡ count is_ready n pc + bit (is_ready b)
  pub of_asleep :
      count is_asleep n pc' + bit (is_asleep a) ≡ count is_asleep n pc + bit (is_asleep b)
  pub of_handling :
      count is_handling n pc' + bit (is_handling a) ≡ count is_handling n pc + bit (is_handling b)

moved :
    (n : ℕ) (pc : ℕ → Worker) (i : ℕ) (a b : Worker)
    → i < n
    → pc i ≡ a
    → Moved n pc a b (assign pc i b)
moved n pc i a b lt e = rw (← e) (record {
  of_ready = count-assign is_ready n pc i b lt;
  of_asleep = count-assign is_asleep n pc i b lt;
  of_handling = count-assign is_handling n pc i b lt;
})

asleep-zero :
    (n : ℕ) (pc : ℕ → Worker) → ((j : ℕ) → j < n → pc j ≢ asleep) → count is_asleep n pc ≡ 0
asleep-zero n pc none_asleep = elim (dec_lt 0 (count is_asleep n pc)) [
  | yes some_asleep ↦
      let (j, lt, hit) = count-witness is_asleep n pc some_asleep in
      absurd (none_asleep j lt (asleep_of (pc j) hit))
  | no nobody ↦ omega arith
]
  where
    asleep_of : (w : Worker) → is_asleep w ≡ true → w ≡ asleep
    asleep_of asleep h = refl
    asleep_of w h = cc

module _ {n : ℕ} {s : Pool} (inv : Inv n s) where
  master_turn-Inv : s.master ≡ testing → Inv n (master_turn s)
  unfolding master_turn
  master_turn-Inv e = ground arith

  master_wakes-Inv : s.master ≡ waiting → Inv n (record s { master = testing })
  master_wakes-Inv e = ground arith

  module _ (i : ℕ) (lt : i < n) where
    worker_wakes-Inv : s.pc i ≡ asleep → Inv n (record s { pc = assign s.pc i ready })
    worker_wakes-Inv e = ground (arith, moved n s.pc i asleep ready lt e)

    worker_done-Inv : {c : ℤ} → s.pc i ≡ handling c → Inv n (worker_done s i)
    unfolding worker_done
    worker_done-Inv {c} e = ground (arith, moved n s.pc i (handling c) ready lt e)

    take_job-Inv : (q : List ℤ) → s.queue ≡ q → s.pc i ≡ ready → Inv n (worker_turn s i)
    unfolding worker_turn
    take_job-Inv [] none_left e = rw none_left (ground (arith, moved n s.pc i ready asleep lt e))
    take_job-Inv (c ∷ rest) head e = rw head (record {
      active = ground (arith, moved n s.pc i ready (handling c) lt e);
      within = ground (arith, moved n s.pc i ready (handling c) lt e);
      sleeping = ground (arith, moved n s.pc i ready (handling c) lt e);
      full = ground (arith, moved n s.pc i ready (handling c) lt e);
      order =
          inv.order ∙ ap (λ q. s.started ++ q) head ∙ sym (append_assoc s.started (c ∷ []) rest);
    })

  module _ (c : ℤ) (e : s.master ≡ accepting) where
    master_enqueue-Inv : {pc : ℕ → Worker} → Woken n s.pc pc → Inv n (master_enqueue s c pc)
    unfolding master_enqueue
    master_enqueue-Inv (woken j lt at) = record {
      active = ground (arith, moved n s.pc j asleep ready lt at);
      within = ground (arith, length-append s.queue (c ∷ []));
      sleeping = ground (arith, length-append s.queue (c ∷ []), moved n s.pc j asleep ready lt at);
      full = ground arith;
      order = ap (λ q. q ++ (c ∷ [])) inv.order ∙ append_assoc s.started s.queue (c ∷ []);
    }
    master_enqueue-Inv (lost nobody) = record {
      active = inv.active;
      within = ground (arith, length-append s.queue (c ∷ []));
      sleeping = inl (asleep-zero n s.pc nobody);
      full = ground arith;
      order = ap (λ q. q ++ (c ∷ [])) inv.order ∙ append_assoc s.started s.queue (c ∷ []);
    }

start-Inv : (n max : ℕ) → Inv n (start max)
start-Inv n max = record {
  active = sym (count-zero is_handling n _ (λ i. refl));
  within = omega arith;
  sleeping = inl (count-zero is_asleep n _ (λ i. refl));
  full = inl (cc);
  order = refl;
}

pub Step-Inv : {n : ℕ} {s t : Pool} → Step n s t → Inv n s → Inv n t
Step-Inv (master_tests e) inv = master_turn-Inv inv e
Step-Inv (master_wakes e) inv = master_wakes-Inv inv e
Step-Inv (master_accepts c e w) inv = master_enqueue-Inv inv c e w
Step-Inv {s} (worker_tests i lt e) inv = take_job-Inv inv i lt s.queue refl e
Step-Inv (worker_wakes i lt e) inv = worker_wakes-Inv inv i lt e
Step-Inv (worker_finishes i lt e) inv = worker_done-Inv inv i lt e

-- The invariant holds in every state that `main` and `n` workers can reach.
pub Reach-Inv : {n max : ℕ} {s : Pool} → Reach n max s → Inv n s
Reach-Inv {n} {max} here = start-Inv n max
Reach-Inv (next r st) = Step-Inv st (Reach-Inv r)
