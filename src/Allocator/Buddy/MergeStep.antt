-- ===== src/Allocator/Buddy/MergeStep.antt =====
-- A round of the loop of `attemptFreeBuddyMerge` of malloc_3.cpp.
use operating_systems_course.Prelude.{
  ℕ, suc, ◌<◌, ◌≡◌, Bool, true, false, not, ◌&&◌, some, ◌==◌, if◌then◌else◌, arith, ap, ◌∙◌, inl,
  inr, Bool-cases, eqb→eq, ltb,
}
use operating_systems_course.Server.Run.{Run, ok, ◌>>=◌, step}
use operating_systems_course.Allocator.{MetaData, load}
use operating_systems_course.Allocator.Links.Chain.{linked, load-some}
use operating_systems_course.Allocator.Buddy.{Tracker, find_buddy, merge_once, merge_loop}
use operating_systems_course.Allocator.Buddy.Sizes.{
  payload, block_size-ge, block_size-suc, block_size_mono,
}

-- The size in a header tells the order.
pub payload-injective : (j k : ℕ) → payload j ≡ payload k → j ≡ k
payload-injective j k e = elim (Bool-cases (j == k)) [
  | inl here ↦ eqb→eq j k here
  | inr n ↦ elim (Bool-cases (ltb j k)) [
    | inl below ↦ absurd (
        omega (
          arith,
          block_size_mono (suc j) k (ground arith),
          block_size-suc j,
          block_size-ge j,
          block_size-ge k,
        ))
    | inr above ↦ absurd (
        omega (
          arith,
          block_size_mono (suc k) j (ground arith),
          block_size-suc k,
          block_size-ge j,
          block_size-ge k,
        ))
  ]
]

-- The test of the loop.
abbrev pub goes_on : (mb m : MetaData) → (order target : ℕ) → Bool
goes_on mb m order target = mb.is_free && (m.size == mb.size && not (order == target))

module _ (fuel : ℕ) (t : Tracker) (target order current buddy final : ℕ) (mb m : MetaData)
    (buddy_pos : 0 < buddy) (current_pos : 0 < current) (at_buddy : t.heap buddy ≡ some mb)
    (at_current : t.heap current ≡ some m) where
  abbrev loop_rest : Bool → Run (Tracker × ℕ)
  loop_rest test = elim test [
    | false ↦ ok (t, final)
    | true ↦ merge_once fuel t order current buddy >>= λ (t', order', merged).
        load t'.heap merged >>= λ m'.
        let current' = if order' == target then current else merged in
        let buddy' = if order' == target then buddy else find_buddy merged m'.size in
        merge_loop fuel t' target order' current' buddy' merged
  ]

  merge_loop-test :
      merge_loop (suc fuel) t target order current buddy final
      ≡ loop_rest (goes_on mb m order target)
  unfolding merge_loop
  merge_loop-test =
      step _ (load-some t.heap buddy mb buddy_pos at_buddy)
      ∙ step _ (load-some t.heap current m current_pos at_current)

  pub merge_loop-stop :
      goes_on mb m order target ≡ false
      → merge_loop (suc fuel) t target order current buddy final ≡ ok (t, final)
  merge_loop-stop e = merge_loop-test ∙ ap loop_rest e

  pub merge_loop-go :
      (t' : Tracker) (merged size q r : ℕ)
      → goes_on mb m order target ≡ true
      → merge_once fuel t order current buddy ≡ ok (t', suc order, merged)
      → 0 < merged
      → t'.heap merged ≡ some (linked size q r)
      → merge_loop (suc fuel) t target order current buddy final
        ≡ merge_loop fuel t' target
            (suc order)
            (if suc order == target then current else merged)
            (if suc order == target then buddy else find_buddy merged size)
            merged
  merge_loop-go t' merged size q r e runs pos at_merged =
      merge_loop-test
      ∙ ap loop_rest e
      ∙ step _ runs
      ∙ step _ (load-some t'.heap merged (linked size q r) pos at_merged)
