-- ===== src/Server/Rio/Block.antt =====
-- `rio_readnb` of segel.c reads what it is asked for, whatever the buffer holds.
use mathlib.Core.List.{append_assoc, append-nil}
use operating_systems_course.Prelude.{
  ℕ, zero, suc, ◌+◌, ◌-◌, ◌<◌, ◌≡◌, List, [], ◌∷◌, ◌++◌, arith, length, take, drop, sym, ap, ◌∙◌,
  take-nil, drop-nil, take-append_of_le, drop-append_of_le, Bool-cases, ◌==◌, inl, inr, eqb→eq,
  eqb→ne,
}
use operating_systems_course.Server.Rio.{Source, Rio, done, rio_readnb_loop, rio_readnb}
use operating_systems_course.Server.Rio.Laws.{Ends, fine, mono, bind, IsPosix}
use operating_systems_course.Server.Rio.Read.{pending, Next, rio_read-Next}

module _ (S : Source) (posix : IsPosix S) where
  open posix use {patience, IsBroken}

  -- The next `n` bytes, or all if there are fewer, behind `acc`; the others are still to come.
  abbrev Took : ℕ → Rio S → List ℕ → List ℕ × Rio S → Type 0
  Took n r acc (bs, r') =
      (bs ≡ acc ++ take n (pending S posix r)) × (pending S posix r' ≡ drop n (pending S posix r))

  some-Took :
      (fuel n : ℕ) (r : Rio S) (acc bs : List ℕ) (r' : Rio S)
      → ((n : ℕ) (r : Rio S) (acc : List ℕ)
          → n + patience r.state < fuel
          → Ends (IsBroken r.state) (Took n r acc) (rio_readnb_loop S fuel n r acc))
      → n + patience r.state < suc fuel
      → 0 < n
      → Next S posix n r (bs, r')
      → Ends (IsBroken r'.state) (Took n r acc) (elim bs [
        | [] ↦ done (acc, r')
        | b ∷ rest ↦ rio_readnb_loop S fuel (n - length (b ∷ rest)) r' (acc ++ (b ∷ rest))
      ])
  some-Took fuel n r acc [] r' ih lt pos next =
      let none : pending S posix r ≡ [] = ground (arith, next.some_bytes) in
      fine (rw (none, take-nil, append-nil), sym next.front ∙ rw (none, drop-nil))
  some-Took fuel n r acc (b ∷ bs) r' ih lt pos next =
      mono (ih (n - length (b ∷ bs)) r' (acc ++ (b ∷ bs)) (omega (arith, next.patient))) (λ z. z)
        λ (out, r'') (e, left). (
          e
              ∙ append_assoc acc (b ∷ bs) _
              ∙ ap (λ t. acc ++ t)
                  (sym (take-append_of_le n (b ∷ bs) (pending S posix r') next.bound))
              ∙ ap (λ t. acc ++ take n t) (sym next.front),
          left
              ∙ sym (drop-append_of_le n (b ∷ bs) (pending S posix r') next.bound)
              ∙ ap (drop n) (sym next.front),
        )

  rio_readnb_loop-Took :
      (fuel n : ℕ) (r : Rio S) (acc : List ℕ)
      → n + patience r.state < fuel
      → Ends (IsBroken r.state) (Took n r acc) (rio_readnb_loop S fuel n r acc)
  unfolding rio_readnb_loop
  rio_readnb_loop-Took zero n r acc lt = absurd (omega arith)
  rio_readnb_loop-Took (suc fuel) n r acc lt = elim (Bool-cases (n == 0)) [
    | inl stop ↦ rw stop (fine (rw (eqb→eq n 0 stop, append-nil), rw (eqb→eq n 0 stop)))
    | inr go ↦ rw go (
        bind (rio_read-Next S posix (suc fuel) r n (omega arith) (omega (arith, eqb→ne n 0 go)))
          λ (bs, r') next.
            mono
              (some-Took fuel n r acc bs r' (rio_readnb_loop-Took fuel) lt
                (omega (arith, eqb→ne n 0 go)) next)
              next.sound λ out took. took)
  ]

  -- `rio_readnb` with enough fuel returns: -1 only if the descriptor is broken, and otherwise the next `n` bytes to
  -- come, from the buffer and then the descriptor, or all if there are fewer; the bytes after these are
  -- then to come.
  pub rio_readnb-take :
      (fuel n : ℕ) (r : Rio S)
      → n + patience r.state < fuel
      → Ends
          (IsBroken r.state)
          (λ (bs, r').
            (bs ≡ take n (pending S posix r)) × (pending S posix r' ≡ drop n (pending S posix r)))
          (rio_readnb S fuel r n)
  unfolding rio_readnb
  rio_readnb-take fuel n r lt = rio_readnb_loop-Took fuel n r [] lt
