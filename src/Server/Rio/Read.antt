-- ===== src/Server/Rio/Read.antt =====
-- `rio_readn` of segel.c reads what it is asked for, and the buffer of `rio_read` does not show.
use mathlib.Core.List.{append_assoc, append-nil}
use operating_systems_course.Prelude.{
  ℕ, zero, suc, ◌+◌, ◌-◌, ◌≤◌, ◌<◌, ◌≡◌, refl, List, [], ◌∷◌, ◌++◌, arith, length, take, drop, sym,
  ap, ◌∙◌, take-nil, drop-nil, take-append_of_le, drop-append_of_le, Bool-cases, ◌==◌, inl, inr,
  eqb→eq, eqb→ne, ◌⊎◌, length-take, take-append-drop,
}
use operating_systems_course.Server.Rio.{
  Reply, Io, Source, after_read, rio_readn_loop, rio_readn, Rio, after_refill, refill, rio_read,
  rio_bufsize,
}
use operating_systems_course.Server.Rio.Laws.{
  Ends, fine, error, mono, bind, Reads, reads, ends, waits, fails, IsPosix,
}

module _ (S : Source) (posix : IsPosix S) where
  open S use {State}
  open posix use {contents, patience, IsBroken, reply}

  -- The next `n` bytes, or all if there are fewer, behind `acc`; the descriptor delivers the others.
  abbrev Took : ℕ → State → List ℕ → List ℕ × State → Type 0
  Took n s acc (bs, s') = (bs ≡ acc ++ take n (contents s)) × (contents s' ≡ drop n (contents s))

  after_read-Took :
      (fuel : ℕ) (again : ℕ → State → List ℕ → Io (List ℕ × State))
      → ((n : ℕ) (s : State) (acc : List ℕ)
          → n + patience s < fuel
          → Ends (IsBroken s) (Took n s acc) (again n s acc))
      → (n : ℕ) (s : State) (acc : List ℕ) → n + patience s < suc fuel
      → 0 < n
      → {r : Reply (List ℕ) × State} → Reads contents patience IsBroken n s r
      → Ends (IsBroken s) (Took n s acc) (after_read again r.0 n r.1 acc)
  unfolding after_read
  after_read-Took fuel again ih n s acc lt pos (reads {b} {bs} {s'} le next wait sound) =
      mono (ih (n - length (b ∷ bs)) s' (acc ++ (b ∷ bs)) (omega arith)) sound
        λ (out, s'') (e, left). (
          e
              ∙ append_assoc acc (b ∷ bs) _
              ∙ ap (λ t. acc ++ t) (sym (take-append_of_le n (b ∷ bs) (contents s') le))
              ∙ ap (λ t. acc ++ take n t) (sym next),
          left ∙ sym (drop-append_of_le n (b ∷ bs) (contents s') le) ∙ ap (drop n) (sym next),
        )
  after_read-Took fuel again ih n s acc lt pos (ends none none' wait sound) =
      fine (rw (none, take-nil, append-nil), rw (none, none', drop-nil))
  after_read-Took fuel again ih n s acc lt pos (waits {s'} same wait sound) =
      mono (ih n s' acc (omega arith)) sound
        λ (out, s'') (e, left). (e ∙ ap (λ t. acc ++ take n t) same, left ∙ ap (drop n) same)
  after_read-Took fuel again ih n s acc lt pos (fails broken) = error broken

  rio_readn_loop-Took :
      (fuel n : ℕ) (s : State) (acc : List ℕ)
      → n + patience s < fuel
      → Ends (IsBroken s) (Took n s acc) (rio_readn_loop S fuel n s acc)
  unfolding rio_readn_loop
  rio_readn_loop-Took zero n s acc lt = absurd (omega arith)
  rio_readn_loop-Took (suc fuel) n s acc lt = elim (Bool-cases (n == 0)) [
    | inl stop ↦ rw stop (fine (rw (eqb→eq n 0 stop, append-nil), rw (eqb→eq n 0 stop)))
    | inr go ↦ rw go (
        after_read-Took fuel (rio_readn_loop S fuel) (rio_readn_loop-Took fuel) n s acc lt
          (omega (arith, eqb→ne n 0 go)) (reply n s (omega (arith, eqb→ne n 0 go))))
  ]

  -- `rio_readn` with enough fuel returns: -1 only if the descriptor is broken, and otherwise,
  -- whatever interruptions there are, the next `n` bytes, or all that are left if there are fewer;
  -- the descriptor then delivers the bytes after these.
  pub rio_readn-take :
      (fuel n : ℕ) (s : State)
      → n + patience s < fuel
      → Ends
          (IsBroken s)
          (λ (bs, s'). (bs ≡ take n (contents s)) × (contents s' ≡ drop n (contents s)))
          (rio_readn S fuel n s)
  unfolding rio_readn
  rio_readn-take fuel n s lt = rio_readn_loop-Took fuel n s [] lt

  -- The bytes that a buffered reader will deliver: those in the buffer, then the descriptor's.
  abbrev pub pending : Rio S → List ℕ
  pending r = r.unread ++ contents r.state

  -- The refill loop keeps what is to come, and leaves the buffer empty only at end of file.
  record Refilled (r r' : Rio S) : Type 0 where
    pub same : pending r' ≡ pending r
    pub stocked : (0 < length r'.unread) ⊎ (pending r ≡ [])
    pub patient : patience r'.state ≤ patience r.state
    pub sound : IsBroken r'.state → IsBroken r.state

  after_refill-Refilled :
      (fuel : ℕ) (again : Rio S → Io (Rio S))
      → ((r : Rio S) → patience r.state < fuel → Ends (IsBroken r.state) (Refilled r) (again r))
      → (s : State) → patience s < suc fuel
      → {a : Reply (List ℕ) × State} → Reads contents patience IsBroken rio_bufsize s a
      → Ends
          (IsBroken s)
          (Refilled (record { unread = []; state = s }))
          (after_refill S again a.0 a.1)
  unfolding after_refill
  after_refill-Refilled fuel again ih s lt (reads le next wait sound) =
      fine (record { same = sym next; stocked = inl (omega arith); patient = wait; sound = sound })
  after_refill-Refilled fuel again ih s lt (ends none none' wait sound) =
      fine (record { same = none' ∙ sym none; stocked = inr none; patient = wait; sound = sound })
  after_refill-Refilled fuel again ih s lt (waits {s'} same wait sound) =
      mono (ih (record { unread = []; state = s' }) (omega arith)) sound λ r' f. record {
        same = f.same ∙ same;
        stocked = ground (arith, f.stocked);
        patient = omega (arith, f.patient);
        sound = λ b. sound (f.sound b);
      }
  after_refill-Refilled fuel again ih s lt (fails broken) = error broken

  refill-Refilled :
      (fuel : ℕ) (un : List ℕ) (s : State)
      → patience s < fuel
      → Ends
          (IsBroken s)
          (Refilled (record { unread = un; state = s }))
          (refill S fuel (record { unread = un; state = s }))
  unfolding refill
  refill-Refilled zero un s lt = absurd (omega arith)
  refill-Refilled (suc fuel) (b ∷ bs) s lt =
      fine
        (record { same = refl; stocked = inl (omega arith); patient = omega arith; sound = λ b. b })
  refill-Refilled (suc fuel) [] s lt =
      after_refill-Refilled fuel (refill S fuel) (λ r. refill-Refilled fuel r.unread r.state) s lt
        (reply rio_bufsize s (omega arith))

  -- `rio_read` of `n` bytes, at least one: the next bytes to come, at most `n`, and none only at end of
  -- file.
  pub record Next (n : ℕ) (r : Rio S) (out : List ℕ × Rio S) : Type 0 where
    pub front : pending r ≡ out.0 ++ pending out.1
    pub bound : length out.0 ≤ n
    pub some_bytes : (0 < length out.0) ⊎ (pending r ≡ [])
    pub patient : patience out.1.state ≤ patience r.state
    pub sound : IsBroken out.1.state → IsBroken r.state

  pub rio_read-Next :
      (fuel : ℕ) (r : Rio S) (n : ℕ)
      → patience r.state < fuel
      → 0 < n
      → Ends (IsBroken r.state) (Next n r) (rio_read S fuel r n)
  unfolding rio_read
  rio_read-Next fuel r n lt pos = bind (refill-Refilled fuel r.unread r.state lt) λ r' f.
      fine (record {
        front = sym f.same ∙ rw (← append_assoc, take-append-drop);
        bound = omega (arith, length-take n r'.unread);
        some_bytes = ground (arith, f.stocked, length-take n r'.unread);
        patient = f.patient;
        sound = f.sound;
      })
