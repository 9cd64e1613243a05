-- ===== src/Server/Rio/Write.antt =====
-- `rio_writen` of segel.c writes everything.
use mathlib.Core.List.{append_assoc, append-nil}
use operating_systems_course.Prelude.{
  ap, ℕ, zero, suc, ◌+◌, ◌<◌, ◌≡◌, List, [], ◌∷◌, ◌++◌, arith, length, drop, sym, ◌∙◌, length-drop,
  take-append-drop,
}
use operating_systems_course.Server.Rio.{Reply, Io, Sink, after_write, rio_writen_loop, rio_writen}
use operating_systems_course.Server.Rio.Laws.{
  Ends, fine, error, mono, Writes, writes, waits, fails, IsPosixSink,
}

module _ (S : Sink) (posix : IsPosixSink S) where
  open S use {State}
  open posix use {sent, patience, IsBroken, reply}

  after_write-sent :
      (fuel : ℕ) (again : List ℕ → State → Io State)
      → ((bs : List ℕ) (s : State)
          → length bs + patience s < fuel
          → Ends (IsBroken s) (λ s'. sent s' ≡ sent s ++ bs) (again bs s))
      → (bs : List ℕ) (s : State) → length bs + patience s < suc fuel
      → {r : Reply ℕ × State} → Writes sent patience IsBroken bs s r
      → Ends
          (IsBroken s)
          (λ s'. sent s' ≡ sent s ++ bs)
          (after_write S.errno_is_eintr again r.0 bs r.1)
  unfolding after_write
  after_write-sent fuel again ih bs s lt (writes {n} {s'} pos le went wait sound) =
      mono (ih (drop n bs) s' (omega (arith, length-drop n bs))) sound
        λ s'' e. e ∙ rw (went, append_assoc, take-append-drop)
  after_write-sent fuel again ih bs s lt (waits {s'} same wait sound) =
      mono (ih bs s' (omega arith)) sound λ s'' e. e ∙ ap (λ x. x ++ bs) same
  after_write-sent fuel again ih bs s lt (fails broken) = error broken

  rio_writen_loop-sent :
      (fuel : ℕ) (bs : List ℕ) (s : State)
      → length bs + patience s < fuel
      → Ends (IsBroken s) (λ s'. sent s' ≡ sent s ++ bs) (rio_writen_loop S fuel bs s)
  unfolding rio_writen_loop
  rio_writen_loop-sent zero bs s lt = absurd (omega arith)
  rio_writen_loop-sent (suc fuel) [] s lt = fine (sym (append-nil (sent s)))
  rio_writen_loop-sent (suc fuel) (b ∷ bs) s lt =
      after_write-sent fuel (rio_writen_loop S fuel) (rio_writen_loop-sent fuel) (b ∷ bs) s lt
        (reply (b ∷ bs) s (omega arith))

  -- `rio_writen` with enough fuel returns: -1 only if the descriptor is broken, and otherwise with
  -- all the bytes gone out, in order, behind those sent before. Interruptions never fail it.
  pub rio_writen-sent :
      (fuel : ℕ) (bs : List ℕ) (s : State)
      → length bs + patience s < fuel
      → Ends (IsBroken s) (λ s'. sent s' ≡ sent s ++ bs) (rio_writen S fuel bs s)
  unfolding rio_writen
  rio_writen-sent fuel bs s lt = rio_writen_loop-sent fuel bs s lt
