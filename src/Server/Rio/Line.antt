-- ===== src/Server/Rio/Line.antt =====
-- `rio_readlineb` of segel.c reads a line, however the bytes arrive.
use mathlib.Core.List.{append_assoc, append-nil}
use operating_systems_course.Prelude.{
  ℕ, zero, suc, ◌+◌, ◌-◌, ◌≤◌, ◌<◌, ◌≡◌, refl, Bool, true, false, List, [], ◌∷◌, ◌++◌, arith,
  length, sym, ap, ◌∙◌, Bool-cases, ◌==◌, inl, inr, eqb→eq, eqb→ne, ◌⊎◌, ◌≢◌, if◌then◌else◌,
}
use operating_systems_course.Server.Rio.{
  Io, done, Source, Rio, newline, after_byte, rio_readlineb_loop, rio_readlineb,
}
use operating_systems_course.Server.Rio.Laws.{Ends, fine, mono, bind, IsPosix}
use operating_systems_course.Server.Rio.Read.{pending, rio_read-Next}

-- The line at the front of some bytes: up to and with the first newline, but at most `k` bytes.
unfoldable pub line_of : ℕ → List ℕ → List ℕ
line_of zero bs = []
line_of (suc k) [] = []
line_of (suc k) (b ∷ bs) = b ∷ (if b == newline then [] else line_of k bs)

unfoldable pub ends_line : List ℕ → Bool
ends_line [] = false
ends_line (b ∷ []) = b == newline
ends_line (b ∷ (c ∷ bs)) = ends_line (c ∷ bs)

abbrev pub is_nil : List ℕ → Bool
is_nil [] = true
is_nil (b ∷ bs) = false

abbrev one_if : Bool → ℕ
one_if b = if b then 1 else 0

module _ (S : Source) (posix : IsPosix S) where
  open S use {State}
  open posix use {contents, patience, IsBroken, reply}

  -- What the loop makes of the bytes `bs` to come, from count `n` with `k` rounds left.
  record Got (k n : ℕ) (acc bs : List ℕ) (out : ℕ × List ℕ × Rio S) : Type 0 where
    pub stored : out.1 ≡ acc ++ line_of k bs
    pub rest : bs ≡ line_of k bs ++ pending S posix out.2
    pub count :
        ((out.0 ≡ 0) × (n ≡ 1) × (bs ≡ []))
        ⊎ (((n ≢ 1) ⊎ ((k ≡ 0) ⊎ (bs ≢ [])))
            × (out.0 + one_if (ends_line (line_of k bs)) ≡ n + length (line_of k bs)))

  ends_line-cons :
      (c : ℕ) (bs : List ℕ) → (c == newline) ≡ false → ends_line (c ∷ bs) ≡ ends_line bs
  unfolding ends_line
  ends_line-cons c [] e = e
  ends_line-cons c (b ∷ bs) e = refl

  -- Another byte in front of a line that goes on.
  Got-cons :
      (k n c : ℕ) (acc bs : List ℕ) (out : ℕ × List ℕ × Rio S)
      → (c == newline) ≡ false
      → 0 < n
      → Got k (n + 1) (acc ++ (c ∷ [])) bs out
      → Got (suc k) n acc (c ∷ bs) out
  unfolding line_of
  Got-cons k n c acc bs out e pos g = record {
    stored = rw e (g.stored ∙ append_assoc acc (c ∷ []) (line_of k bs));
    rest = rw e (ap (λ t. c ∷ t) g.rest);
    count =
        inr
          (inr (inr (λ q. cc)), rw e (ground (arith, g.count, ends_line-cons c (line_of k bs) e)));
  }

  module _ (again : ℕ → List ℕ → Rio S → Io (ℕ × List ℕ × Rio S)) (n c : ℕ) (acc rest : List ℕ)
      (r : Rio S) where
    after_byte-stop :
        (c == newline) ≡ true → after_byte S again n acc (c ∷ rest) r ≡ done (n, acc ++ (c ∷ []), r)
    unfolding after_byte
    after_byte-stop e = ground (arith, e)

    after_byte-more :
        (c == newline) ≡ false
        → after_byte S again n acc (c ∷ rest) r ≡ again (n + 1) (acc ++ (c ∷ [])) r
    unfolding after_byte
    after_byte-more e = ground (arith, e)

  after_byte-Got :
      (fuel k n : ℕ) (acc bs : List ℕ) (r : Rio S) (all : List ℕ)
      → ((acc : List ℕ) (r : Rio S)
          → patience r.state < fuel
          → Ends
              (IsBroken r.state)
              (Got k (n + 1) acc (pending S posix r))
              (rio_readlineb_loop S fuel k (n + 1) acc r))
      → all ≡ bs ++ pending S posix r
      → length bs ≤ 1
      → (0 < length bs) ⊎ (all ≡ [])
      → patience r.state < fuel
      → (n ≡ 1 → acc ≡ [])
      → 0 < n
      → Ends
          (IsBroken r.state)
          (Got (suc k) n acc all)
          (after_byte S (rio_readlineb_loop S fuel k) n acc bs r)
  unfolding after_byte line_of ends_line
  after_byte-Got fuel k n acc [] r all ih front bound (inl some_bytes) lt fresh pos =
      absurd (omega arith)
  after_byte-Got fuel k n acc [] r all ih front bound (inr nothing) lt fresh pos =
      elim (Bool-cases (n == 1)) [
        | inl first ↦
            rw (first, nothing)
              (fine (record {
                stored = sym (append-nil acc ∙ fresh (eqb→eq n 1 first));
                rest = sym nothing ∙ front;
                count = inl (refl, eqb→eq n 1 first, refl);
              }))
        | inr later ↦
            rw (later, nothing)
              (fine (record {
                stored = sym (append-nil acc);
                rest = sym nothing ∙ front;
                count = inr (inl (eqb→ne n 1 later), omega arith);
              }))
      ]
  after_byte-Got fuel k n acc (c ∷ (d ∷ bs)) r all ih front bound some_bytes lt fresh pos =
      absurd (omega arith)
  after_byte-Got fuel k n acc (c ∷ []) r all ih front bound some_bytes lt fresh pos =
      elim (Bool-cases (c == newline)) [
        | inl stop ↦
            rw (front, after_byte-stop _ n c acc [] r stop)
              (fine (record {
                stored = rw stop;
                rest = rw stop;
                count = inr (inr (inr (λ q. cc)), rw (stop, stop) (omega arith));
              }))
        | inr go ↦
            rw (front, after_byte-more _ n c acc [] r go)
              (mono (ih (acc ++ (c ∷ [])) r lt) (λ z. z)
                λ out g. Got-cons k n c acc (pending S posix r) out go pos g)
      ]

  rio_readlineb_loop-Got :
      (fuel k n : ℕ) (acc : List ℕ) (r : Rio S)
      → patience r.state < fuel
      → (n ≡ 1 → acc ≡ [])
      → 0 < n
      → Ends
          (IsBroken r.state)
          (Got k n acc (pending S posix r))
          (rio_readlineb_loop S fuel k n acc r)
  unfolding rio_readlineb_loop line_of ends_line
  rio_readlineb_loop-Got fuel zero n acc r lt fresh pos = fine (record {
    stored = sym (append-nil acc);
    rest = refl;
    count = inr (inr (inl refl), omega arith);
  })
  rio_readlineb_loop-Got fuel (suc k) n acc r lt fresh pos =
      bind (rio_read-Next S posix fuel r 1 lt (omega arith)) λ (bs, r') next.
        mono
          (after_byte-Got fuel k n acc bs r' (pending S posix r)
            (λ acc' r'' lt'.
              rio_readlineb_loop-Got fuel k (n + 1) acc' r'' lt' (λ e. absurd (omega arith))
                (omega arith))
            next.front next.bound next.some_bytes (omega (arith, next.patient)) fresh pos)
          next.sound λ out g. g

  result_of :
      (k : ℕ) (bs : List ℕ) (out : ℕ × List ℕ × Rio S)
      → 0 < k
      → Got k 1 [] bs out
      → out.0
        ≡ (if is_nil bs then 0 else if ends_line out.1 then length out.1 else length out.1 + 1)
  result_of k [] out room g = ground (arith, g.count)
  result_of k (b ∷ bs) out room g = rw g.stored (ground (arith, g.count))

  -- `rio_readlineb` with room for at least one byte and enough fuel returns: -1 only if the descriptor
  -- is broken, and otherwise with the line at the front of the bytes to come, of at most `maxlen - 1` bytes, in the
  -- caller's buffer, and the bytes after it to come. The result is 0 if there was no byte; the length
  -- of what it stored if that ends in a newline; and one more than that otherwise.
  pub rio_readlineb_lem :
      (fuel maxlen : ℕ) (r : Rio S)
      → patience r.state < fuel
      → 1 < maxlen
      → Ends
          (IsBroken r.state)
          (λ (n, stored, r').
            (stored ≡ line_of (maxlen - 1) (pending S posix r))
            × (pending S posix r ≡ stored ++ pending S posix r')
            × (n ≡ (
                if is_nil (pending S posix r)
                then 0
                else if ends_line stored
                then length stored
                else length stored + 1)))
          (rio_readlineb S fuel r maxlen)
  unfolding rio_readlineb
  rio_readlineb_lem fuel maxlen r lt room =
      mono (rio_readlineb_loop-Got fuel (maxlen - 1) 1 [] r lt (λ e. refl) (omega arith)) (λ z. z)
        λ out g. (
          g.stored,
          g.rest ∙ ap (λ t. t ++ pending S posix out.2) (sym g.stored),
          result_of (maxlen - 1) (pending S posix r) out (omega arith) g,
        )
