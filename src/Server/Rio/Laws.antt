-- ===== src/Server/Rio/Laws.antt =====
-- What POSIX says of `read` and `write`, and the runs that these laws allow.
use operating_systems_course.Prelude.{ℕ, ◌≤◌, ◌<◌, ◌≡◌, List, [], ◌∷◌, ◌++◌, length, take}
use operating_systems_course.Server.Rio.{
  Reply, got, eof, interrupted, failed, Io, done, io_error, and_then, Source, Sink,
}

-- What one reply says of the bytes that come after it.
pub data Reads {S : Type 0} (contents : S → List ℕ) (patience : S → ℕ) (IsBroken : S → Type 0)
    (n : ℕ) (s : S) : Reply (List ℕ) × S → Type 0 where
  reads :
      {b : ℕ} {bs : List ℕ} {s' : S}
      → length (b ∷ bs) ≤ n
      → contents s ≡ (b ∷ bs) ++ contents s'
      → patience s' ≤ patience s
      → (IsBroken s' → IsBroken s)
      → Reads contents patience IsBroken n s (got (b ∷ bs), s')
  ends :
      {s' : S}
      → contents s ≡ []
      → contents s' ≡ []
      → patience s' ≤ patience s
      → (IsBroken s' → IsBroken s)
      → Reads contents patience IsBroken n s (eof, s')
  waits :
      {s' : S}
      → contents s' ≡ contents s
      → patience s' < patience s
      → (IsBroken s' → IsBroken s)
      → Reads contents patience IsBroken n s (interrupted, s')
  fails : {s' : S} → IsBroken s → Reads contents patience IsBroken n s (failed, s')

-- `contents` are the bytes that a descriptor will deliver, `patience` how often a call on it will
-- still be interrupted. A call for at least one byte gives the next ones, at least one and at most as
-- many as asked for; end of file comes after the last. A call fails, other than by an interruption,
-- only on a descriptor that is broken; one that is not does not become so.
pub record IsPosix (S : Source) : Type 1 where
  pub contents : S.State → List ℕ
  pub patience : S.State → ℕ
  pub IsBroken : S.State → Type 0
  pub reply : (n : ℕ) (s : S.State) → 0 < n → Reads contents patience IsBroken n s (S.read n s)

-- A run that ends, in a value with the property, or in -1 for a reason.
pub data Ends {A : Type 0} (Broken : Type 0) (P : A → Type 0) : Io A → Type 0 where
  fine : {a : A} → P a → Ends Broken P (done a)
  error : Broken → Ends Broken P io_error

pub mono :
    {A : Type 0} {D E : Type 0} {P Q : A → Type 0} {r : Io A}
    → Ends D P r
    → (D → E)
    → ((a : A) → P a → Q a)
    → Ends E Q r
mono (fine p) reason weaken = fine (weaken _ p)
mono (error d) reason weaken = error (reason d)

pub bind :
    {A B : Type 0} {E : Type 0} {P : A → Type 0} {Q : B → Type 0} {r : Io A} {f : A → Io B}
    → Ends E P r
    → ((a : A) → P a → Ends E Q (f a))
    → Ends E Q (and_then r f)
bind (fine p) next = next _ p
bind (error d) next = error d

-- What one reply to `write` says of the bytes that have gone out.
pub data Writes {S : Type 0} (sent : S → List ℕ) (patience : S → ℕ) (IsBroken : S → Type 0)
    (bs : List ℕ) (s : S) : Reply ℕ × S → Type 0 where
  writes :
      {n : ℕ} {s' : S}
      → 0 < n
      → n ≤ length bs
      → sent s' ≡ sent s ++ take n bs
      → patience s' ≤ patience s
      → (IsBroken s' → IsBroken s)
      → Writes sent patience IsBroken bs s (got n, s')
  waits :
      {s' : S}
      → sent s' ≡ sent s
      → patience s' < patience s
      → (IsBroken s' → IsBroken s)
      → Writes sent patience IsBroken bs s (interrupted, s')
  fails : {s' : S} → IsBroken s → Writes sent patience IsBroken bs s (failed, s')

-- `sent` are the bytes that a descriptor has taken, in order. A call with bytes takes at least one and
-- at most all of them, from the front; it fails, other than by an interruption, only on a broken one.
pub record IsPosixSink (S : Sink) : Type 1 where
  pub sent : S.State → List ℕ
  pub patience : S.State → ℕ
  pub IsBroken : S.State → Type 0
  pub reply :
      (bs : List ℕ) (s : S.State)
      → 0 < length bs
      → Writes sent patience IsBroken bs s (S.write bs s)
