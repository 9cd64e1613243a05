-- ===== src/Server/Run.antt =====
-- How a piece of the web server ends, and the time stamps it carries.
use operating_systems_course.Prelude.{ℕ, ◌≡◌, ap, refl}

-- A value, `exit(code)`, or a fault: an access through a null or dangling pointer.
pub data Run {ℓ} (A : Type ℓ) : Type ℓ where
  ok : A → Run A
  exit : ℕ → Run A
  fault : Run A

infixl 5 ◌>>=◌
abbrev pub ◌>>=◌ {i j} : {X : Type i} {Y : Type j} → Run X → (X → Run Y) → Run Y
fault >>= rest = fault
exit code >>= rest = exit code
ok x >>= rest = rest x

-- A run that ends well, in a state with the property.
pub data Returns {A : Type 0} (P : A → Type 0) : Run A → Type 0 where
  returns : {a : A} → P a → Returns P (ok a)

pub bind :
    {A B : Type 0} {P : A → Type 0} {Q : B → Type 0} {r : Run A} {f : A → Run B}
    → Returns P r
    → ((a : A) → P a → Returns Q (f a))
    → Returns Q (r >>= f)
bind (returns p) next = next _ p

pub mono :
    {A : Type 0} {P Q : A → Type 0} {r : Run A} → Returns P r → ((a : A) → P a → Q a) → Returns Q r
mono (returns p) weaken = returns (weaken _ p)

-- `struct timeval`
pub record Timeval : Type 0 where
  pub tv_sec : ℕ
  pub tv_usec : ℕ

-- A run behind one that ends well.
pub step {i j} :
    {X : Type i} {Y : Type j} {r : Run X} {x : X} (f : X → Run Y) → r ≡ ok x → (r >>= f) ≡ f x
step f e = ap (λ t. t >>= f) e

pub returns_at : {A : Type 0} {P : A → Type 0} {r : Run A} {a : A} → r ≡ ok a → P a → Returns P r
returns_at e p = rw e (returns p)

pub same : {A : Type 0} {P : A → Type 0} {r r' : Run A} → r ≡ r' → Returns P r' → Returns P r
same e p = rw e p

-- The value of a run that ends well.
pub value_of : {A : Type 0} {P : A → Type 0} {r : Run A} → Returns P r → (a : A) × (r ≡ ok a) × P a
value_of (returns p) = (_, refl, p)
