-- ===== src/Allocator/Client.antt =====
-- A program that uses `smalloc` and `sfree` of malloc_3.cpp as it should: it gives back what it holds.
pub mod Held
pub mod Served
pub mod Given
pub mod Session
use operating_systems_course.Prelude.{
  ℕ, zero, suc, ◌-◌, Option, none, some, List, [], ◌∷◌, ◌==◌, if◌then◌else◌,
}
use operating_systems_course.Server.Run.{Run, ok, ◌>>=◌}
use operating_systems_course.Allocator.Buddy.{Tracker}
use operating_systems_course.Allocator.Calls.{Os, smalloc, sfree}

-- A request for memory, or a region that is given back, by its place among those that are held.
pub data Call : Type 0 where
  take : (size : ℕ) → Call
  give : (place : ℕ) → Call

-- What a call of `smalloc` returned, and the size that was asked for.
pub record Region : Type 0 where
  pub start : ℕ
  pub size : ℕ

pub record Client : Type 0 where
  pub table : Tracker
  pub held : List Region

-- A region that was picked, with one more region left behind.
pub behind : Region → Option (Region × List Region) → Option (Region × List Region)
behind x none = none
behind x (some (y, ys)) = some (y, x ∷ ys)

-- The region at a place, and the others.
pub pick : (place : ℕ) → List Region → Option (Region × List Region)
unfolding behind
pick place [] = none
pick zero (x ∷ xs) = some (x, xs)
pick (suc place) (x ∷ xs) = behind x (pick place xs)

pub take_region : (fuel : ℕ) → Os → Client → (size : ℕ) → Run Client
take_region fuel os c size = smalloc fuel os c.table size >>= λ (t, p). ok (
    if p == 0
    then record c { table = t }
    else record { table = t; held = (record { start = p; size = size }) ∷ c.held })

pub give_region :
    (fuel : ℕ) → Os → Tracker → List Region → Option (Region × List Region) → Run Client
give_region fuel os t held none = ok (record { table = t; held = held })
give_region fuel os t held (some (x, others)) =
    sfree fuel os t x.start >>= λ t'. ok (record { table = t'; held = others })

pub call : (fuel : ℕ) → Os → Client → Call → Run Client
unfolding take_region give_region pick
call fuel os c (take size) = take_region fuel os c size
call fuel os c (give place) = give_region fuel os c.table c.held (pick place c.held)

pub run : (fuel : ℕ) → Os → Client → List Call → Run Client
unfolding call
run fuel os c [] = ok c
run fuel os c (x ∷ xs) = call fuel os c x >>= λ c'. run fuel os c' xs
