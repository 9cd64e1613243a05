-- ===== src/Allocator/Client/Session.antt =====
-- A whole run of a client of malloc_3.cpp, from before the first call.
use operating_systems_course.Prelude.{
  Bool, ◌||◌, ℕ, ◌+◌, ◌*◌, ◌≤◌, ◌<◌, ◌≡◌, refl, true, false, some, List, [], ◌∷◌, arith, ap, sym,
  ◌∙◌, if_true, if_false, inr,
}
use operating_systems_course.Server.Run.{
  ok, Returns, returns, bind, mono, step, same, returns_at, value_of,
}
use operating_systems_course.Allocator.{meta_size}
use operating_systems_course.Allocator.Buddy.{Tracker}
use operating_systems_course.Allocator.Buddy.Tiling.{heap_size}
use operating_systems_course.Allocator.Calls.{
  Os, smalloc, init_heap, padding, mmap_min_limit, num_initial_blocks, block_size_bytes,
}
use operating_systems_course.Allocator.Calls.Init.{initial, init_heap-Inv}
use operating_systems_course.Allocator.Calls.Fresh.{initial-Tiled, padding-IsAligned}
use operating_systems_course.Allocator.Client.{
  Call, take, give, Region, Client, pick, take_region, give_region, call, run,
}
use operating_systems_course.Allocator.Client.Held.{
  Each, Pairwise, Separate, Differ, Each-mono, Pairwise-mono,
}
use operating_systems_course.Allocator.Client.Served.{IsOwned, IsServed, take_region-IsServed}
use operating_systems_course.Allocator.Client.Given.{enough_fuel, give_region-IsServed}

-- Each request is one that the table serves: at most 131040 bytes.
abbrev pub Fits : List Call → Type 0
Fits [] = Unit {0}
Fits (take size ∷ xs) = (size + meta_size ≤ mmap_min_limit) × Fits xs
Fits (give place ∷ xs) = Fits xs

-- Where the heap starts.
abbrev pub heap_start : Os → ℕ
heap_start os = os.current_break + padding os.current_break

-- Whether there is a request among the calls.
abbrev pub asks : List Call → Bool
asks [] = false
asks (take size ∷ xs) = true
asks (give place ∷ xs) = asks xs

-- Without a request nothing is held; from the first on the allocator serves the client.
pub data IsSession (os : Os) (t : Tracker) (asked : Bool) (c : Client) : Type 0 where
  unused : asked ≡ false → c ≡ record { table = t; held = [] } → IsSession os t asked c
  served : IsServed (heap_start os) c → IsSession os t asked c

abbrev pub Within : Os → Region → Type 0
Within os x = (heap_start os ≤ x.start) × (x.start + x.size ≤ heap_start os + heap_size)

-- The regions held lie in the heap, and no two of them share a byte.
pub record IsSound (os : Os) (t : Tracker) (asked : Bool) (c : Client) : Type 0 where
  pub session : IsSession os t asked c
  pub apart : Pairwise Separate c.held
  pub within : Each (Within os) c.held

owned_apart :
    (base : ℕ) (c : Client) (s : IsServed base c) (x y : Region)
    → IsOwned s.blocks x
    → IsOwned s.blocks y
    → Differ x y
    → Separate x y
owned_apart base c s x y (k, b, b_live, at_b, b_fits) (j, d, d_live, at_d, d_fits) n =
    ground (arith, s.inv.apart k b j d (inr b_live) (inr d_live), at_b, at_d, b_fits, d_fits, n)

session-IsSound :
    (os : Os) (t : Tracker) (asked : Bool) (c : Client)
    → IsSession os t asked c
    → IsSound os t asked c
session-IsSound os t asked c (unused none e) =
    rw e (record { session = unused none refl; apart = tt; within = tt })
session-IsSound os t asked c (served s) = record {
  session = served s;
  apart =
      Pairwise-mono (IsOwned s.blocks) Differ Separate c.held (owned_apart (heap_start os) c s)
        s.owned s.differ;
  within =
      Each-mono (IsOwned s.blocks) (Within os) c.held
        (λ x (k, b, b_live, at_b, fits).
          let (lo, hi) = s.tiled.within k b (inr b_live) in
          (omega (arith, lo, at_b), omega (arith, hi, at_b, fits)))
        s.owned;
}

module _ (fuel : ℕ) (os : Os) (t : Tracker) (room : enough_fuel ≤ fuel) (pos : 0 < os.current_break)
    (fresh : t.initialized ≡ false) (empty : (k : ℕ) → t.heads k ≡ 0)
    (grows : os.sbrk (padding os.current_break + num_initial_blocks * block_size_bytes)
      ≡ some os.current_break) where
  -- The first request sets the heap up.
  smalloc-first :
      (t' : Tracker) (size : ℕ)
      → init_heap os t ≡ ok t'
      → t'.initialized ≡ true
      → smalloc fuel os t size ≡ smalloc fuel os t' size
  unfolding smalloc
  smalloc-first t' size e started =
      step _ (if_false t.initialized _ _ fresh ∙ e)
      ∙ sym (step _ (if_true t'.initialized _ _ started))

  take_region-same :
      (size : ℕ) (t' : Tracker)
      → smalloc fuel os t size ≡ smalloc fuel os t' size
      → take_region fuel os (record { table = t; held = [] }) size
        ≡ take_region fuel os (record { table = t'; held = [] }) size
  unfolding take_region
  take_region-same size t' e = rw e refl

  first-IsServed :
      (size : ℕ)
      → size + meta_size ≤ mmap_min_limit
      → Returns
          (IsServed (heap_start os))
          (take_region fuel os (record { table = t; held = [] }) size)
  first-IsServed size fits =
      let (t', runs, inv) = value_of (init_heap-Inv os t os.current_break grows pos empty) in
      same (take_region-same size t' (smalloc-first t' size runs inv.started)) (
        take_region-IsServed fuel os (heap_start os) size (record { table = t'; held = [] })
          (omega arith) fits
          (record {
            blocks = initial (heap_start os);
            inv = inv;
            tiled = initial-Tiled (heap_start os) (padding-IsAligned os.current_break);
            owned = tt;
            differ = tt;
            known = λ k b b_live. absurd (cc);
          }))

  take-IsSession :
      (size : ℕ) (asked : Bool) (c : Client)
      → size + meta_size ≤ mmap_min_limit
      → IsSession os t asked c
      → Returns (IsSession os t true) (take_region fuel os c size)
  take-IsSession size asked c fits (unused none e) =
      same (ap (λ x. take_region fuel os x size) e)
        (mono (first-IsServed size fits) λ c' s. served s)
  take-IsSession size asked c fits (served s) =
      mono (take_region-IsServed fuel os (heap_start os) size c (omega arith) fits s)
        λ c' s'. served s'

  -- There is nothing to give back before the first request.
  give-unused :
      (place : ℕ) (c : Client)
      → c ≡ record { table = t; held = [] }
      → give_region fuel os c.table c.held (pick place c.held) ≡ ok c
  unfolding give_region pick
  give-unused place c e = rw e refl

  give-IsSession :
      (place : ℕ) (asked : Bool) (c : Client)
      → IsSession os t asked c
      → Returns (IsSession os t asked) (give_region fuel os c.table c.held (pick place c.held))
  give-IsSession place asked c (unused none e) = returns_at (give-unused place c e) (unused none e)
  give-IsSession place asked c (served s) =
      mono
        (give_region-IsServed fuel os (heap_start os) place c room (omega arith)
          (padding-IsAligned os.current_break) s)
        λ c' s'. served s'

  -- A client that was served still is.
  after_request : (asked : Bool) (c : Client) → IsSession os t true c → IsSession os t asked c
  after_request asked c (unused none e) = absurd (cc)
  after_request asked c (served s) = served s

  run-IsSession :
      (xs : List Call) (asked : Bool) (c : Client)
      → Fits xs
      → IsSession os t asked c
      → Returns (IsSession os t (asked || asks xs)) (run fuel os c xs)
  unfolding run call
  run-IsSession [] true c fits s = returns s
  run-IsSession [] false c fits s = returns s
  run-IsSession (take size ∷ xs) asked c (fits, rest) s =
      bind (take-IsSession size asked c fits s) λ c' s'.
        mono (run-IsSession xs true c' rest s') λ c'' s''. after_request (asked || true) c'' s''
  run-IsSession (give place ∷ xs) asked c fits s =
      bind (give-IsSession place asked c s) λ c' s'. run-IsSession xs asked c' fits s'

  -- From a table that is not initialized and whose lists are empty, where `sbrk` continues a program
  -- break that is not NULL, any sequence of requests of at most 131040 bytes and of calls of `sfree`
  -- with pointers that are held ends well with fuel 32779. The regions then held lie in the heap and
  -- no two share a byte; once a request was made, the blocks that are handed out are exactly those of
  -- these regions, the lists of the table are the other blocks, and the blocks tile the heap.
  pub run-IsSound :
      (xs : List Call)
      → Fits xs
      → Returns (IsSound os t (asks xs)) (run fuel os (record { table = t; held = [] }) xs)
  run-IsSound xs fits =
      mono (run-IsSession xs false (record { table = t; held = [] }) fits (unused refl refl))
        λ c s. session-IsSound os t (asks xs) c s
