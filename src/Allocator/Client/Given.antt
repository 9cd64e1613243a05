-- ===== src/Allocator/Client/Given.antt =====
-- A client of malloc_3.cpp gives a region back.
use operating_systems_course.Prelude.{
  ℕ, ◌+◌, ◌≤◌, ◌<◌, ◌≡◌, ◌≢◌, true, Option, List, ◌==◌, arith, has, ap, sym, ◌∙◌, inl, inr,
  Bool-cases, eqb→ne,
}
use operating_systems_course.Server.Run.{Returns, returns, bind, same}
use operating_systems_course.Allocator.{block_size, meta_size, max_block_order}
use operating_systems_course.Allocator.Buddy.{Tracker}
use operating_systems_course.Allocator.Buddy.Sizes.{block_size-ge}
use operating_systems_course.Allocator.Buddy.Grid.{IsAligned}
use operating_systems_course.Allocator.Buddy.Room.{free_count}
use operating_systems_course.Allocator.Buddy.Invariant.{Blocks}
use operating_systems_course.Allocator.Buddy.Release.{has-drop_all, drop_live, drop_all-keeps}
use operating_systems_course.Allocator.Calls.{Os, sfree}
use operating_systems_course.Allocator.Calls.Sfree.{IsFreed, sfree-IsFreed}
use operating_systems_course.Allocator.Client.{Region, Client, pick, give_region}
use operating_systems_course.Allocator.Client.Held.{
  Differ, Each-mono, both, Picked, IsPick, nothing, region, pick-IsPick, picked-Each, picked-Differ,
  picked_starts,
}
use operating_systems_course.Allocator.Client.Served.{IsOwned, IsServed}

-- Another block that was handed out still is.
drop_live-keeps :
    (B : Blocks) (k b j c : ℕ)
    → has c (B.live j) ≡ true
    → c ≢ b
    → has c ((drop_live B k b).live j) ≡ true
drop_live-keeps B k b j c c_live n = elim (Bool-cases (j == k)) [
  | inl here ↦ rw here (drop_all-keeps c b (B.live j) c_live n)
  | inr other ↦ rw other c_live
]

-- What is handed out when a block of it is not any more.
drop_live-inverse :
    (B : Blocks) (k b j c : ℕ)
    → has c ((drop_live B k b).live j) ≡ true
    → (has c (B.live j) ≡ true) × ((j ≡ k) → c ≢ b)
drop_live-inverse B k b j c c_live = elim (Bool-cases (j == k)) [
  | inl here ↦ let (c_in, n) = has-drop_all c b (B.live j) (rw here at c_live) in (c_in, λ e. n)
  | inr other ↦ (rw other at c_live, λ e. absurd (eqb→ne j k other e))
]

module _ (base : ℕ) (t : Tracker) (held : List Region) (x : Region) (others : List Region)
    (s : IsServed base (record { table = t; held = held })) (picked : Picked x held others)
    (k b : ℕ) (b_live : has b (s.blocks.live k) ≡ true) (at_b : x.start ≡ b + meta_size)
    (t' : Tracker) (d : IsFreed base s.blocks k b t') where
  still-IsOwned : (y : Region) → IsOwned s.blocks y → Differ x y → IsOwned d.blocks y
  still-IsOwned y (j, c, c_live, at_c, fits) n = (
    j,
    c,
    rw d.live (drop_live-keeps s.blocks k b j c c_live λ e. n (omega (arith, at_b, at_c, e))),
    at_c,
    fits,
  )

  -- The block given back is not handed out for another region.
  same_block : (j c : ℕ) → has c (s.blocks.live j) ≡ true → (j ≡ k → c ≢ b) → c ≢ b
  same_block j c c_live n e = elim (s.inv.apart j c k b (inr c_live) (inr b_live)) [
    | inl (at_k, _) ↦ n at_k e
    | inr sides ↦ absurd (ground (arith, sides, block_size-ge j, block_size-ge k))
  ]

  given-IsServed : IsServed base (record { table = t'; held = others })
  given-IsServed =
      let (x_owned, rest_owned) = picked-Each (IsOwned s.blocks) x held others picked s.owned in
      let (n, rest_differ) = picked-Differ x held others picked s.differ in
      record {
        blocks = d.blocks;
        inv = d.inv;
        tiled = d.tiled;
        owned =
            Each-mono (λ y. IsOwned s.blocks y × Differ x y) (IsOwned d.blocks) others
              (λ y (o, m). still-IsOwned y o m)
              (both (IsOwned s.blocks) (Differ x) others rest_owned n);
        differ = rest_differ;
        known = λ j c c_live.
            let c_kept : has c ((drop_live s.blocks k b).live j) ≡ true =
              ap (λ l. has c (l j)) (sym d.live) ∙ c_live in
            let (c_B, m) = drop_live-inverse s.blocks k b j c c_kept in
            picked_starts x held others (c + meta_size) picked (s.known j c c_B)
              λ e. same_block j c c_B m (omega (arith, at_b, e));
      }

-- The fuel with which `sfree` always returns.
abbrev pub enough_fuel : ℕ
enough_fuel = 32779

give_picked-IsServed :
    (fuel : ℕ) (os : Os) (base : ℕ) (t : Tracker) (held : List Region)
    (o : Option (Region × List Region))
    → enough_fuel ≤ fuel
    → 0 < base
    → IsAligned (block_size max_block_order) base
    → IsServed base (record { table = t; held = held })
    → IsPick held o
    → Returns (IsServed base) (give_region fuel os t held o)
unfolding give_region
give_picked-IsServed fuel os base t held _ room pos on s nothing = returns s
give_picked-IsServed fuel os base t held _ room pos on s (region x others picked) =
    let ((k, b, b_live, at_b, fits), rest) =
      picked-Each (IsOwned s.blocks) x held others picked s.owned in
    bind
      (same (ap (sfree fuel os t) at_b) (
        sfree-IsFreed fuel os base s.blocks t k b pos on s.inv s.tiled b_live
          λ j. omega (arith, free_count base s.blocks t s.inv s.tiled j)))
      λ t' d. returns (given-IsServed base t held x others s picked k b b_live at_b t' d)

-- Giving back a region that is held, or nothing where there is no region at the place.
pub give_region-IsServed :
    (fuel : ℕ) (os : Os) (base place : ℕ) (c : Client)
    → enough_fuel ≤ fuel
    → 0 < base
    → IsAligned (block_size max_block_order) base
    → IsServed base c
    → Returns (IsServed base) (give_region fuel os c.table c.held (pick place c.held))
give_region-IsServed fuel os base place c room pos on s =
    give_picked-IsServed fuel os base c.table c.held (pick place c.held) room pos on s
      (pick-IsPick place c.held)
