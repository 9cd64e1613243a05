-- ===== src/Creds/Run/Choice.antt =====
-- Ids that all pass a test: what the calls make of them without a capability.
use operating_systems_course.Prelude.{
  ℕ, ◌≡◌, refl, Bool, true, false, not, ◌&&◌, ◌||◌, ◌==◌, arith, if◌then◌else◌, eqb→eq,
}
use operating_systems_course.Creds.{
  Ids, chosen, may_take, may_take_real, may_take_fs, reids, resids,
}

both : (a b : Bool) → (a && b) ≡ true → (a ≡ true) × (b ≡ true)
both true b h = (refl, h)
both false b h = cc

pub unnot : (b : Bool) → not b ≡ false → b ≡ true
unnot true h = refl
unnot false h = cc

abbrev pub Among : (ℕ → Bool) → Ids → Type 0
Among ok i = (ok i.real ≡ true) × (ok i.effective ≡ true) × (ok i.saved ≡ true) × (ok i.fs ≡ true)

same-ok : (ok : ℕ → Bool) (k x : ℕ) → (k == x) ≡ true → ok x ≡ true → ok k ≡ true
same-ok ok k x e h = rw (eqb→eq k x e) h

module _ (ok : ℕ → Bool) (i : Ids) (h : Among ok i) where
  chosen-ok : (id k x : ℕ) → may_take false i id k ≡ true → ok x ≡ true → ok (chosen id k x) ≡ true
  chosen-ok id k x may hx =
      ground (arith, same-ok ok k i.real, same-ok ok k i.effective, same-ok ok k i.saved)

  if_ok : (b : Bool) (x y : ℕ) → ok x ≡ true → ok y ≡ true → ok (if b then x else y) ≡ true
  if_ok true x y hx hy = hx
  if_ok false x y hx hy = hy

  may_of_real : (id k : ℕ) → may_take_real false i id k ≡ true → may_take false i id k ≡ true
  may_of_real id k may = ground arith

  pub reids-Among :
      (rid krid eid keid : ℕ)
      → (may_take_real false i rid krid && may_take false i eid keid) ≡ true
      → Among ok (reids i rid krid eid keid)
  unfolding reids
  reids-Among rid krid eid keid may =
      let (may_r, may_e) = both _ _ may in
      let e = chosen-ok eid keid i.effective may_e h.1 in
      (chosen-ok rid krid i.real (may_of_real rid krid may_r) h.0, e, if_ok _ _ _ e h.2, e)

  pub resids-Among :
      (rid krid eid keid sid ksid : ℕ)
      → (may_take false i rid krid && (may_take false i eid keid && may_take false i sid ksid))
        ≡ true
      → Among ok (resids i rid krid eid keid sid ksid)
  unfolding resids
  resids-Among rid krid eid keid sid ksid may =
      let (may_r, more) = both _ _ may in
      let (may_e, may_s) = both _ _ more in
      let e = chosen-ok eid keid i.effective may_e h.1 in
      (chosen-ok rid krid i.real may_r h.0, e, chosen-ok sid ksid i.saved may_s h.2, e)

  pub fs-ok : (k : ℕ) → may_take_fs false i k ≡ true → ok k ≡ true
  fs-ok k may = ground (
    arith,
    same-ok ok k i.real,
    same-ok ok k i.effective,
    same-ok ok k i.saved,
    same-ok ok k i.fs,
  )

  -- The one id that `setuid` and `setgid` may set without the capability.
  pub own-ok : (k : ℕ) → (k == i.real || k == i.saved) ≡ true → ok k ≡ true
  own-ok k may = ground (arith, same-ok ok k i.real, same-ok ok k i.saved)
