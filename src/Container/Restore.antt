-- ===== src/Container/Restore.antt =====
-- Taking back what add_thing_bypos put in.
use txgg.Base.{ℕ, ◌+◌, ◌<◌, ◌≡◌, ap, arith, Code, ok, err, u16_mod}
use txgg.Container.{Bag, add_thing_bypos, delete_thing_bypos, count_thing_num}
use txgg.Container.Invariant.{IsValid}
use txgg.Container.Count.{held, Adds, add_thing_bypos-Adds}
use txgg.Container.Remove.{Deletes, delete_thing_bypos-Deletes}

module _ (b : Bag) (pos id num : ℕ) where
  -- A removal that undoes an addition cannot fail, and restores every count.
  restored :
      (b' : Bag) (r : Code × Bag)
      → Adds b pos id num (ok 0, b')
      → Deletes b' pos num r
      → (r.0 ≡ ok 0) × IsValid r.1 × ((j : ℕ) → count_thing_num r.1 j ≡ count_thing_num b j)
  restored b' (err n, c) a d = absurd (ground (arith, a, d))
  restored b' (ok n, c) a d =
      let (z, _, v, (t, p, count), _) = d in
      (ap ok z, v, λ j. ground (arith, p, count j, a.3 j, a.4))

  -- delete_thing_bypos takes back what add_thing_bypos put at the same position: it succeeds, and
  -- the container counts as many of every item as before.
  pub delete_thing_bypos-add_thing_bypos :
      (b' : Bag)
      → IsValid b
      → held b pos + num < u16_mod
      → add_thing_bypos b pos id num ≡ (ok 0, b')
      → let (code, c) = delete_thing_bypos b' pos num in
        (code ≡ ok 0) × IsValid c × ((j : ℕ) → count_thing_num c j ≡ count_thing_num b j)
  delete_thing_bypos-add_thing_bypos b' v small e =
      let a : Adds b pos id num (ok 0, b') = rw e at (add_thing_bypos-Adds b pos id num v small) in
      restored b' (delete_thing_bypos b' pos num) a (delete_thing_bypos-Deletes b' pos num a.2)
