-- ===== src/Container/Swap.antt =====
-- swap_thing_pos: two slots change places.
mod Lists
use txgg.Base.{
  ℕ, zero, suc, ◌+◌, ◌≤◌, ◌<◌, ◌≡◌, ◌≢◌, ◌⊎◌, ◌∙◌, refl, sym, ap, subst, inl, inr, true, false,
  ◌||◌, Bool-cases, ==_iff, Option, none, some, List, [], ◌∷◌, arith, ◌==◌, leb, leb→le, length,
  set, take, length-set, length-take, Code, ok, err,
}
use txgg.Container.{
  Idx, ThingObj, Container, Bag, max_idx, null_idx, idx_of, pointer_at, num_of, count_slots,
  set_container_thingobj, swap_thing_pos, count_thing_num,
}
use txgg.Container.Slots.{
  is_at, points, GoodSlots, count-set, count-clear, points-at, points-set, points-clear,
  GoodSlots-store, GoodSlots-clear, GoodSlots-take, pointer_at-take, take-set, pointer_at-lt, ≢true,
}
use txgg.Container.Invariant.{IsValid}
use txgg.Container.Remove.{pointer_at-set_null}
use txgg.Container.Swap.Lists.{exchanged, points-exchanged}

module _ (b : Bag) (pos1 pos2 : ℕ) where
  -- The two slots have changed places, or a position is past the limit.
  abbrev pub Swaps : Code × Container → Type 0
  Swaps (ok n, c) =
      (n ≡ 0)
      × (pos1 < b.container.max_thing_num)
      × (pos2 < b.container.max_thing_num)
      × (c.things
          ≡ set (set b.container.things pos1 (idx_of (pointer_at b.container.things pos2))) pos2
              (idx_of (pointer_at b.container.things pos1)))
      × IsValid (record b { container = c })
      × ((j : ℕ) → count_thing_num (record b { container = c }) j ≡ count_thing_num b j)
  Swaps (err n, c) =
      (n ≡ 1)
      × (c ≡ b.container)
      × ((b.container.max_thing_num ≤ pos1) ⊎ (b.container.max_thing_num ≤ pos2))

  abbrev after : Container
  after = record b.container {
    things =
        set (set b.container.things pos1 (idx_of (pointer_at b.container.things pos2))) pos2
          (idx_of (pointer_at b.container.things pos1));
  }

  module _ (v : IsValid b) (h1 : pos1 < b.container.max_thing_num)
      (h2 : pos2 < b.container.max_thing_num) where
    after-IsValid : IsValid (record b { container = after })
    after-IsValid =
        let xs = b.container.things in
        record {
          slots =
              (exchanged b.store.obj 0 xs pos1 pos2 (pointer_at xs pos1) (pointer_at xs pos2)
                v.slots (omega (arith, h1, v.fits)) (omega (arith, h2, v.fits)) refl refl).0;
          free = v.free;
          apart = λ t r. v.apart t (
              points-exchanged t xs pos1 pos2 (pointer_at xs pos1) (pointer_at xs pos2) refl refl
                r);
          fits = omega (
            arith,
            v.fits,
            length-set xs pos1 (idx_of (pointer_at xs pos2)),
            length-set (set xs pos1 (idx_of (pointer_at xs pos2))) pos2
                (idx_of (pointer_at xs pos1)),
          );
        }

    count-after : (j : ℕ) → count_thing_num (record b { container = after }) j ≡ count_thing_num b j
    unfolding count_thing_num
    count-after j =
        let n = b.container.max_thing_num in
        let xs = b.container.things in
        let p = pointer_at xs pos1 in
        let q = pointer_at xs pos2 in
        let size = length-take n xs in
        ap (count_slots b.store.obj j) (
          take-set n (set xs pos1 (idx_of q)) pos2 (idx_of p)
          ∙ ap (λ ys. set ys pos2 (idx_of p)) (take-set n xs pos1 (idx_of q)))
        ∙ (exchanged b.store.obj j (take n xs) pos1 pos2 p q (GoodSlots-take n xs v.slots)
            (omega (arith, size, h1, v.fits)) (omega (arith, size, h2, v.fits))
            (pointer_at-take n xs pos1 h1) (pointer_at-take n xs pos2 h2)).1

  -- swap_thing_pos on a container whose things have one owner each: the two slots change places,
  -- every item counts as before and each thing still has one owner; it fails exactly for a position
  -- past the limit, and then changes nothing.
  pub swap_thing_pos-Swaps : IsValid b → Swaps (swap_thing_pos b.container pos1 pos2)
  unfolding swap_thing_pos set_container_thingobj
  swap_thing_pos-Swaps v = elim (Bool-cases (leb b.container.max_thing_num pos1)) [
    | inl e ↦ rw e (refl, refl, inl (leb→le _ _ e))
    | inr e ↦ elim (Bool-cases (leb b.container.max_thing_num pos2)) [
      | inl f ↦ rw (e, f) (refl, refl, inr (leb→le _ _ f))
      | inr f ↦
          let h1 : pos1 < b.container.max_thing_num = ground (arith, e) in
          let h2 : pos2 < b.container.max_thing_num = ground (arith, f) in
          rw (e, f) (refl, h1, h2, refl, after-IsValid v h1 h2, count-after v h1 h2)
    ]
  ]
