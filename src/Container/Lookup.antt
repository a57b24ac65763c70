-- ===== src/Container/Lookup.antt =====
-- What get_thingobj_bypos finds, and add_thing_bypos past the limit.
use txgg.Base.{
  ℕ, ◌≤◌, ◌<◌, ◌≡◌, ◌≢◌, ◌⊎◌, inl, inr, refl, Bool-cases, Option, none, some, arith, ◌==◌,
  if◌then◌else◌, leb, leb→le, le→leb, err,
}
use txgg.Container.{ThingObj, Bag, pointer_at, get_thingobj_bypos, add_thing_bypos}
use txgg.Container.Count.{held}

module _ (b : Bag) (pos : ℕ) where
  -- What get_thingobj_bypos finds.
  abbrev pub Found : Option ThingObj → Type 0
  Found none = (b.container.max_thing_num ≤ pos) ⊎ (held b pos ≡ 0)
  Found (some thing) =
      (pos < b.container.max_thing_num)
      × (thing.num ≢ 0)
      × ((t : ℕ) × (pointer_at b.container.things pos ≡ some t) × (b.store.obj t ≡ thing))

  pointed-Found :
      (o : Option ℕ)
      → pointer_at b.container.things pos ≡ o
      → pos < b.container.max_thing_num
      → Found (elim o [
        | none ↦ none
        | some t ↦ if (b.store.obj t).num == 0 then none else some (b.store.obj t)
      ])
  pointed-Found none e h = inr (rw (held, e) refl)
  pointed-Found (some t) e h = elim (Bool-cases ((b.store.obj t).num == 0)) [
    | inl z ↦ rw z (inr (ground (arith, e, z)))
    | inr z ↦ rw z (h, ground (arith, z), (t, e, refl))
  ]

  pub get_thingobj_bypos-Found : Found (get_thingobj_bypos b pos)
  unfolding get_thingobj_bypos
  get_thingobj_bypos-Found = elim (Bool-cases (leb b.container.max_thing_num pos)) [
    | inl e ↦ rw e (inl (leb→le _ _ e))
    | inr e ↦ rw e (pointed-Found (pointer_at b.container.things pos) refl (ground arith))
  ]

  pub add_thing_bypos_past :
      (id num : ℕ) → b.container.max_thing_num ≤ pos → add_thing_bypos b pos id num ≡ (err 1, b)
  unfolding add_thing_bypos
  add_thing_bypos_past id num h = rw (le→leb b.container.max_thing_num pos h) refl
