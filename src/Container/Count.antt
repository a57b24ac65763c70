-- ===== src/Container/Count.antt =====
-- add_thing_bypos on every way out: who owns what, and how many of each item the container holds.
use txgg.Base.{
  ℕ, zero, suc, ◌+◌, ◌≤◌, ◌<◌, ◌≡◌, ◌≢◌, ◌⊎◌, refl, ◌∙◌, Option, none, some, List, [], ◌∷◌, arith,
  ◌==◌, if◌then◌else◌, length, set, take, length-take, Bool-cases, inl, inr, leb, Code, ok, err,
  leb→le, lt→leb, add16, u16_mod,
}
use txgg.Container.{
  Idx, ThingObj, Container, Bag, max_idx, null_idx, pointer_at, update, idx_of, num_of, take_first,
  create_thing_obj, set_container_thingobj, place_new, add_to_thing, add_thing_bypos,
  count_thing_num,
}
use txgg.Container.Slots.{
  GoodSlots, count-set, count-clear, count-update, count-update_ne, GoodSlots-take, pointer_at-take,
  take-set, points-take,
}
use txgg.Container.Invariant.{IsValid, IsValid-obj, added_new, fresh_thing}

-- How many the slot holds.
abbrev pub held : Bag → ℕ → ℕ
held b pos = elim (pointer_at b.container.things pos) [ none ↦ 0 | some t ↦ (b.store.obj t).num ]

-- Which item the slot holds.
abbrev pub slot_id : Bag → ℕ → Option ℕ
slot_id b pos = elim (pointer_at b.container.things pos) [
  | none ↦ none
  | some t ↦ some (b.store.obj t).id
]

pointer_at-set :
    (xs : List Idx) (pos t : ℕ)
    → pos < length xs
    → pointer_at (set xs pos (idx_of (some t))) pos ≡ some t
pointer_at-set [] pos t h = absurd (omega arith)
pointer_at-set (x ∷ xs) zero t h = refl
pointer_at-set (x ∷ xs) (suc pos) t h = pointer_at-set xs pos t (omega arith)

pub set_container_lem :
    (c : Container) (o : Option ℕ) (pos : ℕ)
    → pos < c.max_thing_num
    → set_container_thingobj c o pos ≡ record c { things = set c.things pos (idx_of o) }
unfolding set_container_thingobj
set_container_lem c o pos h = rw (lt→leb c.max_thing_num pos h)

module _ (b : Bag) (pos : ℕ) (v : IsValid b) (h : pos < b.container.max_thing_num) (j : ℕ) where
  abbrev pub walked : List Idx
  walked = take b.container.max_thing_num b.container.things

  good : GoodSlots walked
  good = GoodSlots-take b.container.max_thing_num b.container.things v.slots

  pointer_walked : pointer_at walked pos ≡ pointer_at b.container.things pos
  pointer_walked = pointer_at-take b.container.max_thing_num b.container.things pos h

  -- The total after the slot got a new thing.
  count_new :
      (t : ℕ) (rest : List ℕ) (w : ThingObj)
      → b.store.free ≡ t ∷ rest
      → pointer_at b.container.things pos ≡ none
      → count_thing_num
          (record {
            container = record b.container {
              things = set b.container.things pos (idx_of (some t));
            };
            store = record { obj = update b.store.obj t w; free = rest };
          })
          j
        ≡ count_thing_num b j + (if w.id == j then w.num else 0)
  unfolding count_thing_num
  count_new t rest w e p =
      let new =
        points-take t b.container.max_thing_num b.container.things (fresh_thing b t rest v e) in
      let lt : t < max_idx = (rw e at v.free).0 in
      rw (take-set b.container.max_thing_num b.container.things pos (idx_of (some t))) (
        ground (
          arith,
          count-set (update b.store.obj t w) j walked pos t good
              (omega (arith, length-take b.container.max_thing_num b.container.things, v.fits))
              (pointer_walked ∙ p) lt,
          count-update_ne b.store.obj j walked t w new,
        ))

  -- The total after the thing of the slot changed.
  pub count_change :
      (t : ℕ) (w : ThingObj)
      → pointer_at b.container.things pos ≡ some t
      → count_thing_num (record b { store = record b.store { obj = update b.store.obj t w } }) j
          + num_of b.store.obj j (some t)
        ≡ count_thing_num b j + (if w.id == j then w.num else 0)
  unfolding count_thing_num
  count_change t w p = count-update b.store.obj j walked pos t w good (pointer_walked ∙ p)

  -- The total after the slot was cleared, its thing changed to `w`.
  pub count_gone :
      (t : ℕ) (w : ThingObj) (free : List ℕ)
      → pointer_at b.container.things pos ≡ some t
      → count_thing_num
            (record {
              container = record b.container { things = set b.container.things pos null_idx };
              store = record { obj = update b.store.obj t w; free = free };
            })
            j
          + num_of b.store.obj j (some t)
        ≡ count_thing_num b j
  unfolding count_thing_num
  count_gone t w free p = rw (take-set b.container.max_thing_num b.container.things pos null_idx) (
      ground (
        arith,
        count-clear (update b.store.obj t w) j walked pos t good (pointer_walked ∙ p),
        count-update b.store.obj j walked pos t w good (pointer_walked ∙ p),
      ))

module _ (b : Bag) (pos id num : ℕ) where
  -- add_thing_bypos: the item's count grows by `num` and no other changes, or nothing does, since
  -- the position is too large, the pool is empty, or the slot holds another item.
  abbrev pub Adds : Code × Bag → Type 0
  Adds (ok n, b') =
      (n ≡ 0)
      × (pos < b.container.max_thing_num)
      × IsValid b'
      × ((j : ℕ) → count_thing_num b' j ≡ count_thing_num b j + (if id == j then num else 0))
      × (slot_id b' pos ≡ some id)
      × (held b' pos ≡ held b pos + num)
      × (b'.container.max_thing_num ≡ b.container.max_thing_num)
  Adds (err n, b') =
      (n ≡ 1)
      × (b' ≡ b)
      × ((b.container.max_thing_num ≤ pos)
          ⊎ ((pointer_at b.container.things pos ≡ none) × (b.store.free ≡ []))
          ⊎ ((t : ℕ) × (pointer_at b.container.things pos ≡ some t) × ((b.store.obj t).id ≢ id)))

  module _ (v : IsValid b) (h : pos < b.container.max_thing_num) where
    new-Adds :
        (fs : List ℕ)
        → b.store.free ≡ fs
        → pointer_at b.container.things pos ≡ none
        → Adds (place_new b pos id num (take_first b.store fs))
    unfolding place_new take_first
    new-Adds [] e p = (refl, refl, inr (inl (p, e)))
    new-Adds (t ∷ rest) e p =
        let w : ThingObj = record (b.store.obj t) { id = id; num = num } in
        rw (set_container_lem b.container (some t) pos h) (
          refl,
          h,
          added_new b pos v t rest w e,
          λ j. count_new b pos v h j t rest w e p,
          ground (arith, pointer_at-set b.container.things pos t (omega (arith, v.fits))),
          ground (arith, p, pointer_at-set b.container.things pos t (omega (arith, v.fits))),
          refl,
        )

    old-Adds :
        (t : ℕ)
        → pointer_at b.container.things pos ≡ some t
        → (b.store.obj t).num + num < u16_mod
        → Adds (add_to_thing b t id num)
    unfolding add_to_thing
    old-Adds t p small = elim (Bool-cases ((b.store.obj t).id == id)) [
      | inl q ↦
          let w : ThingObj = record (b.store.obj t) { num = add16 (b.store.obj t).num num } in
          rw q (
            refl,
            h,
            IsValid-obj b (update b.store.obj t w) v,
            λ j. ground (arith, count_change b pos v h j t w p, q),
            ground (arith, p, q),
            ground (arith, p, q),
            refl,
          )
      | inr q ↦ rw q (refl, refl, inr (inr (t, p, ground arith)))
    ]

  add-Adds :
      (o : Option ℕ)
      → pointer_at b.container.things pos ≡ o
      → IsValid b
      → held b pos + num < u16_mod
      → pos < b.container.max_thing_num
      → Adds (elim o [
        | none ↦ place_new b pos id num (create_thing_obj b.store)
        | some t ↦ add_to_thing b t id num
      ])
  unfolding create_thing_obj
  add-Adds none e v small h = new-Adds v h b.store.free refl e
  add-Adds (some t) e v small h = old-Adds v h t e (ground (arith, e, small))

  -- add_thing_bypos with an amount that fits the 16 bits of the slot: on success the count of the
  -- item grows by the amount, no other count changes and ownership stays sound; it fails exactly
  -- for a position past the limit, an empty pool at an empty slot, or another item in the slot, and
  -- then changes nothing.
  pub add_thing_bypos-Adds :
      IsValid b → held b pos + num < u16_mod → Adds (add_thing_bypos b pos id num)
  unfolding add_thing_bypos
  add_thing_bypos-Adds v small = elim (Bool-cases (leb b.container.max_thing_num pos)) [
    | inl e ↦ rw e (refl, refl, inl (leb→le _ _ e))
    | inr e ↦ rw e (add-Adds (pointer_at b.container.things pos) refl v small (ground arith))
  ]
