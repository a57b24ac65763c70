-- ===== src/Container/Steady.antt =====
-- Bags on which no assert fails: count_thing_num asserts that a slot with an index has a pointer, and
-- quest_status_check of quest.c that there are fewer than 128 slots.
use txgg.Base.{
  ℕ, zero, suc, ◌<◌, ◌-◌, Code, ok, err, ◌≡◌, refl, ap, ◌∙◌, inl, inr, true, false, ◌||◌,
  Bool-cases, Option, none, some, List, [], ◌∷◌, arith, ◌==◌, leb, ltb, if◌then◌else◌, set, take,
}
use txgg.Container.{
  max_thing_obj_per_container, Idx, Things, Bag, max_idx, idx_of, pointer_at, slot_asserts,
  slots_assert, count_thing_num_asserts, set_container_thingobj, take_first, create_thing_obj,
  place_new, add_to_thing, add_thing_bypos, remove_from_thing, delete_thing_bypos,
}
use txgg.Container.Slots.{GoodSlot, GoodSlots, GoodSlots-take, take-set}
use txgg.Container.Invariant.{IsValid}

pub record IsSteady (b : Bag) : Type 0 where
  pub few : b.container.max_thing_num < max_thing_obj_per_container
  pub counted : count_thing_num_asserts b ≡ true

-- What an operation leaves is such a bag.
abbrev pub LeavesSteady : Code × Bag → Type 0
LeavesSteady r = IsSteady r.1

slots_assert-set :
    (xs : List Idx) (i : ℕ) (o : Option ℕ)
    → slots_assert xs ≡ true
    → slots_assert (set xs i (idx_of o)) ≡ true
unfolding slots_assert slot_asserts
slots_assert-set [] i o e = e
slots_assert-set (x ∷ xs) zero none e = ground (arith, e)
slots_assert-set (x ∷ xs) zero (some t) e = ground (arith, e)
slots_assert-set (x ∷ xs) (suc i) o e = ground (arith, e, slots_assert-set xs i o)

GoodSlots-slots_assert : (xs : List Idx) → GoodSlots xs → slots_assert xs ≡ true
unfolding slots_assert slot_asserts
GoodSlots-slots_assert [] g = refl
GoodSlots-slots_assert (x ∷ xs) g = ground (arith, good x.p g.0, GoodSlots-slots_assert xs g.1)
  where
    good :
        (o : Option ℕ)
        → GoodSlot o x.idx xs
        → ((x.idx == max_idx) || elim o [ none ↦ false | some t ↦ true ]) ≡ true
    good none h = ground (arith, h)
    good (some t) h = ground arith

-- The asserts of count_thing_num hold where each thing has one owner.
pub IsValid-asserts : (b : Bag) → IsValid b → count_thing_num_asserts b ≡ true
unfolding count_thing_num_asserts
IsValid-asserts b v =
    let n = b.container.max_thing_num in
    GoodSlots-slots_assert (take n b.container.things) (GoodSlots-take n b.container.things v.slots)

-- One slot is written, and the pool changes.
stored-IsSteady :
    (b : Bag) (i : ℕ) (o : Option ℕ) (s : Things)
    → IsSteady b
    → IsSteady (record {
      container = record b.container { things = set b.container.things i (idx_of o) };
      store = s;
    })
unfolding count_thing_num_asserts
stored-IsSteady b i o s v = record {
  few = v.few;
  counted =
      ap slots_assert (take-set b.container.max_thing_num b.container.things i (idx_of o))
      ∙ slots_assert-set _ i o v.counted;
}

pool-IsSteady : (b : Bag) (s : Things) → IsSteady b → IsSteady (record b { store = s })
unfolding count_thing_num_asserts
pool-IsSteady b s v = record { few = v.few; counted = v.counted }

module _ (b : Bag) (pos id num : ℕ) (v : IsSteady b) where
  placed-IsSteady : (fs : List ℕ) → IsSteady (place_new b pos id num (take_first b.store fs)).1
  unfolding place_new take_first set_container_thingobj
  placed-IsSteady [] = v
  placed-IsSteady (t ∷ rest) = elim (Bool-cases (leb b.container.max_thing_num pos)) [
    | inl e ↦ rw e (pool-IsSteady b _ v)
    | inr e ↦ rw e (stored-IsSteady b pos (some t) _ v)
  ]

  added-IsSteady : (t : ℕ) → IsSteady (add_to_thing b t id num).1
  unfolding add_to_thing
  added-IsSteady t = elim (Bool-cases ((b.store.obj t).id == id)) [
    | inl e ↦ rw e (pool-IsSteady b _ v)
    | inr e ↦ rw e v
  ]

  pub add_thing_bypos-IsSteady : LeavesSteady (add_thing_bypos b pos id num)
  unfolding add_thing_bypos create_thing_obj
  add_thing_bypos-IsSteady = elim (Bool-cases (leb b.container.max_thing_num pos)) [
    | inl e ↦ rw e v
    | inr e ↦ rw e (at_slot (pointer_at b.container.things pos))
  ]
    where
      at_slot :
          (o : Option ℕ)
          → LeavesSteady (elim o [
            | none ↦ place_new b pos id num (create_thing_obj b.store)
            | some t ↦ add_to_thing b t id num
          ])
      at_slot none = placed-IsSteady b.store.free
      at_slot (some t) = added-IsSteady t

module _ (b : Bag) (pos num : ℕ) (v : IsSteady b) where
  removed-IsSteady : (t : ℕ) → IsSteady (remove_from_thing b pos t num)
  unfolding remove_from_thing
  removed-IsSteady t = elim (Bool-cases ((b.store.obj t).num - num == 0)) [
    | inl e ↦ rw e (stored-IsSteady b pos none _ v)
    | inr e ↦ rw e (pool-IsSteady b _ v)
  ]

  pub delete_thing_bypos-IsSteady : LeavesSteady (delete_thing_bypos b pos num)
  unfolding delete_thing_bypos
  delete_thing_bypos-IsSteady = elim (Bool-cases (leb b.container.max_thing_num pos)) [
    | inl e ↦ rw e v
    | inr e ↦ rw e (at_slot (pointer_at b.container.things pos))
  ]
    where
      at_slot :
          (o : Option ℕ)
          → LeavesSteady (elim o [
            | none ↦ (err 10, b)
            | some t ↦
                if ltb (b.store.obj t).num num
                then (err 10, b)
                else (ok 0, remove_from_thing b pos t num)
          ])
      at_slot none = v
      at_slot (some t) = elim (Bool-cases (ltb (b.store.obj t).num num)) [
        | inl e ↦ rw e v
        | inr e ↦ rw e (removed-IsSteady t)
      ]
