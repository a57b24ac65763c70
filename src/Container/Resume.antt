-- ===== src/Container/Resume.antt =====
-- resume_container_data after a restart: the pointers are garbage, the indices are kept.
use txgg.Base.{
  ℕ, zero, suc, ◌≡◌, ◌<◌, refl, ap, ◌∙◌, ==_self, ==_ne, lt→ltb, true, Option, none, some, List, [],
  ◌∷◌, arith, take,
}
use txgg.Container.{Idx, Bag, max_idx, resume_slot, resume_slots, resume_container_data}
use txgg.Container.Slots.{GoodSlot, GoodSlots, is_at, points}
use txgg.Container.Invariant.{IsValid}

-- The slots after a restart: every pointer but NULL is replaced.
abbrev pub lost : (ℕ → Option ℕ) → Idx → Idx
lost garbage x = elim x.p [ none ↦ x | some t ↦ record x { p = garbage t } ]

abbrev pub restarted : (ℕ → Option ℕ) → List Idx → List Idx
restarted garbage [] = []
restarted garbage (x ∷ xs) = lost garbage x ∷ restarted garbage xs

module _ (garbage : ℕ → Option ℕ) (max : ℕ) where
  resume_slot-lost :
      (o : Option ℕ) (i : ℕ) (xs : List Idx)
      → GoodSlot o i xs
      → ((t : ℕ) → is_at t o ≡ true → t < max)
      → resume_slot max (lost garbage (record { p = o; idx = i })) ≡ record { p = o; idx = i }
  resume_slot-lost none i xs g h = rw g refl
  resume_slot-lost (some t) i xs g h =
      rw (g.0, ==_ne t max_idx (λ e. omega (arith, g.1)), lt→ltb t max (h t (==_self t))) refl

  resume_slots-restarted :
      (n : ℕ) (xs : List Idx)
      → GoodSlots xs
      → ((t : ℕ) → points t xs ≡ true → t < max)
      → take n (resume_slots max n (restarted garbage xs)) ≡ take n xs
  unfolding resume_slots
  resume_slots-restarted zero xs g h = refl
  resume_slots-restarted (suc n) [] g h = refl
  resume_slots-restarted (suc n) (x ∷ xs) g h =
      ap (λ y. y ∷ take n (resume_slots max n (restarted garbage xs)))
        (resume_slot-lost x.p x.idx xs g.0 (λ t m. h t (rw m refl)))
      ∙ ap (◌∷◌ x) (resume_slots-restarted n xs g.1 (λ t m. h t (ground (arith, m))))

  -- After a restart, resume_container_data gives every usable slot its pointer back, whatever the
  -- old pointers are, if the things in the slots are objects of the pool.
  pub resume_container_data-restarted :
      (b : Bag)
      → IsValid b
      → ((t : ℕ) → points t b.container.things ≡ true → t < max)
      → let c =
          resume_container_data max
            (record b.container { things = restarted garbage b.container.things }) in
        (c.max_thing_num ≡ b.container.max_thing_num)
        × (take c.max_thing_num c.things ≡ take b.container.max_thing_num b.container.things)
  unfolding resume_container_data
  resume_container_data-restarted b v h =
      (refl, resume_slots-restarted b.container.max_thing_num b.container.things v.slots h)
