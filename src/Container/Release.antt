-- ===== src/Container/Release.antt =====
-- The end of a bag: role_logout of server/game_srv/role.c gives the things of its slots back to the
-- pool, one after the other.
use txgg.Base.{
  ℕ, ◌+◌, ◌≡◌, refl, inl, inr, Bool-cases, true, false, ◌||◌, Option, none, some, List, [], ◌∷◌,
  arith, length, take,
}
use txgg.Container.{Idx, Things, Bag, destory_thing_obj}
use txgg.Container.Slots.{is_at, points, GoodSlot, GoodSlots, GoodSlots-take, points-take}
use txgg.Container.Invariant.{IsValid, GoodFree, listed}

-- The body of the loop.
abbrev pub destory_slot : Option ℕ → Things → Things
destory_slot none s = s
destory_slot (some t) s = destory_thing_obj s t

-- The loop.
pub destory_slots : List Idx → Things → Things
destory_slots [] s = s
destory_slots (x ∷ xs) s = destory_slots xs (destory_slot x.p s)

-- What role_logout does to the things of the bag.
pub destory_bag_things : Bag → Things
unfolding destory_slots
destory_bag_things b = destory_slots (take b.container.max_thing_num b.container.things) b.store

-- How many slots hold a thing.
abbrev pub held_slots : List Idx → ℕ
held_slots [] = 0
held_slots (x ∷ xs) = elim x.p [ none ↦ 0 | some t ↦ 1 ] + held_slots xs

-- The pool got back the things of the slots, each once.
pub record GotBack (xs : List Idx) (s s' : Things) : Type 0 where
  pub sound : GoodFree s'.free
  pub back : (t : ℕ) → listed t s'.free ≡ (points t xs || listed t s.free)
  pub once : length s'.free ≡ length s.free + held_slots xs

destory_slots-GotBack :
    (xs : List Idx) (s : Things)
    → GoodSlots xs
    → GoodFree s.free
    → ((t : ℕ) → points t xs ≡ true → listed t s.free ≡ false)
    → GotBack xs s (destory_slots xs s)
unfolding destory_slots destory_thing_obj
destory_slots-GotBack [] s g f a = record { sound = f; back = λ t. refl; once = omega arith }
destory_slots-GotBack (x ∷ xs) s g f a =
    from_pointer x.p x.idx g.0 a (λ s' f' a'. destory_slots-GotBack xs s' g.1 f' a')
  where
    Rest : Type 0
    Rest =
        (s' : Things)
        → GoodFree s'.free
        → ((t : ℕ) → points t xs ≡ true → listed t s'.free ≡ false)
        → GotBack xs s' (destory_slots xs s')

    from_pointer :
        (o : Option ℕ) (i : ℕ)
        → GoodSlot o i xs
        → ((t : ℕ) → (is_at t o || points t xs) ≡ true → listed t s.free ≡ false)
        → Rest
        → GotBack (record { p = o; idx = i } ∷ xs) s (destory_slots xs (destory_slot o s))
    from_pointer none i h a' rest =
        let r = rest s f a' in
        record { sound = r.sound; back = λ u. r.back u; once = omega (arith, r.once) }
    from_pointer (some t) i h a' rest =
        let r =
          rest (destory_thing_obj s t) (h.1, a' t (ground arith), f)
            (λ u e. ground (arith, h, e, a' u)) in
        record {
          sound = r.sound;
          back = λ u. ground (arith, r.back u);
          once = omega (arith, r.once);
        }

-- The things of a bag in which each has one owner, when its role logs out: the pool gets all of the
-- slots below the limit back, each once, and none that is free already; its free list is longer by
-- the number of those slots that held one, and stays without repetition.
pub destory_bag_things-GotBack :
    (b : Bag)
    → IsValid b
    → GotBack (take b.container.max_thing_num b.container.things) b.store (destory_bag_things b)
unfolding destory_bag_things
destory_bag_things-GotBack b v =
    let n = b.container.max_thing_num in
    let xs = b.container.things in
    destory_slots-GotBack (take n xs) b.store (GoodSlots-take n xs v.slots) v.free (λ t e.
      elim (Bool-cases (points t xs)) [
        | inl p ↦ v.apart t p
        | inr p ↦ absurd (ground (arith, e, points-take t n xs p))
      ])
