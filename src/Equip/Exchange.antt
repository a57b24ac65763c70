-- ===== src/Equip/Exchange.antt =====
-- What the exchange does to the number of each item in the bag.
use txgg.Base.{
  ℕ, ◌+◌, ◌≤◌, ◌<◌, ◌≡◌, ◌≢◌, ◌⊎◌, inl, inr, refl, Bool-cases, Option, none, some, [], arith, ◌==◌,
  if◌then◌else◌, sym, Code, ok, err,
}
use txgg.Container.{
  ThingObj, Bag, update, pointer_at, add_thing_bypos, delete_thing_bypos, count_thing_num,
}
use txgg.Container.Invariant.{IsValid, IsValid-obj}
use txgg.Container.Count.{count_change, Adds, add_thing_bypos-Adds}
use txgg.Container.Lookup.{Found, add_thing_bypos_past}
use txgg.Container.Remove.{Deletes, delete_thing_bypos-Deletes}
use txgg.Equip.{exchange, write_id}

abbrev pub OnlyOne : Option ThingObj → Type 0
OnlyOne none = Unit
OnlyOne (some thing) = thing.num ≤ 1

module _ (b : Bag) (pos : ℕ) where
  -- There is no place for the item `id`: the position is past the limit, the pool has no object
  -- for the empty slot, or the slot keeps an object of another item.
  abbrev pub NoRoom : ℕ → Type 0
  NoRoom id =
      (b.container.max_thing_num ≤ pos)
      ⊎ ((pointer_at b.container.things pos ≡ none) × (b.store.free ≡ []))
      ⊎ ((t : ℕ) × (pointer_at b.container.things pos ≡ some t) × ((b.store.obj t).id ≢ id))

  module _ (worn : ℕ) where
    -- Every item is in the bag or worn as often as before, or what was worn is lost.
    abbrev pub Exchanged : Bag × ℕ → Type 0
    Exchanged (b', id) =
        IsValid b'
        × (((j : ℕ)
              → j ≢ 0
              → count_thing_num b' j + (if id == j then 1 else 0)
                ≡ count_thing_num b j + (if worn == j then 1 else 0))
            ⊎ ((worn ≢ 0) × (b' ≡ b) × (id ≡ 0) × NoRoom worn))

    module _ (v : IsValid b) where
      put-Exchanged : (r : Code × Bag) → worn ≢ 0 → Adds b pos worn 1 r → Exchanged (r.1, 0)
      put-Exchanged (ok n, b') w a = (a.2, inl (λ j z. ground (arith, a.3 j, z)))
      put-Exchanged (err n, b') w a = rw a.1 (v, inr (w, refl, refl, a.2))

      put_back-Exchanged :
          worn ≢ 0 → Found b pos none → Exchanged ((add_thing_bypos b pos worn 1).1, 0)
      put_back-Exchanged w (inr empty) =
          put-Exchanged (add_thing_bypos b pos worn 1) w
            (add_thing_bypos-Adds b pos worn 1 v (omega (arith, empty)))
      put_back-Exchanged w (inl past) =
          rw (add_thing_bypos_past b pos worn 1 past) (v, inr (w, refl, refl, inl past))

      none-Exchanged : Found b pos none → Exchanged (exchange b pos none worn)
      unfolding exchange
      none-Exchanged found = elim (Bool-cases (worn == 0)) [
        | inl z ↦ rw z (v, inl (λ j n. ground (arith, z, n)))
        | inr z ↦ rw z (put_back-Exchanged (ground (arith, z)) found)
      ]

      take_off-Exchanged :
          (r : Code × Bag) (t : ℕ)
          → pos < b.container.max_thing_num
          → worn ≡ 0
          → pointer_at b.container.things pos ≡ some t
          → (b.store.obj t).num ≢ 0
          → Deletes b pos 1 r
          → Exchanged (r.1, (b.store.obj t).id)
      take_off-Exchanged (ok n, b') t h w e full (_, _, valid, (u, p, count), _) =
          (valid, inl (λ j z. ground (arith, count j, e, p, w, z)))
      take_off-Exchanged (err n, b') t h w e full d = absurd (ground (arith, d, e))

      some-Exchanged :
          (thing : ThingObj)
          → thing.num ≤ 1
          → Found b pos (some thing)
          → Exchanged (exchange b pos (some thing) worn)
      unfolding exchange write_id
      some-Exchanged thing one (h, full, (t, e, q)) = elim (Bool-cases (worn == 0)) [
        | inl z ↦
            rw (z, sym q)
              (take_off-Exchanged (delete_thing_bypos b pos 1) t h (ground (arith, z)) e
                (ground (arith, q, full)) (delete_thing_bypos-Deletes b pos 1 v))
        | inr z ↦
            let w : ThingObj = record (b.store.obj t) { id = worn } in
            rw (z, write_id, e)
              (
                IsValid-obj b (update b.store.obj t w) v,
                inl (λ j n. ground (arith, count_change b pos v h j t w e, q, one, full, n)),
              )
      ]

  -- The exchange of a thing that is no stack, or of an empty slot.
  pub exchange-Exchanged :
      (thing : Option ThingObj) (worn : ℕ)
      → IsValid b
      → Found b pos thing
      → OnlyOne thing
      → Exchanged worn (exchange b pos thing worn)
  exchange-Exchanged none worn v found one = none-Exchanged worn v found
  exchange-Exchanged (some thing) worn v found one = some-Exchanged worn v thing one found
