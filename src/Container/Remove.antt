-- ===== src/Container/Remove.antt =====
-- delete_thing_bypos on every way out.
use txgg.Base.{
  ℕ, zero, suc, ◌+◌, ◌-◌, ◌≤◌, ◌<◌, ◌≡◌, ◌⊎◌, refl, Option, none, some, List, [], ◌∷◌, arith, ◌==◌,
  if◌then◌else◌, set, Bool-cases, inl, inr, leb, ltb, Code, ok, err, leb→le,
}
use txgg.Container.{
  Idx, ThingObj, Bag, null_idx, pointer_at, update, destory_thing_obj, remove_from_thing,
  delete_thing_bypos, count_thing_num,
}
use txgg.Container.Invariant.{IsValid, IsValid-obj, removed}
use txgg.Container.Count.{held, count_change, count_gone}

pub pointer_at-set_null : (xs : List Idx) (pos : ℕ) → pointer_at (set xs pos null_idx) pos ≡ none
pointer_at-set_null [] pos = refl
pointer_at-set_null (x ∷ xs) zero = refl
pointer_at-set_null (x ∷ xs) (suc pos) = pointer_at-set_null xs pos

module _ (b : Bag) (pos num : ℕ) where
  -- delete_thing_bypos: the count of the slot's item falls by `num` and no other changes, or
  -- nothing does, since the position is too large or the slot holds fewer.
  abbrev pub Deletes : Code × Bag → Type 0
  Deletes (ok n, b') =
      (n ≡ 0)
      × (pos < b.container.max_thing_num)
      × IsValid b'
      × ((t : ℕ) × (pointer_at b.container.things pos ≡ some t)
          × ((j : ℕ)
              → count_thing_num b' j + (if (b.store.obj t).id == j then num else 0)
                ≡ count_thing_num b j))
      × (held b' pos + num ≡ held b pos)
  Deletes (err n, b') =
      (b' ≡ b)
      × (((n ≡ 1) × (b.container.max_thing_num ≤ pos))
          ⊎ ((n ≡ 10) × (pointer_at b.container.things pos ≡ none))
          ⊎ ((n ≡ 10) × (held b pos < num)))

  remove-Deletes :
      (t : ℕ)
      → pointer_at b.container.things pos ≡ some t
      → IsValid b
      → num ≤ (b.store.obj t).num
      → pos < b.container.max_thing_num
      → Deletes (ok 0, remove_from_thing b pos t num)
  unfolding remove_from_thing destory_thing_obj
  remove-Deletes t e v le h =
      let w : ThingObj = record (b.store.obj t) { num = (b.store.obj t).num - num } in
      elim (Bool-cases ((b.store.obj t).num - num == 0)) [
        | inl z ↦ rw z (
          refl,
          h,
          removed b pos v t w e,
          (t, e, λ j. ground (arith, count_gone b pos v h j t w (t ∷ b.store.free) e, z, le)),
          ground (arith, pointer_at-set_null b.container.things pos, e, z, le),
        )
        | inr z ↦ rw z (
          refl,
          h,
          IsValid-obj b (update b.store.obj t w) v,
          (t, e, λ j. ground (arith, count_change b pos v h j t w e, z, le)),
          ground (arith, e, z, le),
        )
      ]

  delete-Deletes :
      (o : Option ℕ)
      → pointer_at b.container.things pos ≡ o
      → IsValid b
      → pos < b.container.max_thing_num
      → Deletes (elim o [
        | none ↦ (err 10, b)
        | some t ↦
            if ltb (b.store.obj t).num num
            then (err 10, b)
            else (ok 0, remove_from_thing b pos t num)
      ])
  delete-Deletes none e v h = (refl, inr (inl (refl, e)))
  delete-Deletes (some t) e v h = elim (Bool-cases (ltb (b.store.obj t).num num)) [
    | inl z ↦ rw z (refl, inr (inr (refl, ground (arith, e, z))))
    | inr z ↦ rw z (remove-Deletes t e v (ground (arith, z)) h)
  ]

  -- delete_thing_bypos: on success the count of the slot's item falls by the amount, no other count
  -- changes, the slot holds that much less and ownership stays sound; it fails exactly for a
  -- position past the limit, an empty slot or too small a number, and then changes nothing.
  pub delete_thing_bypos-Deletes : IsValid b → Deletes (delete_thing_bypos b pos num)
  unfolding delete_thing_bypos
  delete_thing_bypos-Deletes v = elim (Bool-cases (leb b.container.max_thing_num pos)) [
    | inl e ↦ rw e (refl, inl (refl, leb→le _ _ e))
    | inr e ↦ rw e (delete-Deletes (pointer_at b.container.things pos) refl v (ground arith))
  ]
