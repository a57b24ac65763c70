-- ===== src/Equip/Change.antt =====
-- What a request to change the equipment does to all that the role has, and what any number of them
-- do.
use txgg.Base.{
  ℕ, ◌≤◌, true, ◌+◌, ◌%◌, ◌≡◌, ◌≢◌, ◌⊎◌, inl, inr, refl, Bool-cases, false, Option, none, some,
  arith, ◌>>=◌, Code, ok, err, u8_mod,
}
use txgg.Container.{ThingObj, Bag, get_thingobj_bypos}
use txgg.Container.Invariant.{IsValid}
use txgg.Container.Lookup.{get_thingobj_bypos-Found}
use txgg.Equip.{
  ItemType, EquipRole, EquipChangeRequest, get_role_equip_id, set_role_equip_id, refused, exchange,
  handle_equip_change_request,
}
use txgg.Equip.Exchange.{Exchanged, NoRoom, OnlyOne, exchange-Exchanged}
use txgg.Equip.Totals.{owned, one_if, InRange, Wears, set_role_equip_id-Wears}

kept_lem : (c c' s o i w : ℕ) → c' + i ≡ c + w → o + w ≡ c' + s + i → o ≡ c + s
kept_lem c c' s o i w e f = omega (arith, e, f)

one_if-none : (j : ℕ) → j ≢ 0 → one_if j 0 ≡ 0
one_if-none j z = ground (arith, z)

lost_lem : (c s o i w : ℕ) → i ≡ 0 → o + w ≡ c + s + i → o + w ≡ c + s
lost_lem c s o i w z e = omega (arith, z, e)

-- The thing may be worn on the place: it is no stack, and its row says that it belongs there.
abbrev pub Suits : (ℕ → Option ItemType) → ℕ → Option ThingObj → Type 0
Suits config equip_pos none = Unit
Suits config equip_pos (some thing) =
    (thing.num ≤ 1)
    × ((row : ItemType) × (config thing.id ≡ some row) × (row.item_type ≡ equip_pos))

module _ (role : EquipRole) (friend_pos equip_pos pos : ℕ) where
  -- The role owns what it did, or lost what was worn, for which there is no room.
  abbrev pub Kept : EquipRole → Type 0
  Kept role' =
      ((j : ℕ) → j ≢ 0 → owned role' j ≡ owned role j)
      ⊎ ((get_role_equip_id role friend_pos equip_pos ≢ 0)
          × NoRoom role.bag pos (get_role_equip_id role friend_pos equip_pos)
          × ((j : ℕ)
              → j ≢ 0
              → owned role' j + one_if j (get_role_equip_id role friend_pos equip_pos)
                ≡ owned role j))

  -- What happens after the test of the thing.
  abbrev pub Worn : Option (Code × EquipRole) → Type 0
  Worn none = ¬ InRange friend_pos equip_pos
  Worn (some (err n, role')) = ⊥
  Worn (some (ok n, role')) =
      (n ≡ 0) × InRange friend_pos equip_pos × IsValid role'.bag × Kept role'

  -- A thing that does not suit is refused, and any other is not.
  abbrev pub Changes : (ℕ → Option ItemType) → Option (Code × EquipRole) → Type 0
  Changes config r =
      ((¬ Suits config equip_pos (get_thingobj_bypos role.bag pos)) × (r ≡ some (err 30, role)))
      ⊎ (Suits config equip_pos (get_thingobj_bypos role.bag pos) × Worn r)

  Exchanged-Worn :
      (b : Bag) (id : ℕ) (r : Option EquipRole)
      → Exchanged role.bag pos (get_role_equip_id role friend_pos equip_pos) (b, id)
      → Wears (record role { bag = b }) friend_pos equip_pos id r
      → Worn (r >>= λ role'. some (ok 0, role'))
  unfolding owned get_role_equip_id
  Exchanged-Worn b id none x w = w
  Exchanged-Worn b id (some role') (v, inl all) (range, same, moved) =
      (refl, range, rw same v, inl (λ j z. kept_lem _ _ _ _ _ _ (all j z) (moved j)))
  Exchanged-Worn b id (some role') (v, inr (worn, stays, nothing, room)) (range, same, moved) = (
    refl,
    range,
    rw same v,
    inr (
      worn,
      room,
      λ j z. lost_lem _ _ _ _ _ (one_if-none j z) (rw (stays, nothing) at (moved j)),
    ),
  )

  Suits-OnlyOne :
      (config : ℕ → Option ItemType) (thing : Option ThingObj)
      → Suits config equip_pos thing
      → OnlyOne thing
  Suits-OnlyOne config none h = tt
  Suits-OnlyOne config (some thing) h = h.0

  refused-Suits :
      (config : ℕ → Option ItemType) (thing : Option ThingObj)
      → refused config thing equip_pos ≡ false
      → Suits config equip_pos thing
  unfolding refused
  refused-Suits config none e = tt
  refused-Suits config (some thing) e = (ground (arith, e), row (config thing.id) refl)
    where
      row :
          (o : Option ItemType)
          → config thing.id ≡ o
          → (r : ItemType) × (config thing.id ≡ some r) × (r.item_type ≡ equip_pos)
      row none f = absurd (ground (arith, e, f))
      row (some r) f = (r, f, ground (arith, e, f))

  refused-not_Suits :
      (config : ℕ → Option ItemType) (thing : Option ThingObj)
      → refused config thing equip_pos ≡ true
      → ¬ Suits config equip_pos thing
  unfolding refused
  refused-not_Suits config none e h = absurd (ground (arith, e))
  refused-not_Suits config (some thing) e (one, (r, f, g)) = absurd (ground (arith, e, one, f, g))

-- What a request does, with the positions it names.
abbrev pub Answers :
    (ℕ → Option ItemType)
    → EquipRole
    → Option EquipChangeRequest
    → Option (Code × EquipRole)
    → Type 0
Answers config role none r = r ≡ some (err 20, role)
Answers config role (some req) r =
    Changes role req.friend_pos req.equip_pos (req.bag_pos % u8_mod) config r

module _ (config : ℕ → Option ItemType) where
  -- handle_equip_change_request on every request, for a role whose things have one owner each: one
  -- that cannot be unpacked is answered with -20 and changes nothing. A thing that is found at the
  -- position in the bag and is a stack, or has no row, or belongs on another place of the body, is
  -- refused with -30 and nothing changes; and nothing else is refused. Then the server fails an assert
  -- exactly for a friend or a place of the body out of range; and if it does not, ownership stays
  -- sound and the role has as many of every item as before, in the bag and on the team together, but
  -- for one way out: where something is worn and the slot named has no room for it, what was worn is
  -- lost, although the answer is a success.
  pub handle_equip_change_request-Answers :
      (role : EquipRole) (req : Option EquipChangeRequest)
      → IsValid role.bag
      → Answers config role req (handle_equip_change_request config role req)
  unfolding handle_equip_change_request
  handle_equip_change_request-Answers role none v = refl
  handle_equip_change_request-Answers role (some req) v =
      let f = req.friend_pos in
      let e = req.equip_pos in
      let pos = req.bag_pos % u8_mod in
      let thing = get_thingobj_bypos role.bag pos in
      let worn = get_role_equip_id role f e in
      let (bag, id) = exchange role.bag pos thing worn in
      elim (Bool-cases (refused config thing e)) [
        | inl bad ↦ rw bad (inl (refused-not_Suits role f e pos config thing bad, refl))
        | inr good ↦
            let suits = refused-Suits role f e pos config thing good in
            rw good (
              inr (
                suits,
                Exchanged-Worn role f e pos bag id
                    (set_role_equip_id (record role { bag = bag }) f e id)
                    (exchange-Exchanged role.bag pos thing worn v
                      (get_thingobj_bypos-Found role.bag pos)
                      (Suits-OnlyOne role f e pos config thing suits))
                    (set_role_equip_id-Wears (record role { bag = bag }) f e id),
              ))
      ]
