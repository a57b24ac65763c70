-- ===== src/Container/Slots.antt =====
-- The slots of a container: which things they point to, and what a write does to the total.
use txgg.Base.{
  ℕ, zero, suc, ◌+◌, ◌<◌, ◌≡◌, ◌≢◌, refl, ap, Bool, true, false, ◌||◌, Option, none, some, List, [],
  ◌∷◌, arith, ◌==◌, if◌then◌else◌, length, set, take,
}
use txgg.Container.{
  Idx, ThingObj, max_idx, null_idx, pointer_at, update, idx_of, num_of, count_slots,
}

abbrev pub is_at : ℕ → Option ℕ → Bool
is_at t none = false
is_at t (some u) = u == t

-- Some slot points to the thing `t`.
abbrev pub points : ℕ → List Idx → Bool
points t [] = false
points t (x ∷ xs) = is_at t x.p || points t xs

-- The index of a slot is that of the thing, or MAX_IDX for NULL, and no other slot shares the thing.
abbrev pub GoodSlot : Option ℕ → ℕ → List Idx → Type 0
GoodSlot none i xs = i ≡ max_idx
GoodSlot (some t) i xs = (i ≡ t) × (t < max_idx) × (points t xs ≡ false)

abbrev pub GoodSlots : List Idx → Type 0
GoodSlots [] = Unit
GoodSlots (x ∷ xs) = GoodSlot x.p x.idx xs × GoodSlots xs

pub points-at : (xs : List Idx) (pos t : ℕ) → pointer_at xs pos ≡ some t → points t xs ≡ true
points-at [] pos t e = cc
points-at (x ∷ xs) zero t e = ground arith
points-at (x ∷ xs) (suc pos) t e = ground (arith, points-at xs pos t e)

module _ (obj : ℕ → ThingObj) (id : ℕ) where
  -- Storing a thing that no slot points to in an empty slot.
  pub count-set :
      (xs : List Idx) (pos t : ℕ)
      → GoodSlots xs
      → pos < length xs
      → pointer_at xs pos ≡ none
      → t < max_idx
      → count_slots obj id (set xs pos (idx_of (some t)))
        ≡ count_slots obj id xs + num_of obj id (some t)
  unfolding count_slots
  count-set [] pos t g h e l = absurd (omega arith)
  count-set (x ∷ xs) zero t g h e l = ground arith
  count-set (x ∷ xs) (suc pos) t g h e l = omega (arith, count-set xs pos t g.1 (omega arith) e l)

  -- Clearing a slot.
  pub count-clear :
      (xs : List Idx) (pos t : ℕ)
      → GoodSlots xs
      → pointer_at xs pos ≡ some t
      → count_slots obj id (set xs pos null_idx) + num_of obj id (some t) ≡ count_slots obj id xs
  unfolding count_slots
  count-clear [] pos t g e = cc
  count-clear (x ∷ xs) zero t g e = ground arith
  count-clear (x ∷ xs) (suc pos) t g e = omega (arith, count-clear xs pos t g.1 e)

  -- A thing that no slot points to does not count.
  pub count-update_ne :
      (xs : List Idx) (t : ℕ) (v : ThingObj)
      → points t xs ≡ false
      → count_slots (update obj t v) id xs ≡ count_slots obj id xs
  unfolding count_slots
  count-update_ne [] t v e = refl
  count-update_ne (x ∷ xs) t v e = ground (arith, count-update_ne xs t v)

  -- Changing the thing of a slot changes its share only.
  pub count-update :
      (xs : List Idx) (pos t : ℕ) (v : ThingObj)
      → GoodSlots xs
      → pointer_at xs pos ≡ some t
      → count_slots (update obj t v) id xs + num_of obj id (some t)
        ≡ count_slots obj id xs + (if v.id == id then v.num else 0)
  unfolding count_slots
  count-update [] pos t v g e = cc
  count-update (x ∷ xs) zero t v g e = ground (arith, count-update_ne xs t v)
  count-update (x ∷ xs) (suc pos) t v g e =
      ground (arith, count-update xs pos t v, points-at xs pos t)

pub ≢true : {b : Bool} → b ≢ true → b ≡ false
≢true {b = true} h = absurd (h refl)
≢true {b = false} h = refl

-- A write makes no slot point to a thing but the one that it stores.
pub points-set :
    (u : ℕ) (xs : List Idx) (pos : ℕ) (o : Option ℕ)
    → points u (set xs pos (idx_of o)) ≡ true
    → (is_at u o || points u xs) ≡ true
points-set u [] pos o e = cc
points-set u (x ∷ xs) zero none e = ground arith
points-set u (x ∷ xs) zero (some t) e = ground arith
points-set u (x ∷ xs) (suc pos) none e = ground (arith, points-set u xs pos none)
points-set u (x ∷ xs) (suc pos) (some t) e = ground (arith, points-set u xs pos (some t))

pub points-clear :
    (t : ℕ) (xs : List Idx) (pos : ℕ)
    → GoodSlots xs
    → pointer_at xs pos ≡ some t
    → points t (set xs pos null_idx) ≡ false
points-clear t [] pos g e = refl
points-clear t (x ∷ xs) zero g e = ground arith
points-clear t (x ∷ xs) (suc pos) g e = ground (arith, points-clear t xs pos, points-at xs pos t e)

pub GoodSlots-store :
    (xs : List Idx) (pos t : ℕ)
    → GoodSlots xs
    → points t xs ≡ false
    → t < max_idx
    → GoodSlots (set xs pos (idx_of (some t)))
GoodSlots-store [] pos t g e l = tt
GoodSlots-store (x ∷ xs) zero t g e l = ground arith
GoodSlots-store (x ∷ xs) (suc pos) t g e l =
    (keep x.p g.0, GoodSlots-store xs pos t g.1 (ground arith) l)
  where
    keep : (o : Option ℕ) → GoodSlot o x.idx xs → GoodSlot o x.idx (set xs pos (idx_of (some t)))
    keep none h = h
    keep (some u) h = (h.0, h.1, ≢true (λ q. ground (arith, points-set u xs pos (some t) q)))

pub GoodSlots-clear : (xs : List Idx) (pos : ℕ) → GoodSlots xs → GoodSlots (set xs pos null_idx)
GoodSlots-clear [] pos g = tt
GoodSlots-clear (x ∷ xs) zero g = (refl, g.1)
GoodSlots-clear (x ∷ xs) (suc pos) g = (keep x.p g.0, GoodSlots-clear xs pos g.1)
  where
    keep : (o : Option ℕ) → GoodSlot o x.idx xs → GoodSlot o x.idx (set xs pos null_idx)
    keep none h = h
    keep (some u) h = (h.0, h.1, ≢true (λ q. ground (arith, points-set u xs pos none q)))

pub points-take : (u n : ℕ) (xs : List Idx) → points u xs ≡ false → points u (take n xs) ≡ false
points-take u zero xs e = refl
points-take u (suc n) [] e = refl
points-take u (suc n) (x ∷ xs) e = ground (arith, points-take u n xs)

-- The slots below the limit, which the loops walk.
pub GoodSlots-take : (n : ℕ) (xs : List Idx) → GoodSlots xs → GoodSlots (take n xs)
GoodSlots-take zero xs g = tt
GoodSlots-take (suc n) [] g = tt
GoodSlots-take (suc n) (x ∷ xs) g = (keep x.p g.0, GoodSlots-take n xs g.1)
  where
    keep : (o : Option ℕ) → GoodSlot o x.idx xs → GoodSlot o x.idx (take n xs)
    keep none h = h
    keep (some u) h = (h.0, h.1, points-take u n xs h.2)

pub pointer_at-take :
    (n : ℕ) (xs : List Idx) (pos : ℕ) → pos < n → pointer_at (take n xs) pos ≡ pointer_at xs pos
pointer_at-take zero xs pos h = absurd (omega arith)
pointer_at-take (suc n) [] pos h = refl
pointer_at-take (suc n) (x ∷ xs) zero h = refl
pointer_at-take (suc n) (x ∷ xs) (suc pos) h = pointer_at-take n xs pos (omega arith)

pub take-set :
    (n : ℕ) (xs : List Idx) (pos : ℕ) (v : Idx) → take n (set xs pos v) ≡ set (take n xs) pos v
take-set zero xs pos v = refl
take-set (suc n) [] pos v = refl
take-set (suc n) (x ∷ xs) zero v = refl
take-set (suc n) (x ∷ xs) (suc pos) v = ap (◌∷◌ x) (take-set n xs pos v)

pub pointer_at-lt :
    (xs : List Idx) (pos t : ℕ) → GoodSlots xs → pointer_at xs pos ≡ some t → t < max_idx
pointer_at-lt [] pos t g e = cc
pointer_at-lt (x ∷ xs) zero t g e = ground arith
pointer_at-lt (x ∷ xs) (suc pos) t g e = pointer_at-lt xs pos t g.1 e
