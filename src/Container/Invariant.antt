-- ===== src/Container/Invariant.antt =====
-- The ownership invariant of a container and the pool: each thing in a slot is in no other slot and
-- not free. It is what makes a write through one slot's pointer a change of that slot alone.
use txgg.Base.{
  ℕ, ◌≤◌, ◌<◌, ◌≡◌, Bool, true, false, ◌||◌, none, some, List, [], ◌∷◌, arith, ◌==◌, length, set,
  length-set, Bool-cases, inl, inr,
}
use txgg.Container.{ThingObj, Bag, max_idx, null_idx, pointer_at, update, idx_of}
use txgg.Container.Slots.{
  points, GoodSlots, points-at, points-set, points-clear, GoodSlots-store, GoodSlots-clear,
  pointer_at-lt,
}

abbrev pub listed : ℕ → List ℕ → Bool
listed t [] = false
listed t (u ∷ us) = u == t || listed t us

abbrev pub GoodFree : List ℕ → Type 0
GoodFree [] = Unit
GoodFree (t ∷ ts) = (t < max_idx) × (listed t ts ≡ false) × GoodFree ts

pub record IsValid (b : Bag) : Type 0 where
  pub slots : GoodSlots b.container.things
  pub free : GoodFree b.store.free
  pub apart : (t : ℕ) → points t b.container.things ≡ true → listed t b.store.free ≡ false
  pub fits : b.container.max_thing_num ≤ length b.container.things

-- The slot's thing cannot be the free object that is taken.
pub fresh_thing :
    (b : Bag) (t : ℕ) (rest : List ℕ)
    → IsValid b
    → b.store.free ≡ t ∷ rest
    → points t b.container.things ≡ false
fresh_thing b t rest v e = elim (Bool-cases (points t b.container.things)) [
  | inl p ↦ let q : listed t (t ∷ rest) ≡ false = rw e at (v.apart t p) in ground (arith, q)
  | inr p ↦ p
]

module _ (b : Bag) (pos : ℕ) (v : IsValid b) where
  pub added_new :
      (t : ℕ) (rest : List ℕ) (v' : ThingObj)
      → b.store.free ≡ t ∷ rest
      → IsValid (record {
        container = record b.container { things = set b.container.things pos (idx_of (some t)) };
        store = record { obj = update b.store.obj t v'; free = rest };
      })
  added_new t rest v' e =
      let new = fresh_thing b t rest v e in
      let f : GoodFree (t ∷ rest) = rw e at v.free in
      record {
        slots = GoodSlots-store b.container.things pos t v.slots new f.0;
        free = f.2;
        apart = λ u p.
            let q = points-set u b.container.things pos (some t) p in
            let old : points u b.container.things ≡ true → listed u (t ∷ rest) ≡ false =
              λ r. rw e at (v.apart u r) in
            ground (arith, q, f, old);
        fits = rw (length-set b.container.things pos (idx_of (some t))) v.fits;
      }

  pub removed :
      (t : ℕ) (v' : ThingObj)
      → pointer_at b.container.things pos ≡ some t
      → IsValid (record {
        container = record b.container { things = set b.container.things pos null_idx };
        store = record { obj = update b.store.obj t v'; free = t ∷ b.store.free };
      })
  removed t v' e = record {
    slots = GoodSlots-clear b.container.things pos v.slots;
    free = (
      pointer_at-lt b.container.things pos t v.slots e,
      v.apart t (points-at b.container.things pos t e),
      v.free,
    );
    apart = λ u p. ground (
      arith,
      p,
      points-set u b.container.things pos none p,
      points-clear t b.container.things pos v.slots e,
      v.apart u,
    );
    fits = rw (length-set b.container.things pos null_idx) v.fits;
  }

-- Pool objects change while the slots and the free list stay.
pub IsValid-obj :
    (b : Bag) (obj : ℕ → ThingObj)
    → IsValid b
    → IsValid (record b { store = record b.store { obj = obj } })
IsValid-obj b obj v = record { slots = v.slots; free = v.free; apart = v.apart; fits = v.fits }
