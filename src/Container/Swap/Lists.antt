-- ===== src/Container/Swap/Lists.antt =====
-- The slots of a container when two of them change places: each thing stays in one slot, and the
-- count of each item stays.
use txgg.Base.{
  ℕ, zero, suc, ◌+◌, ◌<◌, ◌≡◌, ◌≢◌, ◌∙◌, refl, sym, ap, subst, inl, inr, true, false, ◌||◌,
  Bool-cases, ==_iff, Option, none, some, List, [], ◌∷◌, arith, ◌==◌, length, set, length-set,
}
use txgg.Container.{Idx, ThingObj, max_idx, null_idx, idx_of, pointer_at, num_of, count_slots}
use txgg.Container.Slots.{
  is_at, points, GoodSlots, count-set, count-clear, points-at, points-set, points-clear,
  GoodSlots-store, GoodSlots-clear, pointer_at-lt, ≢true,
}
use txgg.Container.Remove.{pointer_at-set_null}

set-set_same {ℓ} : {A : Type ℓ} (xs : List A) (i : ℕ) (v w : A) → set (set xs i v) i w ≡ set xs i w
set-set_same [] i v w = refl
set-set_same (x ∷ xs) zero v w = refl
set-set_same (x ∷ xs) (suc i) v w = ap (◌∷◌ x) (set-set_same xs i v w)

set-set_ne {ℓ} :
    {A : Type ℓ} (xs : List A) (i j : ℕ) (v w : A)
    → (i == j) ≡ false
    → set (set xs i v) j w ≡ set (set xs j w) i v
set-set_ne [] i j v w e = refl
set-set_ne (x ∷ xs) zero zero v w e = absurd (ground (arith, e))
set-set_ne (x ∷ xs) zero (suc j) v w e = refl
set-set_ne (x ∷ xs) (suc i) zero v w e = refl
set-set_ne (x ∷ xs) (suc i) (suc j) v w e = ap (◌∷◌ x) (set-set_ne xs i j v w (ground (arith, e)))

pointer_at-set_ne :
    (xs : List Idx) (i j : ℕ) (v : Idx)
    → (i == j) ≡ false
    → pointer_at (set xs i v) j ≡ pointer_at xs j
pointer_at-set_ne [] i j v e = refl
pointer_at-set_ne (x ∷ xs) zero zero v e = absurd (ground (arith, e))
pointer_at-set_ne (x ∷ xs) zero (suc j) v e = refl
pointer_at-set_ne (x ∷ xs) (suc i) zero v e = refl
pointer_at-set_ne (x ∷ xs) (suc i) (suc j) v e = pointer_at-set_ne xs i j v (ground (arith, e))

-- No slot points to the thing, which has an index.
abbrev Fresh : Option ℕ → List Idx → Type 0
Fresh none xs = Unit
Fresh (some t) xs = (points t xs ≡ false) × (t < max_idx)

module _ (obj : ℕ → ThingObj) (id : ℕ) where
  clear-null :
      (xs : List Idx) (i : ℕ)
      → GoodSlots xs
      → pointer_at xs i ≡ none
      → count_slots obj id (set xs i null_idx) ≡ count_slots obj id xs
  unfolding count_slots
  clear-null [] i g e = refl
  clear-null (x ∷ xs) zero g e = rw e (ground arith)
  clear-null (x ∷ xs) (suc i) g e = omega (arith, clear-null xs i g.1 e)

  -- A slot is emptied.
  taken_out :
      (xs : List Idx) (i : ℕ) (o : Option ℕ)
      → GoodSlots xs
      → pointer_at xs i ≡ o
      → GoodSlots (set xs i null_idx)
        × Fresh o (set xs i null_idx)
        × (count_slots obj id (set xs i null_idx) + num_of obj id o ≡ count_slots obj id xs)
  taken_out xs i none g e = (GoodSlots-clear xs i g, tt, omega (arith, clear-null xs i g e))
  taken_out xs i (some t) g e = (
    GoodSlots-clear xs i g,
    (points-clear t xs i g e, pointer_at-lt xs i t g e),
    count-clear obj id xs i t g e,
  )

  -- An empty slot is filled.
  put_in :
      (xs : List Idx) (i : ℕ) (o : Option ℕ)
      → GoodSlots xs
      → i < length xs
      → pointer_at xs i ≡ none
      → Fresh o xs
      → GoodSlots (set xs i (idx_of o))
        × (count_slots obj id (set xs i (idx_of o)) ≡ count_slots obj id xs + num_of obj id o)
  put_in xs i none g h e f = (GoodSlots-clear xs i g, omega (arith, clear-null xs i g e))
  put_in xs i (some t) g h e (new, lt) =
      (GoodSlots-store xs i t g new lt, count-set obj id xs i t g h e lt)

  -- The slots `i` and `j` with the pointers `p` and `q`.
  module _ (xs : List Idx) (i j : ℕ) (p q : Option ℕ) (e : (i == j) ≡ false) where
    abbrev emptied : List Idx
    emptied = set (set xs i null_idx) j null_idx

    refilled : set (set emptied i (idx_of q)) j (idx_of p) ≡ set (set xs i (idx_of q)) j (idx_of p)
    refilled =
        ap (λ ys. set ys j (idx_of p))
          (set-set_ne (set xs i null_idx) j i null_idx (idx_of q) (ground (arith, e))
            ∙ ap (λ ys. set ys j null_idx) (set-set_same xs i null_idx (idx_of q)))
        ∙ set-set_same (set xs i (idx_of q)) j null_idx (idx_of p)

    still-Fresh :
        (o : Option ℕ)
        → pointer_at (set xs i null_idx) j ≡ q
        → Fresh o (set xs i null_idx)
        → Fresh o (set emptied i (idx_of q))
    still-Fresh none at f = tt
    still-Fresh (some t) at (new, lt) = (≢true (λ r. stored q at (points-set t emptied i q r)), lt)
      where
        stored :
            (o : Option ℕ)
            → pointer_at (set xs i null_idx) j ≡ o
            → (is_at t o || points t emptied) ≢ true
        stored none at' r = ground (arith, r, new, points-set t (set xs i null_idx) j none)
        stored (some u) at' r = ground (
          arith,
          r,
          new,
          points-set t (set xs i null_idx) j none,
          points-at (set xs i null_idx) j u at',
        )

    swapped :
        GoodSlots xs
        → i < length xs
        → j < length xs
        → pointer_at xs i ≡ p
        → pointer_at xs j ≡ q
        → GoodSlots (set (set xs i (idx_of q)) j (idx_of p))
          × (count_slots obj id (set (set xs i (idx_of q)) j (idx_of p)) ≡ count_slots obj id xs)
    swapped g hi hj ei ej =
        let at = pointer_at-set_ne xs i j null_idx e ∙ ej in
        let (g1, f1, n1) = taken_out xs i p g ei in
        let (g2, f2, n2) = taken_out (set xs i null_idx) j q g1 at in
        let size1 = length-set xs i null_idx in
        let size2 = length-set (set xs i null_idx) j null_idx in
        let size3 = length-set emptied i (idx_of q) in
        let (g3, n3) =
          put_in emptied i q g2 (omega (arith, size1, size2, hi))
            (pointer_at-set_ne (set xs i null_idx) j i null_idx (ground (arith, e))
              ∙ pointer_at-set_null xs i)
            f2 in
        let (g4, n4) =
          put_in (set emptied i (idx_of q)) j p g3 (omega (arith, size1, size2, size3, hj))
            (pointer_at-set_ne emptied i j (idx_of q) e ∙ pointer_at-set_null (set xs i null_idx) j)
            (still-Fresh p at f1) in
        (
          subst GoodSlots refilled g4,
          sym (ap (count_slots obj id) refilled) ∙ omega (arith, n1, n2, n3, n4),
        )

  -- A slot whose pointer is stored again.
  stored_again :
      (xs : List Idx) (i : ℕ) (p : Option ℕ)
      → GoodSlots xs
      → i < length xs
      → pointer_at xs i ≡ p
      → GoodSlots (set (set xs i (idx_of p)) i (idx_of p))
        × (count_slots obj id (set (set xs i (idx_of p)) i (idx_of p)) ≡ count_slots obj id xs)
  stored_again xs i p g hi ei =
      let (g1, f1, n1) = taken_out xs i p g ei in
      let (g2, n2) =
        put_in (set xs i null_idx) i p g1 (omega (arith, length-set xs i null_idx, hi))
          (pointer_at-set_null xs i) f1 in
      let back =
        set-set_same xs i null_idx (idx_of p) ∙ sym (set-set_same xs i (idx_of p) (idx_of p)) in
      (subst GoodSlots back g2, sym (ap (count_slots obj id) back) ∙ omega (arith, n1, n2))

  pub exchanged :
      (xs : List Idx) (i j : ℕ) (p q : Option ℕ)
      → GoodSlots xs
      → i < length xs
      → j < length xs
      → pointer_at xs i ≡ p
      → pointer_at xs j ≡ q
      → GoodSlots (set (set xs i (idx_of q)) j (idx_of p))
        × (count_slots obj id (set (set xs i (idx_of q)) j (idx_of p)) ≡ count_slots obj id xs)
  exchanged xs i j p q g hi hj ei ej = elim (Bool-cases (i == j)) [
    | inr e ↦ swapped xs i j p q e g hi hj ei ej
    | inl e ↦
        let same = (==_iff i j).0 e in
        let pq : p ≡ q = sym ei ∙ ap (pointer_at xs) same ∙ ej in
        rw (sym pq, sym same) (stored_again xs i p g hi ei)
  ]

pub points-exchanged :
    (t : ℕ) (xs : List Idx) (i j : ℕ) (p q : Option ℕ)
    → pointer_at xs i ≡ p
    → pointer_at xs j ≡ q
    → points t (set (set xs i (idx_of q)) j (idx_of p)) ≡ true
    → points t xs ≡ true
points-exchanged t xs i j p q ei ej r = ground (
  arith,
  points-set t (set xs i (idx_of q)) j p r,
  points-set t xs i q,
  pointed i p ei,
  pointed j q ej,
)
  where
    pointed : (k : ℕ) (o : Option ℕ) → pointer_at xs k ≡ o → is_at t o ≡ true → points t xs ≡ true
    pointed k none at h = absurd (ground (arith, h))
    pointed k (some u) at h = ground (arith, h, points-at xs k u at)
