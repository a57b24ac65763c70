-- ===== src/Friend/Slots.antt =====
-- The slots of one array: what the scans do to the ids that it holds.
use txgg.Base.{
  ℕ, ◌+◌, ◌≤◌, ◌≡◌, ◌≢◌, ◌⊎◌, inl, inr, refl, ap, ◌∙◌, Bool-cases, Bool, true, false, ◌||◌, List,
  [], ◌∷◌, ◌++◌, arith, ◌==◌, if◌then◌else◌, ltb, length, ok, err,
}
use txgg.Friend.{add_id, shift_down, del_id, count_ids}

abbrev pub Zeros : List ℕ → Type 0
Zeros [] = Unit
Zeros (x ∷ xs) = (x ≡ 0) × Zeros xs

abbrev pub holds : ℕ → List ℕ → Bool
holds id [] = false
holds id (x ∷ xs) = x == id || holds id xs

-- Distinct ids, then free slots only.
abbrev pub Compact : List ℕ → Type 0
Compact [] = Unit
Compact (x ∷ xs) = ((x ≡ 0) × Zeros xs) ⊎ ((x ≢ 0) × (holds x xs ≡ false) × Compact xs)

holds-Zeros : (j : ℕ) (xs : List ℕ) → j ≢ 0 → Zeros xs → holds j xs ≡ false
holds-Zeros j [] h z = refl
holds-Zeros j (x ∷ xs) h z = ground (arith, holds-Zeros j xs)

Zeros-Compact : (xs : List ℕ) → Zeros xs → Compact xs
Zeros-Compact [] z = tt
Zeros-Compact (x ∷ xs) z = inl z

-- A scan that fails leaves the array alone.
pub add_id-err : (id : ℕ) (xs : List ℕ) (n : ℕ) → (add_id id xs).0 ≡ err n → (add_id id xs).1 ≡ xs
unfolding add_id
add_id-err id [] n e = refl
add_id-err id (x ∷ xs) n e = ground (arith, add_id-err id xs n)

pub holds-add_id :
    (j id : ℕ) (xs : List ℕ)
    → Compact xs
    → j ≢ 0
    → (add_id id xs).0 ≡ ok 0
    → holds j (add_id id xs).1 ≡ (id == j || holds j xs)
unfolding add_id
holds-add_id j id [] c h e = cc
holds-add_id j id (x ∷ xs) c h e = ground (arith, holds-Zeros j xs h, holds-add_id j id xs)

pub add_id-Compact :
    (id : ℕ) (xs : List ℕ)
    → Compact xs
    → id ≢ 0
    → (add_id id xs).0 ≡ ok 0
    → Compact (add_id id xs).1
unfolding add_id
add_id-Compact id [] c h e = tt
add_id-Compact id (x ∷ xs) c h e =
    ground
      (arith, holds-Zeros id xs h, Zeros-Compact xs, add_id-Compact id xs, holds-add_id x id xs)

-- The scan finds the id exactly if the array holds it.
pub add_id-taken :
    (id : ℕ) (xs : List ℕ) → Compact xs → id ≢ 0 → holds id xs ≡ true → (add_id id xs).0 ≡ err 1
unfolding add_id
add_id-taken id [] c h e = cc
add_id-taken id (x ∷ xs) c h e = ground (arith, holds-Zeros id xs h, add_id-taken id xs)

pub length-add_id : (id : ℕ) (xs : List ℕ) → length (add_id id xs).1 ≡ length xs
unfolding add_id
length-add_id id [] = refl
length-add_id id (x ∷ xs) = ground (arith, length-add_id id xs)

-- Closing the slot of the first id: what is left, and one more free slot.
shift_down-cons : (x : ℕ) (xs : List ℕ) → shift_down (x ∷ xs) ≡ xs ++ 0 ∷ []
unfolding shift_down
shift_down-cons x [] = refl
shift_down-cons x (y ∷ ys) = ap (◌∷◌ y) (shift_down-cons y ys)

Zeros-snoc : (xs : List ℕ) → Zeros xs → Zeros (xs ++ 0 ∷ [])
Zeros-snoc [] z = (refl, tt)
Zeros-snoc (x ∷ xs) z = (z.0, Zeros-snoc xs z.1)

holds-snoc : (j : ℕ) (xs : List ℕ) → j ≢ 0 → holds j (xs ++ 0 ∷ []) ≡ holds j xs
holds-snoc j [] h = ground arith
holds-snoc j (x ∷ xs) h = ground (arith, holds-snoc j xs h)

Compact-snoc : (xs : List ℕ) → Compact xs → Compact (xs ++ 0 ∷ [])
Compact-snoc [] c = inl (refl, tt)
Compact-snoc (x ∷ xs) c = ground (arith, Zeros-snoc xs, holds-snoc x xs, Compact-snoc xs)

pub del_id-err : (id : ℕ) (xs : List ℕ) (n : ℕ) → (del_id id xs).0 ≡ err n → (del_id id xs).1 ≡ xs
unfolding del_id
del_id-err id [] n e = refl
del_id-err id (x ∷ xs) n e = ground (arith, del_id-err id xs n)

pub holds-del_id :
    (j id : ℕ) (xs : List ℕ)
    → Compact xs
    → j ≢ 0
    → holds j (del_id id xs).1 ≡ (if id == j then false else holds j xs)
unfolding del_id
holds-del_id j id [] c h = ground arith
holds-del_id j id (x ∷ xs) c h =
    ground
      (arith, holds-Zeros j xs h, holds-del_id j id xs, shift_down-cons x xs, holds-snoc j xs h)

pub del_id-Compact : (id : ℕ) (xs : List ℕ) → Compact xs → Compact (del_id id xs).1
unfolding del_id
del_id-Compact id [] c = tt
del_id-Compact id (x ∷ xs) c = ground (
  arith,
  del_id-Compact id xs,
  holds-del_id x id xs,
  shift_down-cons x xs,
  Compact-snoc xs,
  Zeros-Compact xs,
)

length-snoc : (xs : List ℕ) → length (xs ++ 0 ∷ []) ≡ length xs + 1
length-snoc [] = omega arith
length-snoc (x ∷ xs) = omega (arith, length-snoc xs)

pub length-del_id : (id : ℕ) (xs : List ℕ) → length (del_id id xs).1 ≡ length xs
unfolding del_id
length-del_id id [] = refl
length-del_id id (x ∷ xs) =
    ground (arith, length-del_id id xs, shift_down-cons x xs, length-snoc xs)

-- A scan that succeeds returns 0; the id 0 never gets in, since it stands for a free slot.
pub add_id-ok : (id : ℕ) (xs : List ℕ) (n : ℕ) → (add_id id xs).0 ≡ ok n → (n ≡ 0) × (id ≢ 0)
unfolding add_id
add_id-ok id [] n e = absurd (ok≢err e)
  where
    ok≢err : ¬ (err 10 ≡ ok n)
    ok≢err e = cc
add_id-ok id (x ∷ xs) n e = ground (arith, add_id-ok id xs n)

-- On a fresh id the scan succeeds exactly while there is a free slot.
pub add_id-fresh :
    (id : ℕ) (xs : List ℕ)
    → id ≢ 0
    → holds id xs ≡ false
    → (add_id id xs).0 ≡ (if ltb (count_ids xs) (length xs) then ok 0 else err 10)
unfolding add_id count_ids
add_id-fresh id [] h e = ground arith
add_id-fresh id (x ∷ xs) h e = ground (arith, add_id-fresh id xs h)

-- What a scan that succeeds has done.
pub record Grown (id : ℕ) (xs : List ℕ) (n : ℕ) (ys : List ℕ) : Type 0 where
  pub code : n ≡ 0
  pub real : id ≢ 0
  pub compact : Compact ys
  pub len : length ys ≡ length xs
  pub fresh : holds id xs ≡ false
  pub held : (j : ℕ) → j ≢ 0 → holds j ys ≡ (id == j || holds j xs)

pub add_id-Grown :
    (id : ℕ) (xs : List ℕ) (n : ℕ) (ys : List ℕ)
    → Compact xs
    → add_id id xs ≡ (ok n, ys)
    → Grown id xs n ys
add_id-Grown id xs n ys c e = record {
  code = code;
  real = real;
  compact = rw (ap (λ r. r.1) e) at (add_id-Compact id xs c real done);
  len = rw (ap (λ r. r.1) e) at (length-add_id id xs);
  fresh = elim (Bool-cases (holds id xs)) [
    | inl t ↦ cc (add_id-taken id xs c real t, done)
    | inr f ↦ f
  ];
  held = λ j h. rw (ap (λ r. r.1) e) at (holds-add_id j id xs c h done);
}
  where
    code : n ≡ 0
    code = (add_id-ok id xs n (ap (λ r. r.0) e)).0

    real : id ≢ 0
    real = (add_id-ok id xs n (ap (λ r. r.0) e)).1

    done : (add_id id xs).0 ≡ ok 0
    done = ap (λ r. r.0) e ∙ ap ok code

pub count_ids-le : (xs : List ℕ) → count_ids xs ≤ length xs
unfolding count_ids
count_ids-le [] = omega arith
count_ids-le (x ∷ xs) = ground (arith, count_ids-le xs)
