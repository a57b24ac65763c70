-- ===== src/Pool/Alloc.antt =====
-- create and destory part the pool: every object is on exactly one of the two lists, and the free
-- list is a stack.
use txgg.Base.{
  ℕ, ◌<◌, ◌≡◌, refl, ap, ◌∙◌, sym, Bool, true, false, ◌||◌, ◌&&◌, Option, none, some, List, [], ◌∷◌,
  ◌++◌, arith, ◌==◌, ltb, if◌then◌else◌, Bool-cases, subst, ==_iff, inl, inr,
}
use txgg.Pool.{take_free, Entry, Pool, remove, create, destory}
use txgg.Pool.Ring.{Linked, holds, Ring, insert_head-Ring}
use txgg.Pool.Unlink.{remove-Ring}

-- The pool with the used objects `us` and the free objects `fs`, the next one first.
pub record IsValid (max : ℕ) (p : Pool) (us fs : List ℕ) : Type 0 where
  pub used : Ring p.used us
  pub freed : Ring p.freed fs
  pub own_used : (i : ℕ) → i < max → (p.used.entry i).idx ≡ i
  pub own_freed : (i : ℕ) → i < max → (p.freed.entry i).idx ≡ i
  pub all : (i : ℕ) → (holds i us || holds i fs) ≡ ltb i max
  pub apart : (i : ℕ) → (holds i us && holds i fs) ≡ false

-- The list without the object `e`.
abbrev pub cut : ℕ → List ℕ → List ℕ
cut e [] = []
cut e (x ∷ xs) = if x == e then xs else x ∷ cut e xs

cut-split :
    (e : ℕ) (xs : List ℕ)
    → holds e xs ≡ true
    → (fs : List ℕ) × (bs : List ℕ) × (xs ≡ fs ++ e ∷ bs) × (cut e xs ≡ fs ++ bs)
cut-split e [] h = cc
cut-split e (x ∷ xs) h = elim (Bool-cases (x == e)) [
  | inl q ↦ ([], xs, ap (λ y. y ∷ xs) ((==_iff x e).0 q), rw q refl)
  | inr q ↦
      let (fs, bs, same, rest) = cut-split e xs (ground (arith, h, q)) in
      (x ∷ fs, bs, ap (◌∷◌ x) same, rw q (ap (◌∷◌ x) rest))
]

holds-cut :
    (i e : ℕ) (xs : List ℕ)
    → holds e (cut e xs) ≡ false
    → holds i xs ≡ (if e == i then holds e xs else holds i (cut e xs))
holds-cut i e [] h = ground arith
holds-cut i e (x ∷ xs) h = ground (arith, holds-cut i e xs)

distinct-cut :
    (entry : ℕ → Entry) (q : Option ℕ) (e : ℕ) (xs : List ℕ)
    → Linked entry q xs
    → holds e (cut e xs) ≡ false
distinct-cut entry q e [] l = refl
distinct-cut entry q e (x ∷ xs) l = cut-cons e x xs l.0 (distinct-cut entry (some x) e xs l.3)
  where
    cut-cons :
        (e x : ℕ) (xs : List ℕ)
        → holds x xs ≡ false
        → holds e (cut e xs) ≡ false
        → holds e (cut e (x ∷ xs)) ≡ false
    cut-cons e x xs h h' = elim (Bool-cases (x == e)) [
      | inl t ↦ rw (t, ← (==_iff x e).0 t) h
      | inr f ↦ rw f (ground (arith, f, h'))
    ]

not_both : (e i : ℕ) (xs : List ℕ) → holds e xs ≡ false → (e == i && holds i xs) ≡ false
not_both e i xs h = elim (Bool-cases (e == i)) [
  | inl t ↦ rw (t, ← (==_iff e i).0 t) h
  | inr f ↦ rw f refl
]

-- An object that changes sides: `x` says that it is the one in question.
to_used : (x a c l : Bool) → (a || (x || c)) ≡ l → ((x || a) || c) ≡ l
to_used true true c l h = h
to_used true false c l h = h
to_used false a c l h = h

used_apart : (x a c : Bool) → (a && (x || c)) ≡ false → (x && c) ≡ false → ((x || a) && c) ≡ false
used_apart true a c h h' = h'
used_apart false a c h h' = h

to_freed : (x a c l : Bool) → ((if x then true else a) || c) ≡ l → (a || (x || c)) ≡ l
to_freed true true c l h = h
to_freed true false c l h = h
to_freed false a c l h = h

freed_apart :
    (x a c : Bool)
    → ((if x then true else a) && c) ≡ false
    → (x && a) ≡ false
    → (a && (x || c)) ≡ false
freed_apart true true c h h' = h'
freed_apart true false c h h' = refl
freed_apart false a c h h' = h

-- What create does: NULL exactly when every object is used, else the first free object.
abbrev pub Creates : ℕ → List ℕ → List ℕ → Pool → Option (Option ℕ × Pool) → Type 0
Creates max us fs p none = ⊥
Creates max us fs p (some (none, p')) = ((i : ℕ) → holds i us ≡ ltb i max) × (fs ≡ []) × (p' ≡ p)
Creates max us fs p (some (some e, p')) =
    (rest : List ℕ) × (fs ≡ e ∷ rest) × (holds e us ≡ false) × IsValid max p' (e ∷ us) rest

module _ (max : ℕ) (p : Pool) (us : List ℕ) where
  -- create.
  pub create-Creates : (fs : List ℕ) → IsValid max p us fs → Creates max us fs p (create p)
  unfolding create
  create-Creates [] v =
      subst (λ o. Creates max us [] p (take_free p o)) (sym (ap (λ l. l.p) v.freed.first))
        ((λ i. ground (arith, v.all i)), refl, refl)
  create-Creates (e ∷ fs) v =
      let new : holds e us ≡ false = ground (arith, v.apart e) in
      let apart_e : holds e fs ≡ false = v.freed.linked.0 in
      let inside : e < max = ground (arith, v.all e) in
      let (used, made, ring, same) =
        insert_head-Ring p.used e us v.used new (v.own_used e inside) in
      let (left, same') = remove-Ring p.freed e [] fs v.freed in
      subst (λ o. Creates max us (e ∷ fs) p (take_free p o)) (sym (ap (λ l. l.p) v.freed.first))
        (rw made (
          fs,
          refl,
          new,
          record {
            used = ring;
            freed = left;
            own_used = λ i h. same i ∙ v.own_used i h;
            own_freed = λ i h. same' i ∙ v.own_freed i h;
            all = λ i. to_used (e == i) (holds i us) (holds i fs) (ltb i max) (v.all i);
            apart = λ i.
                used_apart (e == i) (holds i us) (holds i fs) (v.apart i) (not_both e i fs apart_e);
          },
        ))

  -- What destory does with a used object: it is the next one to be created.
  pub destory-lem :
      (e : ℕ) (fs : List ℕ)
      → IsValid max p us fs
      → holds e us ≡ true
      → (p' : Pool) × (destory p e ≡ some p') × IsValid max p' (cut e us) (e ∷ fs)
  unfolding destory
  destory-lem e fs v h =
      let (front, back, split, gone) = cut-split e us h in
      let new : holds e fs ≡ false = ground (arith, v.apart e, h) in
      let inside : e < max = ground (arith, v.all e, h) in
      let (freed, made, ring, same) =
        insert_head-Ring p.freed e fs v.freed new (v.own_freed e inside) in
      let (left, same') = remove-Ring p.used e front back (rw split at v.used) in
      let once = distinct-cut p.used.entry none e us v.used.linked in
      let held : (i : ℕ) → holds i us ≡ (if e == i then true else holds i (cut e us)) =
        λ i. rw h at (holds-cut i e us once) in
      (
        record { used = remove p.used e; freed = freed },
        rw made refl,
        record {
          used = rw gone left;
          freed = ring;
          own_used = λ i n. same' i ∙ v.own_used i n;
          own_freed = λ i n. same i ∙ v.own_freed i n;
          all = λ i.
              to_freed (e == i) (holds i (cut e us)) (holds i fs) (ltb i max)
                (rw (held i) at (v.all i));
          apart = λ i.
              freed_apart (e == i) (holds i (cut e us)) (holds i fs) (rw (held i) at (v.apart i))
                (not_both e i (cut e us) once);
        },
      )
