-- ===== src/Pool/Start.antt =====
-- init_##name puts every object on the free list.
use native.Mathlib.Numerals.{add-one}
use txgg.Base.{
  ◌∙◌, subst, ==_iff, Bool-cases, inl, inr, none, ℕ, zero, suc, ◌+◌, ◌<◌, ◌≡◌, ◌≢◌, refl, false,
  some, List, [], ◌∷◌, arith, ltb, ◌==◌,
}
use txgg.Pool.{Circle, Pool, circle_init, init_objects, init_pool, set_idx}
use txgg.Pool.Ring.{holds, Ring, insert_head-Ring, Linked-agree, holds-≢}
use txgg.Pool.Alloc.{IsValid}

-- n - 1, …, 0
abbrev pub down : ℕ → List ℕ
down zero = []
down (suc n) = n ∷ down n

holds-down : (i n : ℕ) → holds i (down n) ≡ ltb i n
holds-down i zero = ground arith
holds-down i (suc n) = ground (arith, holds-down i n)

-- Setting the index of an object that is not on the list.
own-Ring :
    (c : Circle) (i : ℕ) (xs : List ℕ) → Ring c xs → holds i xs ≡ false → Ring (set_idx c i i) xs
own-Ring c i xs r h = record {
  first = r.first;
  last = r.last;
  linked =
      Linked-agree c.entry (set_idx c i i).entry none xs (λ j m. ground (arith, holds-≢ i j xs h m))
        r.linked;
}

record Started (p : Pool) (i : ℕ) : Type 0 where
  used : Ring p.used []
  freed : Ring p.freed (down i)
  own_used : (j : ℕ) → j < i → (p.used.entry j).idx ≡ j
  own_freed : (j : ℕ) → j < i → (p.freed.entry j).idx ≡ j

own_index :
    (c : Circle) (i j : ℕ)
    → ((j < i) → (c.entry j).idx ≡ j)
    → j < suc i
    → ((set_idx c i i).entry j).idx ≡ j
own_index c i j h l = elim (Bool-cases (i == j)) [
  | inl e ↦ rw e ((==_iff i j).0 e)
  | inr e ↦ rw e (h (omega (arith, ==_ne' i j e)))
]
  where
    ==_ne' : (i j : ℕ) → (i == j) ≡ false → i ≢ j
    ==_ne' i j e = ground arith

loop :
    (n i : ℕ) (p : Pool)
    → Started p i
    → (p' : Pool) × (init_objects n i p ≡ some p') × Started p' (n + i)
unfolding init_objects
loop zero i p s = (p, refl, subst (Started p) (omega arith) s)
loop (suc n) i p s =
    let free : holds i (down i) ≡ false = rw (holds-down i i) (ground arith) in
    let freed = set_idx p.freed i i in
    let (freed', made, ring, same) =
      insert_head-Ring freed i (down i) (own-Ring p.freed i (down i) s.freed free) free
        (own_index p.freed i i (λ l. absurd (omega arith)) (omega arith)) in
    let (p', done, s') =
      loop n (i + 1) (record { used = set_idx p.used i i; freed = freed' })
        (record {
          used = own-Ring p.used i [] s.used refl;
          freed = rw (add-one i) ring;
          own_used = λ j l. own_index p.used i j (s.own_used j) (omega arith);
          own_freed = λ j l. same j ∙ own_index p.freed i j (s.own_freed j) (omega arith);
        }) in
    (p', rw made done, subst (Started p') (omega arith) s')

-- After init_##name every object is free, whatever the memory held before, and the one with the
-- largest index is the next to be created.
pub init_pool-IsValid :
    (max : ℕ) (p : Pool) → (p' : Pool) × (init_pool max p ≡ some p') × IsValid max p' [] (down max)
unfolding init_pool circle_init
init_pool-IsValid max p =
    let (p', done, s) =
      loop max 0 (record { used = circle_init p.used; freed = circle_init p.freed })
        (record {
          used = record { first = refl; last = refl; linked = tt };
          freed = record { first = refl; last = refl; linked = tt };
          own_used = λ j l. absurd (omega arith);
          own_freed = λ j l. absurd (omega arith);
        }) in
    let s' : Started p' max = subst (Started p') (omega arith) s in
    (
      p',
      done,
      record {
        used = s'.used;
        freed = s'.freed;
        own_used = s'.own_used;
        own_freed = s'.own_freed;
        all = λ i. holds-down i max;
        apart = λ i. refl;
      },
    )
