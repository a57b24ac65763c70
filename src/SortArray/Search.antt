-- ===== src/SortArray/Search.antt =====
-- array_bsearch on a sorted array: it returns, and what it returns locates the key.
use txgg.Base.{
  ℕ, zero, suc, ◌+◌, ◌-◌, ◌/◌, ◌≤◌, ◌<◌, ◌≡◌, Ordering, Bool, true, false, Bool-cases, inl, inr,
  Option, none, some, List, arith, ◌==◌, ==_iff, length, get_elem?, length-take, get_elem?-take,
  take, trichotomy, below, same, above,
}
use txgg.SortArray.{Array, live, bsearch_loop, array_bsearch}
use txgg.SortArray.Order.{KeyOrder, IsSorted, key_at, get_elem?-key_at, IsSorted-key_at}

module _ {ℓ} {A : Type ℓ} (key : A → ℕ) where
  -- `r` parts the members into smaller and greater keys.
  pub record Splits (xs : List A) (k r : ℕ) : Type 0 where
    pub inside : r ≤ length xs
    pub before : (i : ℕ) → i < r → key_at key xs i < k
    pub after : (i : ℕ) → r ≤ i → i < length xs → k < key_at key xs i

  -- The key stands at index `r`.
  pub record Hits (xs : List A) (k r : ℕ) : Type 0 where
    pub inside : r < length xs
    pub equal : key_at key xs r ≡ k

  -- What the search says: the index of the key, or the place where it belongs.
  abbrev pub Locates : List A → ℕ → Option (Bool × ℕ) → Type 0
  Locates xs k none = ⊥
  Locates xs k (some (true, r)) = Hits xs k r
  Locates xs k (some (false, r)) = Splits xs k r

module _ {ℓ} {A : Type ℓ} (o : KeyOrder A) (mem : List A) (n : ℕ) (x : A) where
  abbrev xs : List A
  xs = take n mem

  -- The loop invariant: the key is not left of `l`, nor right of `u`.
  record Inv (l u : ℕ) : Type 0 where
    ordered : l ≤ u
    inside : u ≤ length xs
    before : (i : ℕ) → i < l → key_at o.key xs i < o.key x
    after : (i : ℕ) → u ≤ i → i < length xs → o.key x < key_at o.key xs i

  module _ (sorted : IsSorted o.key xs) where
    upper-Inv : (l u i : ℕ) → Inv l u → i < u → key_at o.key xs i < o.key x → Inv (i + 1) u
    upper-Inv l u i v h lt = record {
      ordered = omega arith;
      inside = v.inside;
      before = λ j hj. elim (trichotomy j i) [
        | below p _ ↦ omega (arith, IsSorted-key_at o.key xs j i sorted p (omega (arith, v.inside)))
        | same p _ ↦ rw p lt
        | above p _ ↦ absurd (omega arith)
      ];
      after = v.after;
    }

    lower-Inv : (l u i : ℕ) → Inv l u → l ≤ i → i < u → o.key x < key_at o.key xs i → Inv l i
    lower-Inv l u i v h h' lt = record {
      ordered = h;
      inside = omega (arith, v.inside);
      before = v.before;
      after = λ j hj b. elim (trichotomy i j) [
        | below p _ ↦ omega (arith, IsSorted-key_at o.key xs i j sorted p b)
        | same p _ ↦ rw (← p) lt
        | above p _ ↦ absurd (omega arith)
      ];
    }

  -- A read below `length xs` stays inside the memory and gives the member.
  read :
      (i : ℕ) → i < length xs → (a : A) × (get_elem? mem i ≡ some a) × (o.key a ≡ key_at o.key xs i)
  read i h =
      let (a, e, k) = get_elem?-key_at o.key xs i h in
      (a, rw (get_elem?-take n mem i (omega (arith, length-take n mem))) at e, k)

  abbrev Goal : Option (Bool × ℕ) → Type 0
  Goal = Locates o.key xs (o.key x)

  abbrev run : ℕ → ℕ → ℕ → Option (Bool × ℕ)
  run = bsearch_loop o.compar mem x

  -- What the code does when the probe at `i` exceeds the key: it reads the left neighbour.
  abbrev probe_left : ℕ → Option (Bool × ℕ) → Option (Bool × ℕ)
  probe_left i next = elim (i == 0) [
    | true ↦ some (false, i)
    | false ↦ elim (get_elem? mem (i - 1)) [
      | none ↦ none
      | some p2 ↦ elim (o.compar x p2) [ Ordering.gt ↦ some (false, i) | _ ↦ next ]
    ]
  ]

  module _ (sorted : IsSorted o.key xs) where
    Inv-Splits :
        (l i : ℕ)
        → Inv l i
        → ((j : ℕ) → j < i → key_at o.key xs j < o.key x)
        → Goal (some (false, i))
    Inv-Splits l i v b = record { inside = v.inside; before = b; after = v.after }

    probe_left-Goal :
        (i : ℕ) (next : Option (Bool × ℕ)) (l : ℕ)
        → Inv l i
        → i < length xs
        → Goal next
        → Goal (probe_left i next)
    probe_left-Goal i next l v b g = elim (trichotomy i 0) [
      | below p _ ↦ absurd (omega arith)
      | same p e ↦ rw (e, probe_left) (Inv-Splits l i v (λ j h. absurd (omega arith)))
      | above q e ↦
          let (a, r, k) = read (i - 1) (omega arith) in
          rw (e, probe_left, r, o.compar_lem x a)
            (elim (trichotomy (o.key x) (o.key a)) [
              | below _ c ↦ rw c g
              | same _ c ↦ rw c g
              | above p c ↦ rw c (
                  Inv-Splits l i v (λ j h. elim (trichotomy j (i - 1)) [
                    | below q _ ↦
                        omega (arith, IsSorted-key_at o.key xs j (i - 1) sorted q (omega arith))
                    | same q _ ↦ rw q (omega arith)
                    | above q _ ↦ absurd (omega arith)
                  ]))
            ])
    ]

    -- One round of the loop, given what the rounds after it find.
    probe :
        (i l u : ℕ) (up down : Option (Bool × ℕ))
        → Inv l u
        → l ≤ i
        → i < u
        → (Inv (i + 1) u → Goal up)
        → (Inv l i → Goal down)
        → Goal (elim (get_elem? mem i) [
          | none ↦ none
          | some p ↦ elim (o.compar x p) [
            | Ordering.eq ↦ some (true, i)
            | Ordering.gt ↦ up
            | Ordering.lt ↦ probe_left i down
          ]
        ])
    probe i l u up down v h h' gu gd =
        let (a, e, k) = read i (omega (arith, v.inside)) in
        rw (e, o.compar_lem x a)
          (elim (trichotomy (o.key x) (o.key a)) [
            | below p c ↦
                let w = lower-Inv sorted l u i v h h' (omega arith) in
                rw c (probe_left-Goal i down l w (omega (arith, v.inside)) (gd w))
            | same p c ↦ rw c (record { inside = omega (arith, v.inside); equal = omega arith })
            | above p c ↦ rw c (gu (upper-Inv sorted l u i v h' (omega arith)))
          ])

    loop : (fuel l u : ℕ) → Inv l u → u - l < fuel → Goal (run fuel l u)
    unfolding bsearch_loop
    loop zero l u v m = absurd (omega arith)
    loop (suc fuel) l u v m = elim (trichotomy l u) [
      | above p _ ↦ absurd (omega (arith, v.ordered))
      | same p e ↦ rw (e, bsearch_loop) (Inv-Splits l u v (rw p at v.before))
      | below p e ↦
          rw (e, bsearch_loop)
            (probe ((l + u) / 2) l u _ _ v (omega arith) (omega arith)
              (λ w. loop fuel ((l + u) / 2 + 1) u w (omega arith))
              (λ w. loop fuel l ((l + u) / 2) w (omega arith)))
    ]

-- On a sorted array the search returns, reads inside the memory only, and finds the key or the
-- place where it belongs.
pub array_bsearch-Locates {ℓ} :
    {A : Type ℓ} (o : KeyOrder A) (x : A) (arr : Array A)
    → IsSorted o.key (live arr)
    → arr.nmemb ≤ length arr.mem
    → Locates o.key (live arr) (o.key x) (array_bsearch o.compar x arr.mem arr.nmemb)
unfolding array_bsearch
array_bsearch-Locates o x arr sorted fits = elim (Bool-cases (arr.nmemb == 0)) [
  | inl e ↦ rw e (record {
    inside = omega arith;
    before = λ i h. absurd (omega arith);
    after =
        λ i h b. absurd (omega (arith, (==_iff arr.nmemb 0).0 e, length-take arr.nmemb arr.mem));
  })
  | inr e ↦ rw e (
      loop o arr.mem arr.nmemb x sorted (suc arr.nmemb) 0 arr.nmemb
        (record {
          ordered = omega arith;
          inside = omega (arith, length-take arr.nmemb arr.mem);
          before = λ i h. absurd (omega arith);
          after = λ i h b. absurd (omega (arith, length-take arr.nmemb arr.mem));
        })
        (omega arith))
]
