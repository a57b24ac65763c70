-- ===== src/SortArray/Table.antt =====
-- What a sorted array promises: a table of members, each key once, as a list in key order.
use txgg.Base.{
  ℕ, zero, suc, ◌≤◌, ◌<◌, ◌≡◌, refl, Option, none, some, List, [], ◌∷◌, ◌++◌, arith, ltb, ◌==◌,
  if◌then◌else◌, get_elem?, take, drop, ◌≢◌, Bool-cases, inl, inr, ==_iff, ==_ne,
}
use txgg.SortArray.Order.{Chain, IsSorted, Chain-IsSorted}
use txgg.SortArray.Search.{Splits, Hits}

module _ {ℓ} {A : Type ℓ} (key : A → ℕ) where
  unfoldable pub lookup : ℕ → List A → Option A
  lookup k [] = none
  lookup k (x ∷ xs) = if key x == k then some x else lookup k xs

  -- A member is added at its place; one whose key is taken changes nothing.
  unfoldable pub put : A → List A → List A
  put x [] = x ∷ []
  put x (y ∷ ys) =
      if ltb (key x) (key y) then x ∷ y ∷ ys else if key x == key y then y ∷ ys else y ∷ put x ys

  unfoldable pub erase : ℕ → List A → List A
  erase k [] = []
  erase k (x ∷ xs) = if key x == k then xs else x ∷ erase k xs

  pub lookup-put :
      (x : A) (k : ℕ) (xs : List A)
      → lookup (key x) xs ≡ none
      → lookup k (put x xs) ≡ (if key x == k then some x else lookup k xs)
  unfolding lookup put
  lookup-put x k [] h = refl
  lookup-put x k (y ∷ ys) h = ground (arith, lookup-put x k ys)

  Chain-lookup : (n k : ℕ) (xs : List A) → Chain key n xs → k ≤ n → lookup k xs ≡ none
  unfolding lookup
  Chain-lookup n k [] c h = refl
  Chain-lookup n k (x ∷ xs) c h = ground (arith, Chain-lookup (key x) k xs c.1)

  lookup-erase_self : (k : ℕ) (xs : List A) → IsSorted key xs → lookup k (erase k xs) ≡ none
  unfolding lookup erase
  lookup-erase_self k [] c = refl
  lookup-erase_self k (x ∷ xs) c =
      ground (
        arith,
        Chain-lookup (key x) k xs c,
        lookup-erase_self k xs (Chain-IsSorted key (key x) xs c),
      )

  lookup-erase_ne : (j k : ℕ) (xs : List A) → j ≢ k → lookup k (erase j xs) ≡ lookup k xs
  unfolding lookup erase
  lookup-erase_ne j k [] h = refl
  lookup-erase_ne j k (x ∷ xs) h = elim (Bool-cases (key x == j)) [
    | inl e ↦ rw (e, ==_ne (key x) k (λ q. h (omega (arith, (==_iff (key x) j).0 e))))
    | inr e ↦ rw (e, lookup-erase_ne j k xs h)
  ]

  pub lookup-erase :
      (j k : ℕ) (xs : List A)
      → IsSorted key xs
      → lookup k (erase j xs) ≡ (if j == k then none else lookup k xs)
  lookup-erase j k xs c = elim (Bool-cases (j == k)) [
    | inl e ↦ rw (e, (==_iff j k).0 e) (lookup-erase_self k xs c)
    | inr e ↦ rw e (lookup-erase_ne j k xs (ground arith))
  ]

  Chain-put : (n : ℕ) (x : A) (xs : List A) → Chain key n xs → n < key x → Chain key n (put x xs)
  unfolding put
  Chain-put n x [] c h = (h, tt)
  Chain-put n x (y ∷ ys) c h = ground (arith, Chain-put (key y) x ys c.1)

  pub put-IsSorted : (x : A) (xs : List A) → IsSorted key xs → IsSorted key (put x xs)
  unfolding put
  put-IsSorted x [] c = tt
  put-IsSorted x (y ∷ ys) c = ground (arith, Chain-put (key y) x ys c)

  Chain-mono : (m n : ℕ) (xs : List A) → m ≤ n → Chain key n xs → Chain key m xs
  Chain-mono m n [] h c = tt
  Chain-mono m n (x ∷ xs) h c = (omega (arith, c.0), c.1)

  Chain-erase : (n k : ℕ) (xs : List A) → Chain key n xs → Chain key n (erase k xs)
  unfolding erase
  Chain-erase n k [] c = tt
  Chain-erase n k (x ∷ xs) c = ground (arith, Chain-erase (key x) k xs c.1, Chain-mono n (key x) xs)

  pub erase-IsSorted : (k : ℕ) (xs : List A) → IsSorted key xs → IsSorted key (erase k xs)
  unfolding erase
  erase-IsSorted k [] c = tt
  erase-IsSorted k (x ∷ xs) c =
      ground (arith, Chain-erase (key x) k xs c, Chain-IsSorted key (key x) xs c)

  -- The index that the search gives is where `put` puts, `erase` cuts and `lookup` looks.
  pub Splits-tail :
      (y : A) (ys : List A) (k r : ℕ) → Splits key (y ∷ ys) k (suc r) → Splits key ys k r
  Splits-tail y ys k r s = record {
    inside = omega (arith, s.inside);
    before = λ i h. s.before (suc i) (omega arith);
    after = λ i h b. s.after (suc i) (omega arith) (omega arith);
  }

  pub Splits-put :
      (x : A) (xs : List A) (r : ℕ)
      → Splits key xs (key x) r
      → take r xs ++ (x ∷ drop r xs) ≡ put x xs
  unfolding put
  Splits-put x [] zero s = refl
  Splits-put x [] (suc r) s = absurd (omega (arith, s.inside))
  Splits-put x (y ∷ ys) zero s = ground (arith, s.after 0 (omega arith) (omega arith))
  Splits-put x (y ∷ ys) (suc r) s =
      ground (arith, s.before 0 (omega arith), Splits-put x ys r (Splits-tail y ys (key x) r s))

  pub Splits-lookup : (k : ℕ) (xs : List A) (r : ℕ) → Splits key xs k r → lookup k xs ≡ none
  unfolding lookup
  Splits-lookup k [] r s = refl
  Splits-lookup k (y ∷ ys) zero s = ground (
    arith,
    s.after 0 (omega arith) (omega arith),
    Splits-lookup k ys 0 (record {
      inside = omega arith;
      before = λ i h. absurd (omega arith);
      after = λ i h b. s.after (suc i) (omega arith) (omega arith);
    }),
  )
  Splits-lookup k (y ∷ ys) (suc r) s =
      ground (arith, s.before 0 (omega arith), Splits-lookup k ys r (Splits-tail y ys k r s))

  Hits-tail : (y : A) (ys : List A) (k r : ℕ) → Hits key (y ∷ ys) k (suc r) → Hits key ys k r
  Hits-tail y ys k r h = record { inside = omega (arith, h.inside); equal = h.equal }

  Chain-Hits : (n k : ℕ) (xs : List A) (r : ℕ) → Chain key n xs → Hits key xs k r → n < k
  Chain-Hits n k [] r c h = absurd (omega (arith, h.inside))
  Chain-Hits n k (x ∷ xs) zero c h = omega (arith, h.equal, c.0)
  Chain-Hits n k (x ∷ xs) (suc r) c h =
      omega (arith, c.0, Chain-Hits (key x) k xs r c.1 (Hits-tail x xs k r h))

  pub Hits-lookup :
      (k : ℕ) (xs : List A) (r : ℕ)
      → IsSorted key xs
      → Hits key xs k r
      → lookup k xs ≡ get_elem? xs r
  unfolding lookup
  Hits-lookup k [] r c h = refl
  Hits-lookup k (x ∷ xs) zero c h = ground (arith, h.equal)
  Hits-lookup k (x ∷ xs) (suc r) c h =
      let t = Hits-tail x xs k r h in
      ground (
        arith,
        Chain-Hits (key x) k xs r c t,
        Hits-lookup k xs r (Chain-IsSorted key (key x) xs c) t,
      )

  pub Hits-erase :
      (k : ℕ) (xs : List A) (r : ℕ)
      → IsSorted key xs
      → Hits key xs k r
      → take r xs ++ drop (suc r) xs ≡ erase k xs
  unfolding erase
  Hits-erase k [] r c h = absurd (omega (arith, h.inside))
  Hits-erase k (x ∷ xs) zero c h = ground (arith, h.equal)
  Hits-erase k (x ∷ xs) (suc r) c h =
      let t = Hits-tail x xs k r h in
      ground (
        arith,
        Chain-Hits (key x) k xs r c t,
        Hits-erase k xs r (Chain-IsSorted key (key x) xs c) t,
      )
