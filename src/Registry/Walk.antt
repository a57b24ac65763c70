-- ===== src/Registry/Walk.antt =====
-- A walk from the root of a search tree is a lookup, or an addition, in the sorted list that the tree
-- stands for.
use txgg.Base.{
  ℕ, ◌<◌, ◌≡◌, ◌≢◌, refl, ap, ◌∙◌, sym, trichotomy, below, same, above, Option, none, some, List,
  [], ◌∷◌, ◌++◌, arith,
}
use txgg.SortArray.Order.{Chain, IsSorted, Chain-IsSorted}
use txgg.SortArray.Table.{lookup, put}
use txgg.Registry.{Tree, leaf, node, find, link, inorder}

module _ {A : Type 0} (key : A → ℕ) where
  Chain-front :
      (n : ℕ) (xs : List A) (x : A) (ys : List A)
      → Chain key n (xs ++ x ∷ ys)
      → Chain key n xs × (n < key x) × Chain key (key x) ys
  Chain-front n [] x ys c = (tt, c.0, c.1)
  Chain-front n (a ∷ xs) x ys c =
      let (front, lt, back) = Chain-front (key a) xs x ys c.1 in
      ((c.0, front), omega (arith, c.0), back)

  pub front-IsSorted :
      (xs : List A) (x : A) (ys : List A)
      → IsSorted key (xs ++ x ∷ ys)
      → IsSorted key xs × Chain key (key x) ys
  front-IsSorted [] x ys c = (tt, c)
  front-IsSorted (a ∷ xs) x ys c =
      let (front, lt, back) = Chain-front (key a) xs x ys c in (front, back)

  -- A key above the middle one.
  lookup-above :
      (k : ℕ) (xs : List A) (x : A) (ys : List A)
      → IsSorted key (xs ++ x ∷ ys)
      → key x < k
      → lookup key k (xs ++ x ∷ ys) ≡ lookup key k ys
  unfolding lookup
  lookup-above k [] x ys c h = ground arith
  lookup-above k (a ∷ xs) x ys c h = ground (
    arith,
    lookup-above k xs x ys (Chain-IsSorted key (key a) (xs ++ x ∷ ys) c) h,
    Chain-front (key a) xs x ys c,
  )

  lookup-same :
      (k : ℕ) (xs : List A) (x : A) (ys : List A)
      → IsSorted key (xs ++ x ∷ ys)
      → k ≡ key x
      → lookup key k (xs ++ x ∷ ys) ≡ some x
  unfolding lookup
  lookup-same k [] x ys c h = ground arith
  lookup-same k (a ∷ xs) x ys c h = ground (
    arith,
    lookup-same k xs x ys (Chain-IsSorted key (key a) (xs ++ x ∷ ys) c) h,
    Chain-front (key a) xs x ys c,
  )

  Chain-none : (n k : ℕ) (xs : List A) → Chain key n xs → k < n → lookup key k xs ≡ none
  unfolding lookup
  Chain-none n k [] c h = refl
  Chain-none n k (x ∷ xs) c h = ground (arith, Chain-none (key x) k xs c.1)

  lookup-below :
      (k : ℕ) (xs : List A) (x : A) (ys : List A)
      → IsSorted key (xs ++ x ∷ ys)
      → k < key x
      → lookup key k (xs ++ x ∷ ys) ≡ lookup key k xs
  unfolding lookup
  lookup-below k [] x ys c h = ground (arith, Chain-none (key x) k ys c h)
  lookup-below k (a ∷ xs) x ys c h =
      ground (arith, lookup-below k xs x ys (Chain-IsSorted key (key a) (xs ++ x ∷ ys) c) h)

  put-above :
      (y : A) (xs : List A) (x : A) (ys : List A)
      → IsSorted key (xs ++ x ∷ ys)
      → key x < key y
      → put key y (xs ++ x ∷ ys) ≡ xs ++ x ∷ put key y ys
  unfolding put
  put-above y [] x ys c h = ground arith
  put-above y (a ∷ xs) x ys c h = ground (
    arith,
    put-above y xs x ys (Chain-IsSorted key (key a) (xs ++ x ∷ ys) c) h,
    Chain-front (key a) xs x ys c,
  )

  put-below :
      (y : A) (xs : List A) (x : A) (ys : List A)
      → key y < key x
      → put key y (xs ++ x ∷ ys) ≡ put key y xs ++ x ∷ ys
  unfolding put
  put-below y [] x ys h = ground arith
  put-below y (a ∷ xs) x ys h = ground (arith, put-below y xs x ys h)

  -- On a tree whose nodes are in the order of their keys, the walk of get_role_by_session,
  -- get_role_by_id and get_role_by_name finds exactly what a search of the whole list finds.
  pub find-lookup :
      (k : ℕ) (t : Tree A) → IsSorted key (inorder t) → find key k t ≡ lookup key k (inorder t)
  unfolding find lookup
  find-lookup k leaf c = refl
  find-lookup k (node l x r) c =
      let (front, back) = front-IsSorted (inorder l) x (inorder r) c in
      elim (trichotomy k (key x)) [
        | below p e ↦
            rw (e, find)
              (find-lookup k l front ∙ sym (lookup-below k (inorder l) x (inorder r) c p))
        | same p e ↦ rw (e, find) (sym (lookup-same k (inorder l) x (inorder r) c p))
        | above p e ↦
            rw (e, find)
              (find-lookup k r (Chain-IsSorted key (key x) (inorder r) back)
                ∙ sym (lookup-above k (inorder l) x (inorder r) c p))
      ]

  -- What the walk of role_rbdata_add leaves: the list with the role at its place, or nothing if the
  -- key is taken.
  abbrev pub Links : A → Tree A → Option (Tree A) → Type 0
  Links y t none = lookup key (key y) (inorder t) ≢ none
  Links y t (some t') =
      (lookup key (key y) (inorder t) ≡ none) × (inorder t' ≡ put key y (inorder t))

  module _ (y : A) (l : Tree A) (x : A) (r : Tree A) (c : IsSorted key (inorder (node l x r))) where
    left-Links :
        (o : Option (Tree A))
        → key y < key x
        → Links y l o
        → Links y (node l x r) (elim o [ none ↦ none | some l' ↦ some (node l' x r) ])
    left-Links none h s = λ e. s (sym (lookup-below (key y) (inorder l) x (inorder r) c h) ∙ e)
    left-Links (some l') h (free, e) = (
      lookup-below (key y) (inorder l) x (inorder r) c h ∙ free,
      ap (λ zs. zs ++ (x ∷ inorder r)) e ∙ sym (put-below y (inorder l) x (inorder r) h),
    )

    right-Links :
        (o : Option (Tree A))
        → key x < key y
        → Links y r o
        → Links y (node l x r) (elim o [ none ↦ none | some r' ↦ some (node l x r') ])
    right-Links none h s = λ e. s (sym (lookup-above (key y) (inorder l) x (inorder r) c h) ∙ e)
    right-Links (some r') h (free, e) = (
      lookup-above (key y) (inorder l) x (inorder r) c h ∙ free,
      ap (λ zs. inorder l ++ (x ∷ zs)) e ∙ sym (put-above y (inorder l) x (inorder r) c h),
    )

    taken-Links : key y ≡ key x → Links y (node l x r) none
    taken-Links h e = cc (lookup-same (key y) (inorder l) x (inorder r) c h, e)

  -- On such a tree, the walk of role_rbdata_add and role_rbdata_add_name reports a key that is taken
  -- exactly if it is, and otherwise links the new node at its place in the order.
  pub link-Links : (y : A) (t : Tree A) → IsSorted key (inorder t) → Links y t (link key y t)
  unfolding link lookup put
  link-Links y leaf c = (refl, refl)
  link-Links y (node l x r) c =
      let (front, back) = front-IsSorted (inorder l) x (inorder r) c in
      let left = link-Links y l front in
      let right = link-Links y r (Chain-IsSorted key (key x) (inorder r) back) in
      elim (trichotomy (key y) (key x)) [
        | below p e ↦ rw (e, Links, link) (left-Links y l x r c (link key y l) p left)
        | same p e ↦ rw (e, Links, link) (taken-Links y l x r c p)
        | above p e ↦ rw (e, Links, link) (right-Links y l x r c (link key y r) p right)
      ]
