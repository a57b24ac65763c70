-- ===== src/SortArray/Order.antt =====
-- The contract between an array and its comparison function: it compares a key, a number. Arrays
-- are sorted by that key, each key once.
use txgg.Base.{
  ℕ, zero, suc, ◌<◌, ◌≡◌, refl, compare, Ordering, List, [], ◌∷◌, some, arith, length, get_elem?,
}
use txgg.SortArray.{comp_uint}

pub record KeyOrder {ℓ} (A : Type ℓ) : Type ℓ where
  pub compar : A → A → Ordering
  pub key : A → ℕ
  pub compar_lem : (a b : A) → compar a b ≡ compare (key a) (key b)

pub comp_uint_lem : (a b : ℕ) → comp_uint a b ≡ compare a b
unfolding comp_uint
comp_uint_lem a b = ground arith

module _ {ℓ} {A : Type ℓ} (key : A → ℕ) where
  -- Every key exceeds the one before it, and the first exceeds `n`.
  abbrev pub Chain : ℕ → List A → Type 0
  Chain n [] = Unit
  Chain n (x ∷ xs) = (n < key x) × Chain (key x) xs

  abbrev pub IsSorted : List A → Type 0
  IsSorted [] = Unit
  IsSorted (x ∷ xs) = Chain (key x) xs

  -- The key at an index.
  abbrev pub key_at : List A → ℕ → ℕ
  key_at [] i = 0
  key_at (x ∷ xs) zero = key x
  key_at (x ∷ xs) (suc i) = key_at xs i

  pub get_elem?-key_at :
      (xs : List A) (i : ℕ)
      → i < length xs
      → (a : A) × (get_elem? xs i ≡ some a) × (key a ≡ key_at xs i)
  get_elem?-key_at [] i h = absurd (omega arith)
  get_elem?-key_at (x ∷ xs) zero h = (x, refl, refl)
  get_elem?-key_at (x ∷ xs) (suc i) h = get_elem?-key_at xs i (omega arith)

  Chain-key_at : (n : ℕ) (xs : List A) (i : ℕ) → Chain n xs → i < length xs → n < key_at xs i
  Chain-key_at n [] i c h = absurd (omega arith)
  Chain-key_at n (x ∷ xs) zero c h = c.0
  Chain-key_at n (x ∷ xs) (suc i) c h =
      omega (arith, Chain-key_at (key x) xs i c.1 (omega arith), c.0)

  pub Chain-IsSorted : (n : ℕ) (xs : List A) → Chain n xs → IsSorted xs
  Chain-IsSorted n [] c = tt
  Chain-IsSorted n (x ∷ xs) c = c.1

  pub IsSorted-key_at :
      (xs : List A) (i j : ℕ) → IsSorted xs → i < j → j < length xs → key_at xs i < key_at xs j
  IsSorted-key_at [] i j s h b = absurd (omega arith)
  IsSorted-key_at (x ∷ xs) i zero s h b = absurd (omega arith)
  IsSorted-key_at (x ∷ xs) zero (suc j) s h b = Chain-key_at (key x) xs j s (omega arith)
  IsSorted-key_at (x ∷ xs) (suc i) (suc j) s h b =
      IsSorted-key_at xs i j (Chain-IsSorted (key x) xs s) (omega arith) (omega arith)
