-- ===== src/Pool/Ring.antt =====
-- What a circular list holds.
use txgg.Base.{
  ℕ, ◌≡◌, ◌≢◌, refl, ap, ◌∙◌, sym, Bool, true, false, ◌||◌, Option, none, some, List, [], ◌∷◌,
  arith, ◌==◌,
}
use txgg.Idx.{null_idx, idx_of}
use txgg.Pool.{before_first, link_first, set_first, set_prev, self_idx, Entry, Circle, insert_head}

abbrev pub holds : ℕ → List ℕ → Bool
holds e [] = false
holds e (x ∷ xs) = x == e || holds e xs

-- The object before the end of a list that starts after `p`.
abbrev pub last_of : Option ℕ → List ℕ → Option ℕ
last_of p [] = p
last_of p (x ∷ xs) = last_of (some x) xs

abbrev pub first_of : List ℕ → Option ℕ
first_of [] = none
first_of (x ∷ xs) = some x

-- The entries link the objects of the list, forwards and backwards, the first one after `p`, and
-- no object twice.
abbrev pub Linked : (ℕ → Entry) → Option ℕ → List ℕ → Type 0
Linked entry p [] = Unit
Linked entry p (x ∷ xs) =
    (holds x xs ≡ false)
    × ((entry x).prev ≡ idx_of p)
    × ((entry x).next ≡ idx_of (first_of xs))
    × Linked entry (some x) xs

pub record Ring (c : Circle) (xs : List ℕ) : Type 0 where
  pub first : c.first ≡ idx_of (first_of xs)
  pub last : c.last ≡ idx_of (last_of none xs)
  pub linked : Linked c.entry none xs

-- The links of a list are those of its objects.
pub Linked-agree :
    (f g : ℕ → Entry) (p : Option ℕ) (xs : List ℕ)
    → ((i : ℕ) → holds i xs ≡ true → f i ≡ g i)
    → Linked f p xs
    → Linked g p xs
Linked-agree f g p [] a l = tt
Linked-agree f g p (x ∷ xs) a l =
    let q : f x ≡ g x = a x (ground arith) in
    (
      l.0,
      rw q at l.1,
      rw q at l.2,
      Linked-agree f g (some x) xs (λ i h. a i (ground (arith, h))) l.3,
    )

pub holds-≢ : (e i : ℕ) (xs : List ℕ) → holds e xs ≡ false → holds i xs ≡ true → e ≢ i
holds-≢ e i xs h m q = cc (ap (λ k. holds k xs) q)

pub last_of-some : (x : ℕ) (xs : List ℕ) → (q : ℕ) × (last_of (some x) xs ≡ some q)
last_of-some x [] = (x, refl)
last_of-some x (y ∷ xs) = last_of-some y xs

-- What GAME_CIRCLEQ_INSERT_HEAD leaves, on an empty list and before the object `x`.
abbrev alone : Circle → ℕ → Circle
alone c e = let c1 = before_first c e in set_first (record c1 { last = self_idx c1 e }) e

abbrev ahead : Circle → ℕ → ℕ → Circle
ahead c e x = let c1 = before_first c e in set_first (set_prev c1 x (self_idx c1 e)) e

insert_head-alone : (c : Circle) (e : ℕ) → c.last.p ≡ none → insert_head c e ≡ some (alone c e)
unfolding insert_head
insert_head-alone c e h = ap (λ l. link_first (before_first c e) e l c.first.p) h

insert_head-ahead :
    (c : Circle) (e x q : ℕ)
    → c.last.p ≡ some q
    → c.first.p ≡ some x
    → insert_head c e ≡ some (ahead c e x)
unfolding insert_head
insert_head-ahead c e x q h h' =
    ap (λ l. link_first (before_first c e) e l c.first.p) h
    ∙ ap (λ f. link_first (before_first c e) e (some q) f) h'

module _ (c : Circle) (e : ℕ) (own : (c.entry e).idx ≡ e) where
  alone-Ring : Ring c [] → Ring (alone c e) (e ∷ [])
  alone-Ring r = record {
    first = ground (arith, own);
    last = ground (arith, own);
    linked = ground (arith, r.first);
  }

  module _ (x : ℕ) (xs : List ℕ) where
    ahead_self : e ≢ x → (ahead c e x).entry e ≡ record { idx = e; next = c.first; prev = null_idx }
    ahead_self n = ground (arith, own)

    ahead_next : e ≢ x → (ahead c e x).entry x ≡ record (c.entry x) { prev = idx_of (some e) }
    ahead_next n = ground (arith, own)

    ahead_rest : (i : ℕ) → e ≢ i → x ≢ i → (ahead c e x).entry i ≡ c.entry i
    ahead_rest i n m = ground arith

    ahead-Ring : Ring c (x ∷ xs) → holds e (x ∷ xs) ≡ false → Ring (ahead c e x) (e ∷ x ∷ xs)
    ahead-Ring r h =
        let n : e ≢ x = ground (arith, h) in
        let (alone_x, _, next, rest) = r.linked in
        record {
          first = ground (arith, own);
          last = r.last;
          linked = (
            h,
            rw (ahead_self n) refl,
            rw (ahead_self n) r.first,
            (
              alone_x,
              rw (ahead_next n) refl,
              rw (ahead_next n) next,
              Linked-agree c.entry (ahead c e x).entry (some x) xs
                  (λ i m. sym (
                    ahead_rest i (holds-≢ e i xs (ground (arith, h)) m) (holds-≢ x i xs alone_x m)))
                  rest,
            ),
          );
        }

-- The object joins the list in front.
pub insert_head-Ring :
    (c : Circle) (e : ℕ) (xs : List ℕ)
    → Ring c xs
    → holds e xs ≡ false
    → (c.entry e).idx ≡ e
    → (c' : Circle) × (insert_head c e ≡ some c')
      × Ring c' (e ∷ xs)
      × ((i : ℕ) → (c'.entry i).idx ≡ (c.entry i).idx)
insert_head-Ring c e [] r h own = (
  alone c e,
  insert_head-alone c e (ap (λ l. l.p) r.last),
  alone-Ring c e own r,
  λ i. ground arith,
)
insert_head-Ring c e (x ∷ xs) r h own =
    let (q, lq) = last_of-some x xs in
    (
      ahead c e x,
      insert_head-ahead c e x q (ap (λ l. l.p) (r.last ∙ ap idx_of lq)) (ap (λ l. l.p) r.first),
      ahead-Ring c e own x xs r h,
      λ i. ground arith,
    )
