-- ===== src/Pool/Unlink.antt =====
-- GAME_CIRCLEQ_REMOVE takes an object out of the middle of a list.
use txgg.Base.{
  ℕ, ◌≡◌, ◌≢◌, refl, ap, ◌∙◌, sym, Bool, true, false, ◌||◌, Option, none, some, List, [], ◌∷◌, ◌++◌,
  arith, ◌==◌, ==_ne, if◌then◌else◌,
}
use txgg.Idx.{Idx, idx_of}
use txgg.Pool.{Entry, Circle, close_next, close_prev, remove}
use txgg.Pool.Ring.{holds, last_of, first_of, Linked, Ring, last_of-some, holds-≢}

-- What the removal does, given the neighbours of the object.
abbrev closed : Circle → Option ℕ → Option ℕ → Circle
closed c pre nxt = close_prev (close_next c (idx_of pre) nxt) (idx_of nxt) pre

abbrev IsNot : ℕ → Option ℕ → Type 0
IsNot e none = Unit
IsNot e (some x) = e ≢ x

close_next-entry :
    (c : Circle) (e : ℕ) (l : Idx) (nxt : Option ℕ)
    → IsNot e nxt
    → (close_next c l nxt).entry e ≡ c.entry e
close_next-entry c e l none h = refl
close_next-entry c e l (some n) h = ground (arith, h)

remove-closed :
    (c : Circle) (e : ℕ) (pre nxt : Option ℕ)
    → (c.entry e).prev ≡ idx_of pre
    → (c.entry e).next ≡ idx_of nxt
    → IsNot e nxt
    → remove c e ≡ closed c pre nxt
unfolding remove
remove-closed c e pre nxt p n h =
    ap (λ x. close_prev x (x.entry e).next (x.entry e).prev.p) opened
    ∙ ap (λ x. close_prev (close_next c (idx_of pre) nxt) x.next x.prev.p)
        (close_next-entry c e (idx_of pre) nxt h)
    ∙ ap (λ x. close_prev (close_next c (idx_of pre) nxt) x (c.entry e).prev.p) n
    ∙ ap (λ x. close_prev (close_next c (idx_of pre) nxt) (idx_of nxt) x)
        (ap (λ x. x.p) p ∙ idx_of_p pre)
  where
    idx_of_p : (o : Option ℕ) → (idx_of o).p ≡ o
    idx_of_p none = refl
    idx_of_p (some x) = refl

    opened : close_next c (c.entry e).prev (c.entry e).next.p ≡ close_next c (idx_of pre) nxt
    opened =
        ap (λ x. close_next c x (c.entry e).next.p) p
        ∙ ap (λ x. close_next c (idx_of pre) x) (ap (λ x. x.p) n ∙ idx_of_p nxt)

abbrev is_at : Option ℕ → ℕ → Bool
is_at none i = false
is_at (some x) i = x == i

abbrev Outside : Option ℕ → List ℕ → Type 0
Outside none xs = Unit
Outside (some p) xs = holds p xs ≡ false

Outside-at :
    (p : Option ℕ) (i : ℕ) (xs : List ℕ) → Outside p xs → holds i xs ≡ true → is_at p i ≡ false
Outside-at none i xs o h = refl
Outside-at (some p) i xs o h = ==_ne p i (holds-≢ p i xs o h)

last-at :
    (a x : ℕ) (xs ys : List ℕ)
    → holds a (x ∷ (xs ++ ys)) ≡ false
    → is_at (last_of (some x) xs) a ≡ false
last-at a x [] ys h = ground (arith, h)
last-at a x (y ∷ xs) ys h = last-at a y xs ys (ground (arith, h))

first-at : (a : ℕ) (xs : List ℕ) → holds a xs ≡ false → is_at (first_of xs) a ≡ false
first-at a [] h = refl
first-at a (x ∷ xs) h = ground (arith, h)

holds-middle : (a e : ℕ) (fs bs : List ℕ) → holds a (fs ++ e ∷ bs) ≡ (e == a || holds a (fs ++ bs))
holds-middle a e [] bs = refl
holds-middle a e (x ∷ fs) bs = ground (arith, holds-middle a e fs bs)

holds-back : (a : ℕ) (xs ys : List ℕ) → holds a (xs ++ ys) ≡ false → holds a ys ≡ false
holds-back a [] ys h = h
holds-back a (x ∷ xs) ys h = holds-back a xs ys (ground (arith, h))

-- The entries in which the neighbours are linked to each other.
abbrev Patched : (ℕ → Entry) → Option ℕ → Option ℕ → (ℕ → Entry) → Type 0
Patched entry pre nxt entry' =
    (i : ℕ)
    → ((entry' i).prev ≡ (if is_at nxt i then idx_of pre else (entry i).prev))
      × ((entry' i).next ≡ (if is_at pre i then idx_of nxt else (entry i).next))

module _ (entry entry' : ℕ → Entry) (pre : Option ℕ) where
  rest-Linked :
      (nxt p : Option ℕ) (xs : List ℕ)
      → Patched entry pre nxt entry'
      → Linked entry p xs
      → ((i : ℕ) → holds i xs ≡ true → (is_at nxt i ≡ false) × (is_at pre i ≡ false))
      → Linked entry' p xs
  rest-Linked nxt p [] patched l h = tt
  rest-Linked nxt p (x ∷ xs) patched l h =
      let at = h x (ground arith) in
      (
        l.0,
        ground (arith, patched x, at, l.1),
        ground (arith, patched x, at, l.2),
        rest-Linked nxt (some x) xs patched l.3 (λ i m. h i (ground (arith, m))),
      )

  -- The list after the object.
  back-Linked :
      (e : ℕ) (bs : List ℕ)
      → Patched entry pre (first_of bs) entry'
      → Linked entry (some e) bs
      → Outside pre bs
      → Linked entry' pre bs
  back-Linked e [] patched l o = tt
  back-Linked e (n ∷ bs) patched l o = (
    l.0,
    ground (arith, patched n),
    ground (arith, patched n, Outside-at pre n (n ∷ bs) o, l.2),
    rest-Linked (some n) (some n) bs patched l.3 (λ i m.
        (==_ne n i (holds-≢ n i bs l.0 m), Outside-at pre i (n ∷ bs) o (ground (arith, m)))),
  )

-- The whole list, which starts after `p`.
middle-Linked :
    (entry entry' : ℕ → Entry) (p : Option ℕ) (e : ℕ) (fs bs : List ℕ)
    → Patched entry (last_of p fs) (first_of bs) entry'
    → Linked entry p (fs ++ e ∷ bs)
    → Outside p (fs ++ e ∷ bs)
    → Linked entry' p (fs ++ bs)
middle-Linked entry entry' p e [] bs patched l o =
    back-Linked entry entry' p e bs patched l.3 (Outside-tail p e bs o)
  where
    Outside-tail : (p : Option ℕ) (e : ℕ) (bs : List ℕ) → Outside p (e ∷ bs) → Outside p bs
    Outside-tail none e bs o = tt
    Outside-tail (some p) e bs o = ground (arith, o)
middle-Linked entry entry' p e (a ∷ []) bs patched l o =
    let o' : Outside (some a) bs = ground (arith, l.0) in
    (
      o',
      ground (arith, patched a, first-at a bs o', l.1),
      ground (arith, patched a),
      back-Linked entry entry' (some a) e bs patched l.3.3 o',
    )
middle-Linked entry entry' p e (a ∷ b ∷ fs) bs patched l o =
    let gone : holds a (b ∷ (fs ++ bs)) ≡ false = ground (arith, l.0, holds-middle a e fs bs) in
    (
      gone,
      ground (arith, patched a, first-at a bs (holds-back a (b ∷ fs) bs gone), l.1),
      ground (arith, patched a, last-at a b fs bs gone, l.2),
      middle-Linked entry entry' (some a) e (b ∷ fs) bs patched l.3 l.0,
    )

closed-Patched :
    (c : Circle) (pre nxt : Option ℕ) → Patched c.entry pre nxt (closed c pre nxt).entry
closed-Patched c none none i = (refl, refl)
closed-Patched c none (some n) i = (ground arith, ground arith)
closed-Patched c (some b) none i = (ground arith, ground arith)
closed-Patched c (some b) (some n) i = (ground arith, ground arith)

closed-idx :
    (c : Circle) (pre nxt : Option ℕ) (i : ℕ) → ((closed c pre nxt).entry i).idx ≡ (c.entry i).idx
closed-idx c none none i = refl
closed-idx c none (some n) i = ground arith
closed-idx c (some b) none i = ground arith
closed-idx c (some b) (some n) i = ground arith

links-at :
    (entry : ℕ → Entry) (p : Option ℕ) (e : ℕ) (fs bs : List ℕ)
    → Linked entry p (fs ++ e ∷ bs)
    → ((entry e).prev ≡ idx_of (last_of p fs))
      × ((entry e).next ≡ idx_of (first_of bs))
      × IsNot e (first_of bs)
links-at entry p e [] bs l = (l.1, l.2, apart bs l.0)
  where
    apart : (bs : List ℕ) → holds e bs ≡ false → IsNot e (first_of bs)
    apart [] h = tt
    apart (n ∷ bs) h = λ q. ground (arith, h, q)
links-at entry p e (a ∷ fs) bs l = links-at entry (some a) e fs bs l.3

last_of-append : (p : Option ℕ) (xs ys : List ℕ) → last_of p (xs ++ ys) ≡ last_of (last_of p xs) ys
last_of-append p [] ys = refl
last_of-append p (x ∷ xs) ys = last_of-append (some x) xs ys

closed-first :
    (c : Circle) (fs : List ℕ) (nxt : Option ℕ) (e : ℕ) (bs : List ℕ)
    → first_of bs ≡ nxt
    → c.first ≡ idx_of (first_of (fs ++ e ∷ bs))
    → (closed c (last_of none fs) nxt).first ≡ idx_of (first_of (fs ++ bs))
closed-first c [] nxt e bs q h = ap idx_of (sym q)
closed-first c (a ∷ fs) nxt e bs q h =
    let (b, lb) = last_of-some a fs in ap (λ o. (closed c o nxt).first) lb ∙ kept b nxt ∙ h
  where
    kept : (b : ℕ) (nxt : Option ℕ) → (closed c (some b) nxt).first ≡ c.first
    kept b none = refl
    kept b (some n) = refl

closed-last :
    (c : Circle) (pre : Option ℕ) (fs : List ℕ) (e : ℕ) (bs : List ℕ)
    → last_of none fs ≡ pre
    → c.last ≡ idx_of (last_of none (fs ++ e ∷ bs))
    → (closed c pre (first_of bs)).last ≡ idx_of (last_of none (fs ++ bs))
closed-last c pre fs e [] q h = ends pre ∙ ap idx_of (sym q ∙ sym (last_of-append none fs []))
  where
    ends : (pre : Option ℕ) → (closed c pre none).last ≡ idx_of pre
    ends none = refl
    ends (some b) = refl
closed-last c pre fs e (n ∷ bs) q h =
    kept pre
    ∙ h
    ∙ ap idx_of (last_of-append none fs (e ∷ n ∷ bs) ∙ sym (last_of-append none fs (n ∷ bs)))
  where
    kept : (pre : Option ℕ) → (closed c pre (some n)).last ≡ c.last
    kept none = refl
    kept (some b) = refl

-- The object leaves the list, wherever it stands.
pub remove-Ring :
    (c : Circle) (e : ℕ) (fs bs : List ℕ)
    → Ring c (fs ++ e ∷ bs)
    → Ring (remove c e) (fs ++ bs) × ((i : ℕ) → ((remove c e).entry i).idx ≡ (c.entry i).idx)
remove-Ring c e fs bs r =
    let (before, after, apart) = links-at c.entry none e fs bs r.linked in
    let pre = last_of none fs in
    let nxt = first_of bs in
    rw (remove-closed c e pre nxt before after apart) (
      record {
        first = closed-first c fs nxt e bs refl r.first;
        last = closed-last c pre fs e bs refl r.last;
        linked =
            middle-Linked c.entry (closed c pre nxt).entry none e fs bs (closed-Patched c pre nxt)
              r.linked tt;
      },
      closed-idx c pre nxt,
    )
