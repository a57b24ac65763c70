-- ===== src/SortArray/Keyed.antt =====
-- The contract with the clients: any history of insertions and deletions on a sorted array is that
-- history on a finite map from keys to members, with the same answers.
use txgg.Base.{
  ℕ, ◌+◌, ◌≤◌, ◌<◌, ◌≡◌, refl, ◌∙◌, Bool, true, false, sym, Bool-cases, ==_iff, Option, none, some,
  List, [], ◌∷◌, arith, length, Code, ok, err, ◌>>=◌, ◌==◌, if◌then◌else◌, Option-cases, inl, inr,
}
use txgg.SortArray.{Array, live, array_insert, array_delete}
use txgg.SortArray.Order.{KeyOrder}
use txgg.SortArray.Table.{lookup, lookup-put, lookup-erase, put-IsSorted, erase-IsSorted}
use txgg.SortArray.Update.{IsValid, Inserts, Deletes, array_insert-Inserts, array_delete-Deletes}

pub data Request (A : Type 0) : Type 0 where
  insert delete : A → Request A

is_ok : Code → Bool
is_ok (ok n) = true
is_ok (err n) = false

abbrev pub is_some {ℓ} : {A : Type ℓ} → Option A → Bool
is_some none = false
is_some (some a) = true

module _ {A : Type 0} (o : KeyOrder A) where
  -- A call on the array, and whether it succeeded.
  step : Array A → Request A → Option (Bool × Array A)
  unfolding is_ok
  step arr (insert x) = array_insert o.compar x arr true >>= λ (code, arr'). some (is_ok code, arr')
  step arr (delete x) = array_delete o.compar x arr >>= λ (code, arr'). some (is_ok code, arr')

  pub run : Array A → List (Request A) → Option (List Bool × Array A)
  unfolding step
  run arr [] = some ([], arr)
  run arr (r ∷ rs) =
      step arr r >>= λ (done, arr'). run arr' rs >>= λ (dones, arr''). some (done ∷ dones, arr'')

  -- The same on a map.
  abbrev pub map_step : (ℕ → Option A) → Request A → Bool × (ℕ → Option A)
  map_step m (insert x) = elim (m (o.key x)) [
    | none ↦ (true, λ k. if o.key x == k then some x else m k)
    | some y ↦ (false, m)
  ]
  map_step m (delete x) = (is_some (m (o.key x)), λ k. if o.key x == k then none else m k)

  abbrev pub map_run : (ℕ → Option A) → List (Request A) → List Bool × (ℕ → Option A)
  map_run m [] = ([], m)
  map_run m (r ∷ rs) =
      let (done, m') = map_step m r in let (dones, m'') = map_run m' rs in (done ∷ dones, m'')

  -- An array stands for the map of its lookups.
  abbrev pub Represents : Array A → (ℕ → Option A) → Type 0
  Represents arr m = IsValid o.key arr × ((k : ℕ) → lookup o.key k (live arr) ≡ m k)

  abbrev Stepped : Array A → (ℕ → Option A) → Request A → Option (Bool × Array A) → Type 0
  Stepped arr m r none = ⊥
  Stepped arr m r (some (done, arr')) =
      (done ≡ (map_step m r).0)
      × Represents arr' (map_step m r).1
      × (arr'.nmemb ≤ arr.nmemb + 1)
      × (length arr'.mem ≡ length arr.mem)

  module _ (arr : Array A) (m : ℕ → Option A) (x : A) (v : Represents arr m) where
    inserted :
        (r : Option (Code × Array A))
        → arr.nmemb < length arr.mem
        → Inserts o x arr r
        → Stepped arr m (insert x) (r >>= λ (code, arr'). some (is_ok code, arr'))
    unfolding is_ok
    inserted none room i = i
    inserted (some (ok n, arr')) room (free, e, _, count, len) =
        rw (sym (v.1 (o.key x)) ∙ free, map_step)
          (
            refl,
            (
              record {
                sorted = rw e (put-IsSorted o.key x (live arr) v.0.sorted);
                fits = omega arith;
              },
              λ k. rw (e, ← v.1 k) (lookup-put o.key x k (live arr) free),
            ),
            omega arith,
            len,
          )
    inserted (some (err n, arr')) room (taken, _, same) = elim (Option-cases (m (o.key x))) [
      | inl q ↦ absurd (taken (v.1 (o.key x) ∙ q))
      | inr (y, q) ↦ rw (q, same, map_step) (refl, v, omega arith, refl)
    ]

    deleted :
        (r : Option (Code × Array A))
        → Deletes o x arr r
        → Stepped arr m (delete x) (r >>= λ (code, arr'). some (is_ok code, arr'))
    unfolding is_ok
    deleted none i = i
    deleted (some (ok n, arr')) (found, _, e, count, len) = elim (Option-cases (m (o.key x))) [
      | inl q ↦ absurd (found (v.1 (o.key x) ∙ q))
      | inr (y, q) ↦
          rw (q, map_step)
            (
              refl,
              (
                record {
                  sorted = rw e (erase-IsSorted o.key (o.key x) (live arr) v.0.sorted);
                  fits = omega (arith, v.0.fits);
                },
                λ k. rw (e, ← v.1 k) (lookup-erase o.key (o.key x) k (live arr) v.0.sorted),
              ),
              omega arith,
              len,
            )
    ]
    deleted (some (err n, arr')) (free, _, same) =
        let q : m (o.key x) ≡ none = sym (v.1 (o.key x)) ∙ free in
        rw (q, same, map_step)
          (
            refl,
            (
              v.0,
              λ k. elim (Bool-cases (o.key x == k)) [
                | inl e ↦ rw e (rw ((==_iff (o.key x) k).0 e) at free)
                | inr e ↦ rw e (v.1 k)
              ],
            ),
            omega arith,
            refl,
          )

  stepped :
      (arr : Array A) (m : ℕ → Option A) (r : Request A)
      → Represents arr m
      → arr.nmemb < length arr.mem
      → Stepped arr m r (step arr r)
  unfolding step
  stepped arr m (insert x) v room =
      inserted arr m x v _ room (array_insert-Inserts o x arr v.0 room)
  stepped arr m (delete x) v room = deleted arr m x v _ (array_delete-Deletes o x arr v.0)

  abbrev pub Ran : (ℕ → Option A) → List (Request A) → Option (List Bool × Array A) → Type 0
  Ran m rs none = ⊥
  Ran m rs (some (dones, arr')) = (dones ≡ (map_run m rs).0) × Represents arr' (map_run m rs).1

  module _ (m : ℕ → Option A) (r : Request A) (rs : List (Request A)) where
    abbrev after : ℕ → Option A
    after = (map_step m r).1

    rest-Ran :
        (done : Bool) (rest : Option (List Bool × Array A))
        → done ≡ (map_step m r).0
        → Ran after rs rest
        → Ran m (r ∷ rs) (rest >>= λ (dones, arr''). some (done ∷ dones, arr''))
    rest-Ran done none e t = t
    rest-Ran done (some (dones, arr'')) e t = (rw (e, t.0) refl, t.1)

    step-Ran :
        (arr : Array A) (s : Option (Bool × Array A))
        → Stepped arr m r s
        → arr.nmemb + length (r ∷ rs) ≤ length arr.mem
        → ((arr' : Array A)
            → Represents arr' after
            → arr'.nmemb + length rs ≤ length arr'.mem
            → Ran after rs (run arr' rs))
        → Ran m
            (r ∷ rs)
            (s >>= λ (done, arr'). run arr' rs >>= λ (dones, arr''). some (done ∷ dones, arr''))
    step-Ran arr none t room next = t
    step-Ran arr (some (done, arr')) (e, v, more, len) room next =
        rest-Ran done (run arr' rs) e (next arr' v (omega arith))

  -- On a valid array with a free cell for each request, any history of array_insert and
  -- array_delete returns; its calls succeed and fail as those on a finite map do, and what it
  -- leaves is valid and stands for the map that those leave.
  pub run-Ran :
      (arr : Array A) (m : ℕ → Option A) (rs : List (Request A))
      → Represents arr m
      → arr.nmemb + length rs ≤ length arr.mem
      → Ran m rs (run arr rs)
  unfolding run
  run-Ran arr m [] v room = (refl, v)
  run-Ran arr m (r ∷ rs) v room =
      step-Ran m r rs arr (step arr r) (stepped arr m r v (omega arith)) room
        (λ arr' v' room'. run-Ran arr' (map_step m r).1 rs v' room')
