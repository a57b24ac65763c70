-- ===== src/Pool/History.antt =====
-- Any history of create and destory is that history on the two lists.
use txgg.Base.{ℕ, ◌≡◌, refl, sym, subst, true, Option, none, some, List, [], ◌∷◌, ◌>>=◌}
use txgg.Pool.{Pool, create, destory}
use txgg.Pool.Ring.{holds}
use txgg.Pool.Alloc.{IsValid, cut, Creates, create-Creates, destory-lem}

pub data Request : Type 0 where
  obtain : Request
  release : ℕ → Request

step : Pool → Request → Option (Option ℕ × Pool)
step p obtain = create p
step p (release e) = destory p e >>= λ p'. some (none, p')

-- The objects given out, `none` for NULL and for a release.
pub serve : Pool → List Request → Option (List (Option ℕ) × Pool)
unfolding step
serve p [] = some ([], p)
serve p (r ∷ rs) = step p r >>= λ (o, p'). serve p' rs >>= λ (os, p''). some (o ∷ os, p'')

-- The two lists: a stack of free objects, and the used ones.
pub record Lists : Type 0 where
  pub used : List ℕ
  pub freed : List ℕ

abbrev list_step : Lists → Request → Option ℕ × Lists
list_step l obtain = elim l.freed [
  | [] ↦ (none, l)
  | e ∷ rest ↦ (some e, record { used = e ∷ l.used; freed = rest })
]
list_step l (release e) = (none, record { used = cut e l.used; freed = e ∷ l.freed })

abbrev pub list_serve : Lists → List Request → List (Option ℕ) × Lists
list_serve l [] = ([], l)
list_serve l (r ∷ rs) =
    let (o, l') = list_step l r in let (os, l'') = list_serve l' rs in (o ∷ os, l'')

-- Every release is of an object that is used at that time.
abbrev pub IsProper : Lists → List Request → Type 0
IsProper l [] = Unit
IsProper l (obtain ∷ rs) = IsProper (list_step l obtain).1 rs
IsProper l (release e ∷ rs) = (holds e l.used ≡ true) × IsProper (list_step l (release e)).1 rs

module _ (max : ℕ) where
  abbrev pub Served : Lists → List Request → Option (List (Option ℕ) × Pool) → Type 0
  Served l rs none = ⊥
  Served l rs (some (os, p)) =
      let (os', l') = list_serve l rs in (os ≡ os') × IsValid max p l'.used l'.freed

  Stepped : Lists → Request → Option (Option ℕ × Pool) → Type 0
  Stepped l r none = ⊥
  Stepped l r (some (o, p)) =
      let (o', l') = list_step l r in (o ≡ o') × IsValid max p l'.used l'.freed

  obtained :
      (p : Pool) (us fs : List ℕ) (s : Option (Option ℕ × Pool))
      → IsValid max p us fs
      → Creates max us fs p s
      → Stepped (record { used = us; freed = fs }) obtain s
  unfolding Stepped
  obtained p us fs none v c = c
  obtained p us fs (some (none, p')) v (_, e, same) =
      subst (λ ys. Stepped (record { used = us; freed = ys }) obtain (some (none, p'))) (sym e)
        (refl, subst (λ q. IsValid max q us []) (sym same) (subst (λ ys. IsValid max p us ys) e v))
  obtained p us fs (some (some x, p')) v (rest, e, _, v') =
      subst (λ ys. Stepped (record { used = us; freed = ys }) obtain (some (some x, p'))) (sym e)
        (refl, v')

  released :
      (p : Pool) (l : Lists) (e : ℕ)
      → IsValid max p l.used l.freed
      → holds e l.used ≡ true
      → Stepped l (release e) (step p (release e))
  unfolding Stepped step
  released p l e v h =
      let (p', made, v') = destory-lem max p l.used e l.freed v h in rw made (refl, v')

  after :
      (l : Lists) (r : Request) (rs : List Request) (s : Option (Option ℕ × Pool))
      → Stepped l r s
      → ((p' : Pool)
          → IsValid max p' (list_step l r).1.used (list_step l r).1.freed
          → Served (list_step l r).1 rs (serve p' rs))
      → Served l (r ∷ rs) (s >>= λ (o, p'). serve p' rs >>= λ (os, p''). some (o ∷ os, p''))
  unfolding Stepped
  after l r rs none t next = t
  after l r rs (some (o, p')) (e, v) next = rest (serve p' rs) (next p' v)
    where
      rest :
          (q : Option (List (Option ℕ) × Pool))
          → Served (list_step l r).1 rs q
          → Served l (r ∷ rs) (q >>= λ (os, p''). some (o ∷ os, p''))
      rest none t = t
      rest (some (os, p'')) (e', v') = (rw (e, e') refl, v')

  -- Any history of create and destory in which only used objects are given back runs to its end,
  -- gives out the objects that the two lists say, and leaves every object on exactly one of them.
  pub serve-Served :
      (p : Pool) (l : Lists) (rs : List Request)
      → IsValid max p l.used l.freed
      → IsProper l rs
      → Served l rs (serve p rs)
  unfolding serve step
  serve-Served p l [] v h = (refl, v)
  serve-Served p l (obtain ∷ rs) v h =
      after l obtain rs (create p)
        (obtained p l.used l.freed (create p) v (create-Creates max p l.used l.freed v))
        (λ p' v'. serve-Served p' (list_step l obtain).1 rs v' h)
  serve-Served p l (release e ∷ rs) v h =
      after l (release e) rs (step p (release e)) (released p l e v h.0)
        (λ p' v'. serve-Served p' (list_step l (release e)).1 rs v' h.1)
