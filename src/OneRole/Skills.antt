-- ===== src/OneRole/Skills.antt =====
-- The skills of a fighter as a set of ids.
use txgg.Base.{
  ℕ, ◌≤◌, ◌<◌, ◌≡◌, ◌≢◌, ◌⊎◌, inl, inr, refl, ap, ◌∙◌, Bool, true, false, ◌||◌, Option, none, some,
  arith, length, leb, leb→le, get_elem?, Bool-cases, ◌>>=◌, ◌==◌, if◌then◌else◌, Code, ok, err,
}
use txgg.SortArray.{Array, live, comp_uint}
use txgg.SortArray.Order.{KeyOrder, comp_uint_lem, get_elem?-key_at}
use txgg.SortArray.Search.{Locates, array_bsearch-Locates}
use txgg.SortArray.Table.{
  Splits-lookup, lookup, lookup-put, lookup-erase, put-IsSorted, erase-IsSorted,
}
use txgg.SortArray.Update.{IsValid, Inserts, Deletes, array_insert-Inserts, array_delete-Deletes}
use txgg.OneRole.{
  OneRole, max_skill_per_role, skill_result, add_one_role_skill, delete_one_role_skill,
  search_one_role_skill,
}

abbrev pub skills : KeyOrder ℕ
skills = record { compar = comp_uint; key = λ n. n; compar_lem = comp_uint_lem }

pub record HasSkills (r : OneRole) : Type 0 where
  pub sorted : IsValid {A = ℕ} (λ n. n) r.skill
  pub size : length r.skill.mem ≡ max_skill_per_role

abbrev is_some : Option ℕ → Bool
is_some none = false
is_some (some n) = true

-- The fighter has learnt the skill.
pub knows : ℕ → OneRole → Bool
knows id r = is_some (lookup (λ n. n) id (live r.skill))

-- What add_one_role_skill and delete_one_role_skill do, on each way out.
abbrev pub Learns : OneRole → ℕ → Option (Code × OneRole) → Type 0
Learns r id none = ⊥
Learns r id (some (ok n, r')) =
    (n ≡ 0) × (knows id r ≡ false) × ((k : ℕ) → knows k r' ≡ (id == k || knows k r)) × HasSkills r'
Learns r id (some (err n, r')) =
    (r' ≡ r) × (((n ≡ 1) × (max_skill_per_role ≤ r.skill.nmemb)) ⊎ ((n ≡ 10) × (knows id r ≡ true)))

abbrev pub Forgets : OneRole → ℕ → Option (Code × OneRole) → Type 0
Forgets r id none = ⊥
Forgets r id (some (ok n, r')) =
    (n ≡ 0)
    × (knows id r ≡ true)
    × ((k : ℕ) → knows k r' ≡ (if id == k then false else knows k r))
    × HasSkills r'
Forgets r id (some (err n, r')) = (n ≡ 10) × (knows id r ≡ false) × (r' ≡ r)

≢none : (o : Option ℕ) → o ≢ none → is_some o ≡ true
≢none none h = absurd (h refl)
≢none (some n) h = refl

module _ (r : OneRole) (id : ℕ) (v : HasSkills r) where
  learnt :
      (a : Option (Code × Array ℕ))
      → r.skill.nmemb < max_skill_per_role
      → Inserts skills id r.skill a
      → Learns r id (a >>= λ x. some (skill_result r x))
  unfolding knows
  learnt none room i = i
  learnt (some (ok n, arr)) room (free, e, _, count, len) = (
    refl,
    ap is_some free,
    λ k. rw e (ap is_some (lookup-put (λ n. n) id k (live r.skill) free) ∙ joined (id == k) k),
    record {
      sorted = record {
        sorted = rw e (put-IsSorted (λ n. n) id (live r.skill) v.sorted.sorted);
        fits = omega (arith, v.size);
      };
      size = len ∙ v.size;
    },
  )
    where
      joined :
          (b : Bool) (k : ℕ)
          → is_some (if b then some id else lookup (λ n. n) k (live r.skill))
            ≡ (b || is_some (lookup (λ n. n) k (live r.skill)))
      joined true k = refl
      joined false k = refl
  learnt (some (err n, arr)) room (taken, z, same) =
      (ap (λ a. record r { skill = a }) same, inr (refl, ≢none _ taken))

  -- add_one_role_skill on a fighter with sorted skills: a skill that is new joins the others, and
  -- none other changes; it returns -1 for a full table of 128 and -10 for a skill that is there,
  -- and then changes nothing.
  pub add_one_role_skill-Learns : Learns r id (add_one_role_skill r id)
  unfolding add_one_role_skill
  add_one_role_skill-Learns = elim (Bool-cases (leb max_skill_per_role r.skill.nmemb)) [
    | inl e ↦ rw e (refl, inl (refl, leb→le _ _ e))
    | inr e ↦ rw e (
        learnt _ (full e)
          (array_insert-Inserts skills id r.skill v.sorted (omega (arith, full e, v.size))))
  ]
    where
      full : leb max_skill_per_role r.skill.nmemb ≡ false → r.skill.nmemb < max_skill_per_role
      full e = ground (arith, e)

  forgotten :
      (a : Option (Code × Array ℕ))
      → Deletes skills id r.skill a
      → Forgets r id (a >>= λ x. some (skill_result r x))
  unfolding knows
  forgotten none d = d
  forgotten (some (ok n, arr)) (found, z, e, count, len) = (
    refl,
    ≢none _ found,
    λ k.
        rw e (
          ap is_some (lookup-erase (λ n. n) id k (live r.skill) v.sorted.sorted)
          ∙ left (id == k) k),
    record {
      sorted = record {
        sorted = rw e (erase-IsSorted (λ n. n) id (live r.skill) v.sorted.sorted);
        fits = omega (arith, v.sorted.fits);
      };
      size = len ∙ v.size;
    },
  )
    where
      left :
          (b : Bool) (k : ℕ)
          → is_some (if b then none else lookup (λ n. n) k (live r.skill))
            ≡ (if b then false else is_some (lookup (λ n. n) k (live r.skill)))
      left true k = refl
      left false k = refl
  forgotten (some (err n, arr)) (gone, z, same) =
      (refl, ap is_some gone, ap (λ a. record r { skill = a }) same)

  -- delete_one_role_skill: the skill is gone and no other changes; -10 and no change without it.
  pub delete_one_role_skill-Forgets : Forgets r id (delete_one_role_skill r id)
  unfolding delete_one_role_skill
  delete_one_role_skill-Forgets = forgotten _ (array_delete-Deletes skills id r.skill v.sorted)

-- What search_one_role_skill gives.
abbrev pub Finds : OneRole → ℕ → Option Code → Type 0
Finds r id none = ⊥
Finds r id (some (ok i)) = get_elem? (live r.skill) i ≡ some id
Finds r id (some (err n)) = (n ≡ 1) × (knows id r ≡ false)

module _ (r : OneRole) (id : ℕ) where
  found :
      (a : Option (Bool × ℕ))
      → Locates (λ n. n) (live r.skill) id a
      → Finds r id (a >>= λ (find, index). some (if find then ok index else err 1))
  unfolding knows
  found none l = l
  found (some (true, i)) l =
      let (x, e, same) = get_elem?-key_at (λ n. n) (live r.skill) i l.inside in
      e ∙ ap some (same ∙ l.equal)
  found (some (false, i)) l = (refl, ap is_some (Splits-lookup (λ n. n) id (live r.skill) i l))

  -- search_one_role_skill on a fighter with sorted skills gives the index of a skill that is there,
  -- and -1 for any other.
  pub search_one_role_skill-Finds : HasSkills r → Finds r id (search_one_role_skill r id)
  unfolding search_one_role_skill
  search_one_role_skill-Finds v =
      found _ (array_bsearch-Locates skills id r.skill v.sorted.sorted v.sorted.fits)
