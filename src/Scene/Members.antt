-- ===== src/Scene/Members.antt =====
-- Who is in a scene.
use txgg.Base.{
  ℕ, ◌≤◌, ◌<◌, ◌≡◌, ◌≢◌, ◌⊎◌, inl, inr, refl, ap, ◌∙◌, false, Option, none, some, arith, compare,
  length, leb, leb→le, Bool-cases, ==_iff, ◌>>=◌, ◌==◌, if◌then◌else◌, Code, ok, err,
}
use txgg.Idx.{Idx, idx_of, comp_idx}
use txgg.SortArray.{Array, live}
use txgg.SortArray.Order.{KeyOrder}
use txgg.SortArray.Table.{lookup, lookup-put, lookup-erase, put-IsSorted, erase-IsSorted}
use txgg.SortArray.Update.{IsValid, Inserts, Deletes, array_insert-Inserts, array_delete-Deletes}
use txgg.Scene.{Scene, max_role_per_scene, add_role_to_scene, del_role_from_scene}

pub comp_idx_lem : (a b : Idx) → comp_idx a b ≡ compare a.idx b.idx
unfolding comp_idx
comp_idx_lem a b = ground arith

abbrev pub members : KeyOrder Idx
members = record { compar = comp_idx; key = λ i. i.idx; compar_lem = comp_idx_lem }

pub record HasMembers (s : Scene) : Type 0 where
  pub sorted : IsValid {A = Idx} (λ i. i.idx) s.roles
  pub size : length s.roles.mem ≡ max_role_per_scene

-- The role object is in the scene.
abbrev pub member : ℕ → Scene → Option Idx
member role s = lookup (λ i. i.idx) role (live s.roles)

abbrev pub Joins : Scene → ℕ → Option (Code × Scene) → Type 0
Joins s role none = ⊥
Joins s role (some (ok n, s')) =
    (n ≡ 0)
    × (member role s ≡ none)
    × ((k : ℕ) → member k s' ≡ (if role == k then some (idx_of (some role)) else member k s))
    × HasMembers s'
Joins s role (some (err n, s')) =
    (s' ≡ s)
    × (((n ≡ 1) × (max_role_per_scene ≤ s.roles.nmemb)) ⊎ ((n ≡ 2) × (member role s ≢ none)))

abbrev pub Leaves : Scene → ℕ → Option (Option Scene) → Type 0
Leaves s role none = ⊥
Leaves s role (some none) = ⊥
Leaves s role (some (some s')) =
    ((k : ℕ) → member k s' ≡ (if role == k then none else member k s)) × HasMembers s'

module _ (s : Scene) (role : ℕ) (v : HasMembers s) where
  joined :
      (a : Option (Code × Array Idx))
      → s.roles.nmemb < max_role_per_scene
      → Inserts members (idx_of (some role)) s.roles a
      → Joins s role (
          a >>= λ (code, roles).
          some (elim code [ ok n ↦ ok 0 | err n ↦ err 2 ], record s { roles = roles }))
  joined none room i = i
  joined (some (ok n, arr)) room (free, e, _, count, len) = (
    refl,
    free,
    λ k. rw e (lookup-put (λ i. i.idx) (idx_of (some role)) k (live s.roles) free),
    record {
      sorted = record {
        sorted =
            rw e (put-IsSorted (λ i. i.idx) (idx_of (some role)) (live s.roles) v.sorted.sorted);
        fits = omega (arith, v.size);
      };
      size = len ∙ v.size;
    },
  )
  joined (some (err n, arr)) room (taken, z, same) =
      (ap (λ a. record s { roles = a }) same, inr (refl, taken))

  -- add_role_to_scene on a scene whose roles are sorted: a role that is new joins the others; it
  -- returns -1 for a scene of 200 and -2 for a role that is there, and then changes nothing.
  pub add_role_to_scene-Joins : Joins s role (add_role_to_scene s role)
  unfolding add_role_to_scene
  add_role_to_scene-Joins = elim (Bool-cases (leb max_role_per_scene s.roles.nmemb)) [
    | inl e ↦ rw e (refl, inl (refl, leb→le _ _ e))
    | inr e ↦ rw e (
        joined _ (full e) (
          array_insert-Inserts members (idx_of (some role)) s.roles v.sorted
            (omega (arith, full e, v.size))))
  ]
    where
      full : leb max_role_per_scene s.roles.nmemb ≡ false → s.roles.nmemb < max_role_per_scene
      full e = ground (arith, e)

  left :
      (a : Option (Code × Array Idx))
      → Deletes members (idx_of (some role)) s.roles a
      → Leaves s role (a >>= λ (code, roles). some (some (record s { roles = roles })))
  left none d = d
  left (some (ok n, arr)) (_, _, e, count, len) = (
    λ k. rw e (lookup-erase (λ i. i.idx) role k (live s.roles) v.sorted.sorted),
    record {
      sorted = record {
        sorted = rw e (erase-IsSorted (λ i. i.idx) role (live s.roles) v.sorted.sorted);
        fits = omega (arith, v.sorted.fits);
      };
      size = len ∙ v.size;
    },
  )
  left (some (err n, arr)) (gone, z, same) = rw same (
    λ k. elim (Bool-cases (role == k)) [
      | inl e ↦ rw e (rw ((==_iff role k).0 e) at gone)
      | inr e ↦ rw e refl
    ],
    v,
  )

  -- del_role_from_scene on such a scene: afterwards the role is not in it, whether it was or not,
  -- and the others are.
  pub del_role_from_scene-Leaves : Leaves s role (del_role_from_scene (some s) role)
  unfolding del_role_from_scene
  del_role_from_scene-Leaves =
      left _ (array_delete-Deletes members (idx_of (some role)) s.roles v.sorted)
