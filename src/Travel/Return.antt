-- ===== src/Travel/Return.antt =====
-- A role that comes back from an instance.
use txgg.Base.{
  ℕ, ◌≤◌, ◌≡◌, ◌≢◌, ◌⊎◌, refl, inl, inr, Bool-cases, Option-cases, Option, none, some, arith, ◌==◌,
  ◌>>=◌, Code, ok, err,
}
use txgg.Idx.{Idx}
use txgg.SortArray.{Array}
use txgg.Scene.{Scene, max_role_per_scene}
use txgg.Scene.Members.{member, Joins, add_role_to_scene-Joins}
use txgg.Travel.{
  World, leave_instance, after_leaving, after_joining, join_scene, go_back,
  handle_leave_instance_request,
}
use txgg.Travel.Party.{Goes, array_delete-Goes}
use txgg.Travel.Places.{Placed, outside-Placed, after_joining-Placed, same-Placed}

-- The role is in no scene.
abbrev pub Nowhere : World → ℕ → Type 0
Nowhere w role = (s : ℕ) → member role (w.scenes s) ≡ none

module _ (w : World) (role : ℕ) where
  -- The role came back to its scene, or lost its place since the scene is full, or nothing happened.
  abbrev pub Returns : Option (Code × World) → Type 0
  Returns none = ⊥
  Returns (some (ok n, w')) =
      Placed w'
      × (w'.instance_of role ≡ none)
      × (w.instance_of role ≢ none)
      × ((s : ℕ) × (w.scene_of role ≡ some s) × (member role (w'.scenes s) ≢ none))
  Returns (some (err n, w')) =
      ((n ≡ 20) × (w' ≡ w) × (w.scene_of role ≡ none))
      ⊎ ((n ≡ 30) × (w' ≡ w) × (w.scene_of role ≢ none) × (w.instance_of role ≡ none))
      ⊎ ((n ≡ 50)
          × Placed w'
          × (w'.instance_of role ≡ none)
          × (w.instance_of role ≢ none)
          × Nowhere w' role
          × ((s : ℕ) × (w.scene_of role ≡ some s)
              × (max_role_per_scene ≤ (w.scenes s).roles.nmemb)))

-- What a role that was nowhere finds at the scene `s`.
module _ (w : World) (role s : ℕ) where
  abbrev Rejoins : Option (Code × World) → Type 0
  Rejoins none = ⊥
  Rejoins (some (ok n, w')) =
      Placed w' × (w'.instance_of role ≡ none) × (member role (w'.scenes s) ≢ none)
  Rejoins (some (err n, w')) =
      (n ≡ 50)
      × Placed w'
      × (w'.instance_of role ≡ none)
      × Nowhere w' role
      × (max_role_per_scene ≤ (w.scenes s).roles.nmemb)

-- A role that is nowhere tries to join the scene `s`.
module _ (w : World) (role s : ℕ) (v : Placed w) (out : w.instance_of role ≡ none)
    (nowhere : Nowhere w role) where
  scene_joined :
      (r : Option (Code × Scene))
      → Joins (w.scenes s) role r
      → Rejoins w role s (
          (r >>= λ q. some (after_joining w role s q)) >>= λ (code', w''). elim code' [
            | err m ↦ some (err 50, w'')
            | ok m ↦ some (ok 0, w'')
          ])
  unfolding after_joining
  scene_joined none j = j
  scene_joined (some (ok n, scene)) (z, free, comes, crowd) = (
    after_joining-Placed w v role s scene out nowhere crowd comes,
    out,
    ground (arith, comes role),
  )
  scene_joined (some (err n, scene)) (same, inl (z, full)) = (
    refl,
    same-Placed w v s scene same,
    out,
    λ t. elim (Bool-cases (s == t)) [ inl e ↦ rw (e, same) (nowhere s) | inr e ↦ rw e (nowhere t) ],
    full,
  )
  scene_joined (some (err n, scene)) (same, inr (z, there)) = absurd (there (nowhere s))

  rejoined : Rejoins w role s (
      join_scene w role s >>= λ (code', w''). elim code' [
        | err m ↦ some (err 50, w'')
        | ok m ↦ some (ok 0, w'')
      ])
  unfolding join_scene
  rejoined = scene_joined _ (add_role_to_scene-Joins (w.scenes s) role (v.crowds s))

module _ (w : World) (role s i : ℕ) (v : Placed w) (at : w.scene_of role ≡ some s)
    (was : w.instance_of role ≡ some i) where
  elsewhere : Nowhere w role
  elsewhere t = elim (Option-cases (member role (w.scenes t))) [
    | inl e ↦ e
    | inr (x, e) ↦ absurd (ground (arith, e, was, v.home role t))
  ]

  returned :
      (w' : World) (r : Option (Code × World))
      → w'.scenes s ≡ w.scenes s
      → Rejoins w' role s r
      → Returns w role r
  returned w' none same j = j
  returned w' (some (ok n, w'')) same (v', out, there) =
      (v', out, ground (arith, was), (s, at, there))
  returned w' (some (err n, w'')) same (z, v', out, gone, full) =
      inr (inr (z, v', out, ground (arith, was), gone, (s, at, rw same at full)))

  out_of :
      (r : Option (Code × Array Idx))
      → Goes (w.instances i).role role (v.parties i) r
      → Returns w role (
          (r >>= λ q. some (after_leaving w role i q)) >>= λ (code, w'). elim code [
            | err n ↦ some (err 40, w')
            | ok n ↦ join_scene w' role s >>= λ (code', w''). elim code' [
              | err m ↦ some (err 50, w'')
              | ok m ↦ some (ok 0, w'')
            ]
          ])
  unfolding after_leaving
  out_of none g = g
  out_of (some (err n, arr)) (same, gone) = absurd (v.there role i was gone)
  out_of (some (ok n, arr)) (party, goes) =
      let (code, w') = after_leaving w role i (ok n, arr) in
      returned w' _ refl
        (rejoined w' role s (outside-Placed w v role i arr was party goes) (ground arith) elsewhere)

  go_back-Returns : Returns w role (go_back w role s i)
  unfolding go_back leave_instance
  go_back-Returns = out_of _ (array_delete-Goes (w.instances i).role role (v.parties i))

-- handle_leave_instance_request of a role, where each role has one place at most: it returns. A
-- role without a scene is refused with -20, one with a scene and no instance with -30, and nothing
-- changes. Any other comes out of its
-- instance, and then is in its scene and in no instance; or the answer is -50, which it is only if
-- the scene has become full, and the role is in no scene and no instance any more.
pub handle_leave_instance_request-Returns :
    (w : World) (role : ℕ) → Placed w → Returns w role (handle_leave_instance_request w (some role))
unfolding handle_leave_instance_request
handle_leave_instance_request-Returns w role v = from_scene (w.scene_of role) refl
  where
    from_instance :
        (s : ℕ) (o : Option ℕ)
        → w.scene_of role ≡ some s
        → w.instance_of role ≡ o
        → Returns w role (elim o [ none ↦ some (err 30, w) | some i ↦ go_back w role s i ])
    from_instance s none at e = inr (inl (refl, refl, ground (arith, at), e))
    from_instance s (some i) at e = go_back-Returns w role s i v at e

    from_scene :
        (o : Option ℕ)
        → w.scene_of role ≡ o
        → Returns w role (elim o [
          | none ↦ some (err 20, w)
          | some s ↦ elim (w.instance_of role) [
            | none ↦ some (err 30, w)
            | some i ↦ go_back w role s i
          ]
        ])
    from_scene none e = inl (refl, refl, e)
    from_scene (some s) e = from_instance s (w.instance_of role) e refl
