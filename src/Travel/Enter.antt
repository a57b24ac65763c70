-- ===== src/Travel/Enter.antt =====
-- A role that goes from its scene into a new instance.
use txgg.Base.{
  ℕ, ◌≡◌, ◌≢◌, ◌⊎◌, refl, sym, subst, inl, inr, true, false, Option-cases, Option, none, some, List,
  [], ◌∷◌, arith, ◌==◌, ◌&&◌, ◌>>=◌, lt→leb, if◌then◌else◌, Code, ok, err,
}
use txgg.Idx.{Idx, idx_of, update, comp_idx}
use txgg.SortArray.{Array, array_insert}
use txgg.Container.Invariant.{listed}
use txgg.Scene.{Scene}
use txgg.Scene.Members.{member, Leaves, del_role_from_scene-Leaves}
use txgg.Travel.{
  World, enter_instance, after_entering, take_instance, new_instance, leave_scene, go_in,
  handle_enter_instance_request, max_role_per_instance,
}
use txgg.Travel.Party.{IsParty, found, found-empty, Comes, array_insert-Comes}
use txgg.Travel.Places.{Placed, Apart, opened, opened-Placed, inside-Placed, member-set}
use txgg.Travel.Return.{Nowhere}

module _ (w : World) (role : ℕ) where
  -- The role went into a new instance, or nothing happened.
  abbrev pub Enters : Option (Code × World) → Type 0
  Enters none = ⊥
  Enters (some (err n, w')) =
      (w' ≡ w)
      × (((n ≡ 20) × (w.scene_of role ≡ none))
          ⊎ ((n ≡ 30) × (w.scene_of role ≢ none) × (w.instance_of role ≢ none))
          ⊎ ((n ≡ 50) × (w.scene_of role ≢ none) × (w.instance_of role ≡ none) × (w.free ≡ [])))
  Enters (some (ok n, w')) =
      (w.scene_of role ≢ none)
      × (w.instance_of role ≡ none)
      × Placed w'
      × Nowhere w' role
      × ((i : ℕ) × (w.free ≡ i ∷ w'.free) × (w'.instance_of role ≡ some i))

module _ (w : World) (role i : ℕ) where
  -- The role went into the instance `i`.
  abbrev In : Option (Code × World) → Type 0
  In none = ⊥
  In (some (err n, w')) = ⊥
  In (some (ok n, w')) =
      Placed w' × Nowhere w' role × (w'.instance_of role ≡ some i) × (w'.free ≡ w.free)

-- The instance `i` is empty and not free.
module _ (w : World) (role s i : ℕ) (v : Placed w) (at : w.scene_of role ≡ some s)
    (out : w.instance_of role ≡ none) (empty : (w.instances i).role.nmemb ≡ 0)
    (room : listed i w.free ≡ false) where
  only_there : (t : ℕ) → (if s == t && role == role then none else member role (w.scenes t)) ≡ none
  only_there t = elim (Option-cases (member role (w.scenes t))) [
    | inl e ↦ ground (arith, e)
    | inr (x, e) ↦ ground (arith, e, at, v.home role t)
  ]

  scene_left :
      (arr : Array Idx) (o : Option (Option Scene)) (n : ℕ)
      → IsParty arr
      → ((k : ℕ)
          → found k arr
            ≡ (if role == k then some (idx_of (some role)) else found k (w.instances i).role))
      → Leaves (w.scenes s) role o
      → In w role i (
          (o >>= λ q. elim q [
            | none ↦ some (after_entering w role i (ok n, arr)).1
            | some scene ↦ some (record (after_entering w role i (ok n, arr)).1 {
              scenes = update w.scenes s scene;
            })
          ])
          >>= λ w''. some (ok 0, w''))
  unfolding after_entering
  scene_left arr none n party comes l = absurd l
  scene_left arr (some none) n party comes l = absurd l
  scene_left arr (some (some scene)) n party comes (goes, crowd) = (
    inside-Placed w v role s i arr scene at out room party comes crowd goes,
    λ t. rw (member-set w role none s scene goes role t) (only_there t),
    ground arith,
    refl,
  )

  party_joined :
      (r : Option (Code × Array Idx))
      → Comes (w.instances i).role role (v.parties i) r
      → In w role i (
          (r >>= λ q. some (after_entering w role i q)) >>= λ (code, w'). elim code [
            | err n ↦ some (err 60, w')
            | ok n ↦ leave_scene w' role s >>= λ w''. some (ok 0, w'')
          ])
  unfolding leave_scene after_entering
  party_joined none c = c
  party_joined (some (err n, arr)) (same, there) =
      absurd (there (found-empty (w.instances i).role role empty))
  party_joined (some (ok n, arr)) (party, comes) =
      scene_left arr _ n party comes (del_role_from_scene-Leaves (w.scenes s) role (v.crowds s))

  enter_instance_lem : enter_instance w role i ≡ (
      array_insert comp_idx (idx_of (some role)) (w.instances i).role true >>= λ r.
      some (after_entering w role i r))
  unfolding enter_instance
  enter_instance_lem =
      let room = lt→leb max_role_per_instance (w.instances i).role.nmemb (omega (arith, empty)) in
      rw (enter_instance, out, room) refl

  go_in-In : In w role i (go_in w role s i)
  unfolding go_in
  go_in-In =
      subst
        (λ o. In w role i (
          o >>= λ (code, w'). elim code [
            | err n ↦ some (err 60, w')
            | ok n ↦ leave_scene w' role s >>= λ w''. some (ok 0, w'')
          ]))
        (sym enter_instance_lem)
        (party_joined _
          (array_insert-Comes (w.instances i).role role (v.parties i) (omega (arith, empty))))

-- handle_enter_instance_request of a role, where each role has one place at most: it returns, and
-- no assert fails. A role without a scene is refused with -20, one with a scene that is in an
-- instance with -30, and any other with -50 while no instance is free, and then nothing changes.
-- Only a role with a scene and without an instance is let in: it is in the first free instance
-- afterwards, which is not free any more, and in no scene.
pub handle_enter_instance_request-Enters :
    (w : World) (role instance_id : ℕ)
    → Placed w
    → Enters w role (handle_enter_instance_request w (some role) (some instance_id))
unfolding handle_enter_instance_request new_instance
handle_enter_instance_request-Enters w role instance_id v = from_scene (w.scene_of role) refl
  where
    Make : ℕ → Option (ℕ × World) → Option (Code × World)
    Make s o = elim o [ none ↦ some (err 50, w) | some (i, w') ↦ go_in w' role s i ]

    went :
        (i : ℕ) (rest : List ℕ) (r : Option (Code × World))
        → w.scene_of role ≢ none
        → w.instance_of role ≡ none
        → w.free ≡ i ∷ rest
        → In (opened w instance_id i rest) role i r
        → Enters w role r
    went i rest none at out e x = x
    went i rest (some (err n, w')) at out e x = absurd x
    went i rest (some (ok n, w')) at out e (v', gone, place, free) =
        (at, out, v', gone, (i, rw free e, place))

    from_free :
        (s : ℕ) (fs : List ℕ)
        → w.scene_of role ≡ some s
        → w.instance_of role ≡ none
        → w.free ≡ fs
        → Enters w role (Make s (take_instance w instance_id fs))
    from_free s [] at out e = (refl, inr (inr (refl, ground (arith, at), out, e)))
    from_free s (i ∷ rest) at out e =
        let a : Apart (i ∷ rest) = rw e at v.apart in
        went i rest _ (ground (arith, at)) out e (
          go_in-In (opened w instance_id i rest) role s i (opened-Placed w v instance_id i rest e)
            at out (ground arith) a.0)

    from_instance :
        (s : ℕ) (o : Option ℕ)
        → w.scene_of role ≡ some s
        → w.instance_of role ≡ o
        → Enters w role (elim o [
          | some j ↦ some (err 30, w)
          | none ↦ Make s (take_instance w instance_id w.free)
        ])
    from_instance s (some j) at e = (refl, inr (inl (refl, ground (arith, at), ground (arith, e))))
    from_instance s none at e = from_free s w.free at e refl

    from_scene :
        (o : Option ℕ)
        → w.scene_of role ≡ o
        → Enters w role (elim o [
          | none ↦ some (err 20, w)
          | some s ↦ elim (w.instance_of role) [
            | some j ↦ some (err 30, w)
            | none ↦ Make s (take_instance w instance_id w.free)
          ]
        ])
    from_scene none e = (refl, inl (refl, e))
    from_scene (some s) e = from_instance s (w.instance_of role) e refl
