-- ===== src/Travel/Places.antt =====
-- Where the roles are, and that each step of the requests keeps it in order.
use txgg.Base.{
  ℕ, ◌%◌, ◌≡◌, ◌≢◌, ◌∙◌, refl, ap, inl, inr, false, Bool-cases, ==_iff, Option, none, some, List,
  [], ◌∷◌, arith, ◌==◌, ◌&&◌, if◌then◌else◌, u16_mod,
}
use txgg.Idx.{Idx, idx_of, update}
use txgg.SortArray.{Array}
use txgg.Container.Invariant.{listed}
use txgg.Scene.{Scene}
use txgg.Scene.Members.{HasMembers, member}
use txgg.Travel.{InstanceObj, World, zero_data, set_roles}
use txgg.Travel.Party.{IsParty, found, found-empty}

abbrev pub Apart : List ℕ → Type 0
Apart [] = Unit
Apart (i ∷ is) = (listed i is ≡ false) × Apart is

-- A role is in the scene that it names and in no instance, or in the instance that it names and in
-- no scene, or nowhere; and an instance that somebody is in is not free.
pub record Placed (w : World) : Type 0 where
  pub crowds : (s : ℕ) → HasMembers (w.scenes s)
  pub parties : (i : ℕ) → IsParty (w.instances i).role
  pub home :
      (r s : ℕ) → member r (w.scenes s) ≢ none → (w.scene_of r ≡ some s) × (w.instance_of r ≡ none)
  pub there : (r i : ℕ) → w.instance_of r ≡ some i → found r (w.instances i).role ≢ none
  pub only : (r i : ℕ) → found r (w.instances i).role ≢ none → w.instance_of r ≡ some i
  pub busy : (r i : ℕ) → w.instance_of r ≡ some i → listed i w.free ≡ false
  pub apart : Apart w.free

-- The family holds everywhere after one write.
update-all {ℓ} :
    {A : Type ℓ} (P : A → Type 0) (f : ℕ → A) (i : ℕ) (a : A)
    → P a
    → ((j : ℕ) → P (f j))
    → (j : ℕ) → P (update f i a j)
update-all P f i a here rest j = elim (Bool-cases (i == j)) [
  | inl e ↦ rw e here
  | inr e ↦ rw e (rest j)
]

-- Who is where after one write: `x` is what the look-up of `role` gives there.
module _ (w : World) (role : ℕ) (x : Option Idx) where
  found-set :
      (i : ℕ) (arr : Array Idx)
      → ((k : ℕ) → found k arr ≡ (if role == k then x else found k (w.instances i).role))
      → (r j : ℕ)
      → found r (update w.instances i (record (w.instances i) { role = arr }) j).role
        ≡ (if i == j && role == r then x else found r (w.instances j).role)
  found-set i arr f r j = elim (Bool-cases (i == j)) [
    | inl e ↦ rw e (rw ((==_iff i j).0 e) at (f r))
    | inr e ↦ rw e refl
  ]

  pub member-set :
      (s : ℕ) (scene : Scene)
      → ((k : ℕ) → member k scene ≡ (if role == k then x else member k (w.scenes s)))
      → (r t : ℕ)
      → member r (update w.scenes s scene t)
        ≡ (if s == t && role == r then x else member r (w.scenes t))
  member-set s scene f r t = elim (Bool-cases (s == t)) [
    | inl e ↦ rw e (rw ((==_iff s t).0 e) at (f r))
    | inr e ↦ rw e refl
  ]

module _ (w : World) where
  -- The first free instance is emptied and taken.
  abbrev pub opened : ℕ → ℕ → List ℕ → World
  opened id i rest = record w {
    instances =
        update w.instances i
          (record { id = id % u16_mod; role = record (w.instances i).role { nmemb = 0 } });
    free = rest;
  }

module _ (w : World) (v : Placed w) where
  taken :
      (i : ℕ) (rest : List ℕ)
      → w.free ≡ i ∷ rest
      → (r j : ℕ) → w.instance_of r ≡ some j
      → ((i == j) ≡ false) × (listed j rest ≡ false)
  taken i rest e r j q =
      let h : listed j (i ∷ rest) ≡ false = rw e at (v.busy r j q) in ground (arith, h)

  pub opened-Placed : (id i : ℕ) (rest : List ℕ) → w.free ≡ i ∷ rest → Placed (opened w id i rest)
  opened-Placed id i rest e =
      let fresh : InstanceObj = record {
        id = id % u16_mod;
        role = record (w.instances i).role { nmemb = 0 };
      } in
      let a : Apart (i ∷ rest) = rw e at v.apart in
      record {
        crowds = v.crowds;
        parties =
            update-all (λ o. IsParty o.role) w.instances i fresh
              (record {
                sorted = record { sorted = tt; fits = omega arith };
                size = (v.parties i).size;
              })
              v.parties;
        home = v.home;
        there = λ r j q. rw ((taken i rest e r j q).0) (v.there r j q);
        only = λ r j q. elim (Bool-cases (i == j)) [
          | inl f ↦ absurd (q (rw f (found-empty fresh.role r refl)))
          | inr f ↦ v.only r j (rw f at q)
        ];
        busy = λ r j q. (taken i rest e r j q).1;
        apart = a.1;
      }

  -- A role that is in no instance goes from its scene to the instance `i`, which is not free.
  pub inside-Placed :
      (role s i : ℕ) (arr : Array Idx) (scene : Scene)
      → w.scene_of role ≡ some s
      → w.instance_of role ≡ none
      → listed i w.free ≡ false
      → IsParty arr
      → ((k : ℕ)
          → found k arr
            ≡ (if role == k then some (idx_of (some role)) else found k (w.instances i).role))
      → HasMembers scene
      → ((k : ℕ) → member k scene ≡ (if role == k then none else member k (w.scenes s)))
      → Placed (record (set_roles w i arr) {
        instance_of = update w.instance_of role (some i);
        instance_data = update w.instance_data role zero_data;
        scenes = update w.scenes s scene;
      })
  inside-Placed role s i arr scene at out room party comes crowd goes = record {
    crowds = update-all HasMembers w.scenes s scene crowd v.crowds;
    parties =
        update-all (λ o. IsParty o.role) w.instances i (record (w.instances i) { role = arr }) party
          v.parties;
    home = λ r t q.
        ground (arith, at, out, v.home r t, rw (member-set w role none s scene goes r t) at q);
    there = λ r j q.
        rw (found-set w role (some (idx_of (some role))) i arr comes r j)
          (ground (arith, q, v.there r j));
    only = λ r j q. ground (
      arith,
      out,
      v.only r j,
      rw (found-set w role (some (idx_of (some role))) i arr comes r j) at q,
    );
    busy = λ r j q. ground (arith, room, q, v.busy r j);
    apart = v.apart;
  }

  -- A role comes out of the instance `i`, which is free when nobody is left in it.
  pub outside-Placed :
      (role i : ℕ) (arr : Array Idx)
      → w.instance_of role ≡ some i
      → IsParty arr
      → ((k : ℕ) → found k arr ≡ (if role == k then none else found k (w.instances i).role))
      → Placed (record (set_roles w i arr) {
        instance_of = update w.instance_of role none;
        free = if arr.nmemb == 0 then i ∷ w.free else w.free;
      })
  outside-Placed role i arr was party goes = record {
    crowds = v.crowds;
    parties =
        update-all (λ o. IsParty o.role) w.instances i (record (w.instances i) { role = arr }) party
          v.parties;
    home = λ r t q. ground (arith, v.home r t q);
    there = λ r j q. rw (found-set w role none i arr goes r j) (ground (arith, q, v.there r j));
    only = λ r j q. ground (arith, was, v.only r j, rw (found-set w role none i arr goes r j) at q);
    busy = λ r j q. elim (Bool-cases (arr.nmemb == 0)) [
      | inl e ↦ rw e (
          ground (arith, q, v.busy r j, v.there r j, goes r, found-empty arr r (ground (arith, e))))
      | inr e ↦ rw e (ground (arith, q, v.busy r j))
    ];
    apart = elim (Bool-cases (arr.nmemb == 0)) [
      | inl e ↦ rw e (v.busy role i was, v.apart)
      | inr e ↦ rw e v.apart
    ];
  }

  -- A role that is nowhere joins the scene `s`.
  pub after_joining-Placed :
      (role s : ℕ) (scene : Scene)
      → w.instance_of role ≡ none
      → ((t : ℕ) → member role (w.scenes t) ≡ none)
      → HasMembers scene
      → ((k : ℕ)
          → member k scene
            ≡ (if role == k then some (idx_of (some role)) else member k (w.scenes s)))
      → Placed (record w {
        scenes = update w.scenes s scene;
        scene_of = update w.scene_of role (some s);
      })
  after_joining-Placed role s scene out nowhere crowd comes = record {
    crowds = update-all HasMembers w.scenes s scene crowd v.crowds;
    parties = v.parties;
    home = λ r t q. ground (
      arith,
      out,
      v.home r t,
      nowhere t,
      rw (member-set w role (some (idx_of (some role))) s scene comes r t) at q,
    );
    there = v.there;
    only = v.only;
    busy = v.busy;
    apart = v.apart;
  }

  -- A scene that is written as it was.
  pub same-Placed :
      (s : ℕ) (scene : Scene)
      → scene ≡ w.scenes s
      → Placed (record w { scenes = update w.scenes s scene })
  same-Placed s scene same = record {
    crowds = update-all HasMembers w.scenes s scene (rw same (v.crowds s)) v.crowds;
    parties = v.parties;
    home = λ r t q. elim (Bool-cases (s == t)) [
      | inl e ↦
          v.home r t
            (λ z. q (rw (e, same) (ap (λ k. member r (w.scenes k)) ((==_iff s t).0 e) ∙ z)))
      | inr e ↦ v.home r t (rw e at q)
    ];
    there = v.there;
    only = v.only;
    busy = v.busy;
    apart = v.apart;
  }
