-- ===== src/Travel/Tests.antt =====
-- A scene with the role 2, a full scene that the role 3 has left for an instance, and one instance
-- that is free.
use txgg.Base.{
  ℕ, refl, Bool-cases, inl, inr, none, some, [], ◌∷◌, arith, ◌==◌, if◌then◌else◌, replicate,
}
use txgg.Idx.{Idx, idx_of, null_idx}
use txgg.SortArray.{Array}
use txgg.SortArray.Table.{lookup}
use txgg.Scene.Members.{HasMembers}
use txgg.Travel.{World, zero_data, handle_enter_instance_request, handle_leave_instance_request}
use txgg.Travel.Party.{IsParty}
use txgg.Travel.Places.{Placed}
use txgg.Travel.Enter.{Enters, handle_enter_instance_request-Enters}
use txgg.Travel.Return.{Returns, handle_leave_instance_request-Returns}

abbrev no_role : Array Idx
no_role = record { mem = replicate 200 null_idx; nmemb = 0 }

abbrev with_role : ℕ → ℕ → Array Idx
with_role size r = record { mem = idx_of (some r) ∷ replicate size null_idx; nmemb = 1 }

-- The role 2 is in the scene 0, and the role 3 in the instance 7.
abbrev world : World
world = record {
  scene_of = λ r. if r == 2 then some 0 else if r == 3 then some 0 else none;
  instance_of = λ r. if r == 3 then some 7 else none;
  instance_data = λ r. zero_data;
  scenes = λ s. record { id = s; roles = if s == 0 then with_role 199 2 else no_role };
  instances = λ i. record {
    id = i;
    role = if i == 7 then with_role 4 3 else record { mem = replicate 5 null_idx; nmemb = 0 };
  };
  free = 5 ∷ [];
}

world-crowds : (s : ℕ) → HasMembers (world.scenes s)
world-crowds s = elim (Bool-cases (s == 0)) [
  | inl e ↦ rw e (record { sorted = record { sorted = tt; fits = omega arith }; size = refl })
  | inr e ↦ rw e (record { sorted = record { sorted = tt; fits = omega arith }; size = refl })
]

world-parties : (i : ℕ) → IsParty (world.instances i).role
world-parties i = elim (Bool-cases (i == 7)) [
  | inl e ↦ rw e (record { sorted = record { sorted = tt; fits = omega arith }; size = refl })
  | inr e ↦ rw e (record { sorted = record { sorted = tt; fits = omega arith }; size = refl })
]

world-Placed : Placed world
unfolding lookup
world-Placed = record {
  crowds = world-crowds;
  parties = world-parties;
  home = λ r s q. ground (arith, q);
  there = λ r i q. ground (arith, q);
  only = λ r i q. ground (arith, q);
  busy = λ r i q. ground (arith, q);
  apart = (refl, tt);
}

handle_enter_instance_request-Enters_example :
    Enters world 2 (handle_enter_instance_request world (some 2) (some 65540))
handle_enter_instance_request-Enters_example =
    handle_enter_instance_request-Enters world 2 65540 world-Placed

handle_leave_instance_request-Returns_example :
    Returns world 3 (handle_leave_instance_request world (some 3))
handle_leave_instance_request-Returns_example =
    handle_leave_instance_request-Returns world 3 world-Placed
