-- ===== src/Scene/Tests.antt =====
-- A scene with three roles, and the theorems applied to it.
use txgg.Base.{refl, some, ◌∷◌, arith, replicate}
use txgg.Idx.{null_idx, idx_of}
use txgg.Scene.{Scene}
use txgg.Scene.Members.{HasMembers}

abbrev scene : Scene
scene = record {
  id = 1;
  roles = record {
    mem = idx_of (some 2) ∷ idx_of (some 5) ∷ idx_of (some 6) ∷ replicate 197 null_idx;
    nmemb = 3;
  };
}

scene-HasMembers : HasMembers scene
scene-HasMembers = record {
  sorted = record { sorted = (omega arith, (omega arith, tt)); fits = omega arith };
  size = refl;
}
