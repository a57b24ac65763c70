-- ===== src/OneRole/Exp/Tests.antt =====
-- A role of one figure that gains experience, and the theorem applied to it.
use txgg.Base.{
  ℕ, ◌*◌, ltb, if◌then◌else◌, ◌≡◌, refl, Option, none, some, List, [], ◌∷◌, arith, length, map,
}
use txgg.OneRole.{Power, OneRole, CfgAttribute, CfgPlayer}
use txgg.OneRole.Levels.{reset_one_role_attribute, fill_one_role_attr_changed}
use txgg.OneRole.Exp.{ExpNotify, give_exp, give_role_exp, Raised}
use txgg.OneRole.Exp.Climb.{give_exp-Raised}

abbrev plain : Power
plain = record {
  phy_attack = 1;
  phy_defence = 1;
  magic_attack = 1;
  magic_defence = 1;
  parry_rate = 1;
  counterattack_rate = 1;
  hit_rate = 1;
  jink_rate = 1;
  crit_rate = 1;
  speed = 1;
}

abbrev newcomer : OneRole
newcomer = record {
  profession = 1;
  strength = 1;
  brain = 1;
  charm = 1;
  agile = 1;
  exp = 4;
  exp_levelup = 10;
  attr = record {
    name = 65 ∷ [];
    hp_cur = 5;
    hp_max = 20;
    level = 1;
    power = plain;
    buff = record { mem = []; nmemb = 0 };
  };
  skill = record { mem = []; nmemb = 0 };
}

abbrev nobody : OneRole
nobody = record newcomer { attr = record newcomer.attr { name = 0 ∷ [] } }

-- The rows of the levels 0 to 3.
abbrev rows : ℕ → ℕ → Option CfgPlayer
rows profession lv = if ltb 3 lv then none else some (record { exp = 10 * lv; attribute = 7 })

abbrev attributes : ℕ → Option CfgAttribute
attributes id =
    some (record { hp = 40; strength = 2; brain = 2; charm = 2; agile = 2; power = plain })

-- Of each figure the level, the experience and the hit points, and what the client is told.
gained : Option (List OneRole × ExpNotify) → Option (List (ℕ × ℕ × ℕ) × Option ℕ × ℕ)
gained none = none
gained (some (rs, notify)) =
    some (map (λ r. (r.attr.level, r.exp, r.attr.hp_cur)) rs, notify.exp, length notify.attr)

two_levels :
    gained (give_role_exp rows attributes 25 (newcomer ∷ nobody ∷ []))
    ≡ some ((3, 29, 40) ∷ (1, 4, 5) ∷ [], some 29, 17)
unfolding gained give_role_exp reset_one_role_attribute fill_one_role_attr_changed
two_levels = refl

give_exp-Raised_example : Raised rows (record newcomer { exp = 29 }) (give_exp rows 25 newcomer)
give_exp-Raised_example =
    give_exp-Raised rows 4 (omega arith) 25 newcomer refl (omega arith) (omega arith)
