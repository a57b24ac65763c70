-- ===== src/OneRole/Tests.antt =====
-- A fighter with one buff and two skills, and the theorems applied to it.
use txgg.Base.{ℕ, ◌<◌, ◌^◌, refl, Option, some, [], ◌∷◌, arith, replicate}
use txgg.SortArray.{array_insert, array_bsearch, bsearch_loop, insert_found, make_room}
use txgg.OneRole.{
  BuffData, comp_role_buff, Power, OneRole, CfgAttribute, CfgPlayer, CfgSkill, add_buff,
  remove_buff,
}
use txgg.OneRole.Skills.{HasSkills}
use txgg.OneRole.Buffs.{HasBuffs, IsWord, Buffed, Restored, add_buff-Buffed, remove_buff-add_buff}

abbrev power : ℕ → Power
power n = record {
  phy_attack = n;
  phy_defence = n;
  magic_attack = n;
  magic_defence = n;
  parry_rate = n;
  counterattack_rate = n;
  hit_rate = n;
  jink_rate = n;
  crit_rate = n;
  speed = n;
}

power-IsWord : (n : ℕ) → n < 2 ^ 32 → IsWord (power n)
power-IsWord n h = record {
  phy_attack = h;
  phy_defence = h;
  magic_attack = h;
  magic_defence = h;
  parry_rate = h;
  counterattack_rate = h;
  hit_rate = h;
  jink_rate = h;
  crit_rate = h;
  speed = h;
}

abbrev no_buff : BuffData
no_buff = record { id = 0; continue_time = 0 }

abbrev buff : BuffData
buff = record { id = 5; continue_time = 0 }

-- The values are near the end of their range.
abbrev fighter : OneRole
fighter = record {
  profession = 1;
  strength = 1;
  brain = 1;
  charm = 1;
  agile = 1;
  exp = 0;
  exp_levelup = 10;
  attr = record {
    name = 65 ∷ 0 ∷ [];
    hp_cur = 7;
    hp_max = 9;
    level = 3;
    power = power 4294967290;
    buff = record { mem = buff ∷ replicate 15 no_buff; nmemb = 1 };
  };
  skill = record { mem = 11 ∷ 12 ∷ replicate 126 0; nmemb = 2 };
}

abbrev attributes : CfgAttribute
attributes = record { hp = 100; strength = 4; brain = 5; charm = 6; agile = 7; power = power 8 }

abbrev skill_table : ℕ → Option CfgSkill
skill_table id = some (record { attribute = id })

abbrev attribute_table : ℕ → Option CfgAttribute
attribute_table id = some attributes

abbrev player_table : ℕ → ℕ → Option CfgPlayer
player_table profession lv = some (record { exp = 10; attribute = 1 })

fighter-HasBuffs : HasBuffs fighter
fighter-HasBuffs = record { sorted = record { sorted = tt; fits = omega arith }; size = refl }

fighter-HasSkills : HasSkills fighter
fighter-HasSkills = record {
  sorted = record { sorted = (omega arith, tt); fits = omega arith };
  size = refl;
}

add_buff-Buffed_example :
    Buffed (some attributes) fighter 0 9 (add_buff skill_table attribute_table fighter 0 9)
add_buff-Buffed_example = add_buff-Buffed fighter 0 9 fighter-HasBuffs skill_table attribute_table

-- The fighter with the second buff: the ten values have wrapped around.
abbrev buffed : OneRole
buffed = record fighter {
  attr = record fighter.attr {
    power = power 2;
    buff = record {
      mem = buff ∷ record { id = 9; continue_time = 0 } ∷ replicate 14 no_buff;
      nmemb = 2;
    };
  };
}

remove_buff-add_buff_example : Restored fighter (remove_buff skill_table attribute_table buffed 0 9)
unfolding add_buff comp_role_buff array_insert array_bsearch bsearch_loop insert_found make_room
remove_buff-add_buff_example =
    remove_buff-add_buff fighter 0 0 9 1 attributes buffed (power-IsWord 4294967290 (omega arith))
      (power-IsWord 8 (omega arith)) skill_table attribute_table fighter-HasBuffs refl refl
