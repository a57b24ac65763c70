-- ===== src/OneRole.antt =====
-- server/game_srv/one_role.c and buff.c: the skills, the buffs and the attributes of one fighter, a
-- player's own figure, a pet or a monster. The ten attributes that a buff changes stand together in
-- `Power`. The rows of the loaded tables (config.c) are parameters, `none` where there is no row.
-- A result `none` of an operation is one of SortArray: an access outside of an array.
pub mod Skills
pub mod Buffs
pub mod Levels
pub mod Exp
mod Tests
use txgg.Base.{
  ℕ, Bool, true, false, Option, none, some, List, [], ◌∷◌, Ordering, ltb, leb, ◌==◌, if◌then◌else◌,
  ◌>>=◌, get_elem?, get_or, Code, ok, err, add32, sub32,
}
use txgg.SortArray.{Array, comp_uint, array_bsearch, array_insert, array_delete}

-- BUFF_DATA
pub record BuffData : Type 0 where
  pub id : ℕ
  pub continue_time : ℕ

pub record Power : Type 0 where
  pub phy_attack : ℕ
  pub phy_defence : ℕ
  pub magic_attack : ℕ
  pub magic_defence : ℕ
  pub parry_rate : ℕ
  pub counterattack_rate : ℕ
  pub hit_rate : ℕ
  pub jink_rate : ℕ
  pub crit_rate : ℕ
  pub speed : ℕ

-- ATTRIBUTE
pub record Attribute : Type 0 where
  pub name : List ℕ
  pub hp_cur : ℕ
  pub hp_max : ℕ
  pub level : ℕ
  pub power : Power
  pub buff : Array BuffData

-- ONE_ROLE
pub record OneRole : Type 0 where
  pub profession : ℕ
  pub strength : ℕ
  pub brain : ℕ
  pub charm : ℕ
  pub agile : ℕ
  pub exp : ℕ
  pub exp_levelup : ℕ
  pub attr : Attribute
  pub skill : Array ℕ

-- The columns that are read of CFGATTRIBUTE, CFGPLAYER and CFGSKILL.
pub record CfgAttribute : Type 0 where
  pub hp : ℕ
  pub strength : ℕ
  pub brain : ℕ
  pub charm : ℕ
  pub agile : ℕ
  pub power : Power

pub record CfgPlayer : Type 0 where
  pub exp : ℕ
  pub attribute : ℕ

pub record CfgSkill : Type 0 where
  pub attribute : ℕ

abbrev pub max_skill_per_role : ℕ
max_skill_per_role = 128

abbrev pub max_buff_per_role : ℕ
max_buff_per_role = 16

-- comp_role_buff
pub comp_role_buff : BuffData → BuffData → Ordering
comp_role_buff a b =
    if a.id == b.id then Ordering.eq else if ltb b.id a.id then Ordering.gt else Ordering.lt

-- search_one_role_skill
pub search_one_role_skill : OneRole → ℕ → Option Code
search_one_role_skill r id =
    array_bsearch comp_uint id r.skill.mem r.skill.nmemb >>= λ (find, index).
    some (if find then ok index else err 1)

-- The result of add_one_role_skill and delete_one_role_skill, from that of the array.
abbrev pub skill_result : OneRole → Code × Array ℕ → Code × OneRole
skill_result r (ok n, skill) = (ok 0, record r { skill = skill })
skill_result r (err n, skill) = (err 10, record r { skill = skill })

-- add_one_role_skill
pub add_one_role_skill : OneRole → ℕ → Option (Code × OneRole)
add_one_role_skill r id =
    if leb max_skill_per_role r.skill.nmemb
    then some (err 1, r)
    else (array_insert comp_uint id r.skill true >>= λ x. some (skill_result r x))

-- delete_one_role_skill
pub delete_one_role_skill : OneRole → ℕ → Option (Code × OneRole)
delete_one_role_skill r id = array_delete comp_uint id r.skill >>= λ x. some (skill_result r x)

abbrev pub set_buff : OneRole → Array BuffData → OneRole
set_buff r buff = record r { attr = record r.attr { buff = buff } }

abbrev pub set_power : OneRole → Power → OneRole
set_power r power = record r { attr = record r.attr { power = power } }

-- add_one_role_buff
pub add_one_role_buff : OneRole → BuffData → Option (Code × OneRole)
add_one_role_buff r buff_data =
    if leb max_buff_per_role r.attr.buff.nmemb
    then some (err 1, r)
    else (array_insert comp_role_buff buff_data r.attr.buff true >>= λ (code, buff).
        some (code, set_buff r buff))

-- remove_one_role_buff; the other field of its `data` is not set.
pub remove_one_role_buff : OneRole → ℕ → ℕ → Option (Code × OneRole)
remove_one_role_buff r unset id =
    array_delete comp_role_buff (record { id = id; continue_time = unset }) r.attr.buff
    >>= λ (code, buff). some (code, set_buff r buff)

-- get_one_role_buff
pub get_one_role_buff : OneRole → ℕ → ℕ → Option (Option BuffData)
get_one_role_buff r unset id =
    array_bsearch comp_role_buff (record { id = id; continue_time = unset }) r.attr.buff.mem
      r.attr.buff.nmemb
    >>= λ (find, index). some (if find then get_elem? r.attr.buff.mem index else none)

-- The ten additions of add_buff, and the ten subtractions of remove_buff.
pub add_power : Power → Power → Power
add_power p c = record {
  phy_attack = add32 p.phy_attack c.phy_attack;
  phy_defence = add32 p.phy_defence c.phy_defence;
  magic_attack = add32 p.magic_attack c.magic_attack;
  magic_defence = add32 p.magic_defence c.magic_defence;
  parry_rate = add32 p.parry_rate c.parry_rate;
  counterattack_rate = add32 p.counterattack_rate c.counterattack_rate;
  hit_rate = add32 p.hit_rate c.hit_rate;
  jink_rate = add32 p.jink_rate c.jink_rate;
  crit_rate = add32 p.crit_rate c.crit_rate;
  speed = add32 p.speed c.speed;
}

pub sub_power : Power → Power → Power
sub_power p c = record {
  phy_attack = sub32 p.phy_attack c.phy_attack;
  phy_defence = sub32 p.phy_defence c.phy_defence;
  magic_attack = sub32 p.magic_attack c.magic_attack;
  magic_defence = sub32 p.magic_defence c.magic_defence;
  parry_rate = sub32 p.parry_rate c.parry_rate;
  counterattack_rate = sub32 p.counterattack_rate c.counterattack_rate;
  hit_rate = sub32 p.hit_rate c.hit_rate;
  jink_rate = sub32 p.jink_rate c.jink_rate;
  crit_rate = sub32 p.crit_rate c.crit_rate;
  speed = sub32 p.speed c.speed;
}

module _ (get_skill_config : ℕ → Option CfgSkill)
    (get_attribute_config : ℕ → Option CfgAttribute) where
  abbrev pub buff_config : ℕ → Option CfgAttribute
  buff_config id = get_skill_config id >>= λ config. get_attribute_config config.attribute

  -- add_buff of buff.c; the other field of its `data` is not set.
  pub add_buff : OneRole → ℕ → ℕ → Option (Code × OneRole)
  unfolding add_power add_one_role_buff
  add_buff r unset id = elim (buff_config id) [
    | none ↦ some (err 1, r)
    | some cfg_attr ↦
        add_one_role_buff (set_power r (add_power r.attr.power cfg_attr.power))
          (record { id = id; continue_time = unset })
  ]

  -- remove_buff of buff.c
  pub remove_buff : OneRole → ℕ → ℕ → Option (Code × OneRole)
  unfolding sub_power remove_one_role_buff
  remove_buff r unset id = elim (buff_config id) [
    | none ↦ some (err 1, r)
    | some cfg_attr ↦
        remove_one_role_buff (set_power r (sub_power r.attr.power cfg_attr.power)) unset id
  ]
