-- ===== src/OneRole/Levels.antt =====
-- reset_exp_levelup, reset_one_role_attribute and fill_one_role_attr_changed of one_role.c: the
-- attributes that a level gives, and the list that tells the client.
use txgg.Base.{
  ℕ, ◌≡◌, ◌≢◌, refl, ap, ◌∙◌, ==_ne, Option, none, some, List, [], ◌∷◌, ◌==◌, if◌then◌else◌, get_or,
  Code, ok, err,
}
use txgg.OneRole.{OneRole, CfgAttribute, CfgPlayer}

-- ATTR__ID__
pub data AttrId : Type 0 where
  hp_max hp_cur phy_attack phy_defence magic_attack magic_defence parry_rate counterattack_rate :
      AttrId
  hit_rate jink_rate crit_rate speed level strength brain charm agile : AttrId

-- Its number in the protocol.
abbrev pub number : AttrId → ℕ
number hp_cur = 1
number hp_max = 2
number phy_attack = 3
number phy_defence = 4
number magic_attack = 5
number magic_defence = 6
number parry_rate = 7
number counterattack_rate = 8
number hit_rate = 9
number jink_rate = 10
number crit_rate = 11
number speed = 12
number level = 14
number strength = 17
number brain = 18
number charm = 19
number agile = 20

-- AttrChanged
pub record AttrChanged : Type 0 where
  pub friend_pos : ℕ
  pub id : AttrId
  pub new_value : ℕ

-- The assignments of reset_one_role_attribute.
unfoldable pub set_attributes : OneRole → CfgAttribute → OneRole
set_attributes r cfg = record r {
  strength = cfg.strength;
  brain = cfg.brain;
  charm = cfg.charm;
  agile = cfg.agile;
  attr = record r.attr { hp_max = cfg.hp; hp_cur = cfg.hp; power = cfg.power };
}

-- The tables by profession and level, and by id.
module _ (get_player_config : ℕ → ℕ → Option CfgPlayer) where
  -- reset_exp_levelup
  unfoldable pub reset_exp_levelup : OneRole → Code × OneRole
  reset_exp_levelup r = elim (get_player_config r.profession r.attr.level) [
    | none ↦ (err 1, record r { exp_levelup = 0xffff_ffff })
    | some config ↦ (ok 0, record r { exp_levelup = config.exp })
  ]

  module _ (get_attribute_config : ℕ → Option CfgAttribute) where
    -- reset_one_role_attribute
    unfoldable pub reset_one_role_attribute : OneRole → OneRole
    unfolding set_attributes
    reset_one_role_attribute r =
        if get_or r.attr.name 0 0 == 0
        then r
        else elim (get_player_config r.profession r.attr.level) [
          | none ↦ r
          | some role_cfg ↦ elim (get_attribute_config role_cfg.attribute) [
            | none ↦ r
            | some attr_cfg ↦ set_attributes r attr_cfg
          ]
        ]

-- fill_one_role_attr_changed
unfoldable pub fill_one_role_attr_changed : OneRole → ℕ → List AttrChanged
fill_one_role_attr_changed r pos =
    record { friend_pos = pos; id = hp_max; new_value = r.attr.hp_max }
    ∷ record { friend_pos = pos; id = hp_cur; new_value = r.attr.hp_cur }
    ∷ record { friend_pos = pos; id = phy_attack; new_value = r.attr.power.phy_attack }
    ∷ record { friend_pos = pos; id = phy_defence; new_value = r.attr.power.phy_defence }
    ∷ record { friend_pos = pos; id = magic_attack; new_value = r.attr.power.magic_attack }
    ∷ record { friend_pos = pos; id = magic_defence; new_value = r.attr.power.magic_defence }
    ∷ record { friend_pos = pos; id = parry_rate; new_value = r.attr.power.parry_rate }
    ∷ record {
      friend_pos = pos;
      id = counterattack_rate;
      new_value = r.attr.power.counterattack_rate;
    }
    ∷ record { friend_pos = pos; id = hit_rate; new_value = r.attr.power.hit_rate }
    ∷ record { friend_pos = pos; id = jink_rate; new_value = r.attr.power.jink_rate }
    ∷ record { friend_pos = pos; id = crit_rate; new_value = r.attr.power.crit_rate }
    ∷ record { friend_pos = pos; id = speed; new_value = r.attr.power.speed }
    ∷ record { friend_pos = pos; id = level; new_value = r.attr.level }
    ∷ record { friend_pos = pos; id = strength; new_value = r.strength }
    ∷ record { friend_pos = pos; id = brain; new_value = r.brain }
    ∷ record { friend_pos = pos; id = charm; new_value = r.charm }
    ∷ record { friend_pos = pos; id = agile; new_value = r.agile }
    ∷ []

-- What a client that replays the changes holds of each attribute: the last value of an id counts.
abbrev pub replay : List AttrChanged → (AttrId → ℕ) → AttrId → ℕ
replay [] known = known
replay (c ∷ cs) known = replay cs (λ i. if number c.id == number i then c.new_value else known i)

-- What a row of the table and a level give.
abbrev pub configured : CfgAttribute → ℕ → AttrId → ℕ
configured cfg lv hp_max = cfg.hp
configured cfg lv hp_cur = cfg.hp
configured cfg lv phy_attack = cfg.power.phy_attack
configured cfg lv phy_defence = cfg.power.phy_defence
configured cfg lv magic_attack = cfg.power.magic_attack
configured cfg lv magic_defence = cfg.power.magic_defence
configured cfg lv parry_rate = cfg.power.parry_rate
configured cfg lv counterattack_rate = cfg.power.counterattack_rate
configured cfg lv hit_rate = cfg.power.hit_rate
configured cfg lv jink_rate = cfg.power.jink_rate
configured cfg lv crit_rate = cfg.power.crit_rate
configured cfg lv speed = cfg.power.speed
configured cfg lv level = lv
configured cfg lv strength = cfg.strength
configured cfg lv brain = cfg.brain
configured cfg lv charm = cfg.charm
configured cfg lv agile = cfg.agile

filled :
    (r : OneRole) (pos : ℕ) (cfg : CfgAttribute) (known : AttrId → ℕ) (i : AttrId)
    → replay (fill_one_role_attr_changed (set_attributes r cfg) pos) known i
      ≡ configured cfg r.attr.level i
unfolding fill_one_role_attr_changed set_attributes
filled r pos cfg known hp_max = refl
filled r pos cfg known hp_cur = refl
filled r pos cfg known phy_attack = refl
filled r pos cfg known phy_defence = refl
filled r pos cfg known magic_attack = refl
filled r pos cfg known magic_defence = refl
filled r pos cfg known parry_rate = refl
filled r pos cfg known counterattack_rate = refl
filled r pos cfg known hit_rate = refl
filled r pos cfg known jink_rate = refl
filled r pos cfg known crit_rate = refl
filled r pos cfg known speed = refl
filled r pos cfg known level = refl
filled r pos cfg known strength = refl
filled r pos cfg known brain = refl
filled r pos cfg known charm = refl
filled r pos cfg known agile = refl

module _ (get_player_config : ℕ → ℕ → Option CfgPlayer) where
  module _ (get_attribute_config : ℕ → Option CfgAttribute) where
    module _ (r : OneRole) (row : CfgPlayer) (cfg : CfgAttribute) where
      reset_lem :
          get_or r.attr.name 0 0 ≢ 0
          → get_player_config r.profession r.attr.level ≡ some row
          → get_attribute_config row.attribute ≡ some cfg
          → reset_one_role_attribute get_player_config get_attribute_config r ≡ set_attributes r cfg
      unfolding reset_one_role_attribute
      reset_lem h e e' = rw (==_ne (get_or r.attr.name 0 0) 0 h, e, e') refl

      -- A client that replays the changes reported after reset_one_role_attribute holds, for every
      -- attribute and whatever it knew before, the value that the tables give a named fighter of this
      -- profession and level.
      pub replay-reset_one_role_attribute :
          (pos : ℕ) (known : AttrId → ℕ) (i : AttrId)
          → get_or r.attr.name 0 0 ≢ 0
          → get_player_config r.profession r.attr.level ≡ some row
          → get_attribute_config row.attribute ≡ some cfg
          → replay
              (fill_one_role_attr_changed
                (reset_one_role_attribute get_player_config get_attribute_config r)
                pos)
              known
              i
            ≡ configured cfg r.attr.level i
      replay-reset_one_role_attribute pos known i h e e' =
          ap (λ q. replay (fill_one_role_attr_changed q pos) known i) (reset_lem h e e')
          ∙ filled r pos cfg known i
