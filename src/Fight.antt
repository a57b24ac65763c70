-- ===== src/Fight.antt =====
-- server/game_srv/fight.c: a fight of two figures, which hit each other in turns until one of them
-- falls. What the code computes with floating point numbers, the hurt and the odds, is `Odds`; each
-- is given the number that get_rand_between draws. The rates are divided by a level there, so levels
-- of 0 are left out. A signed value is its bit pattern.
pub mod Outcome
pub mod Rounds
pub mod Replay
mod Tests
use txgg.Base.{
  ℕ, zero, suc, ◌/◌, ◌*◌, ◌%◌, ◌^◌, Bool, true, false, not, ◌||◌, Option, none, some, List, [], ◌∷◌,
  ◌++◌, ltb, leb, ◌==◌, if◌then◌else◌, ◌>>=◌, add32, sub32, u32_mod,
}
use txgg.OneRole.{BuffData, Attribute, OneRole, CfgAttribute}
use txgg.SortArray.{Array}

-- MAX_ROUND_PER_FIGHT
abbrev pub max_round_per_fight : ℕ
max_round_per_fight = 1280

-- ATTR__ID__HP_CUR
abbrev pub attr_id_hp_cur : ℕ
attr_id_hp_cur = 1

-- CS__FIGHT__RESULT__LEFT_WIN and CS__FIGHT__RESULT__RIGHT_WIN
abbrev pub left_win : ℕ
left_win = 0

abbrev pub right_win : ℕ
right_win = 1

-- count_hurt, check_can_hit, check_can_parry, check_can_counterattack and check_can_crit.
pub record Odds : Type 0 where
  pub count_hurt : ℕ → ℕ → ℕ → ℕ
  pub check_can_hit : ℕ → ℕ → ℕ → ℕ → Bool
  pub check_can_parry : ℕ → ℕ → ℕ → Bool
  pub check_can_counterattack : ℕ → ℕ → ℕ → Bool
  pub check_can_crit : ℕ → ℕ → ℕ → Bool

-- The numbers drawn in one round.
pub record Draw : Type 0 where
  pub hit : ℕ
  pub hurt : ℕ
  pub parry : ℕ
  pub crit : ℕ
  pub counterattack : ℕ
  pub hurt_back : ℕ

-- The fields of RoundData that fight.c sets; an attribute that changes is its id and the difference.
pub record RoundData : Type 0 where
  pub left : Bool
  pub is_jink : Bool
  pub is_parry : Bool
  pub is_crit : Bool
  pub is_counterattack : Bool
  pub counterattack_hp_delta : ℕ
  pub lattr : List (ℕ × ℕ)
  pub rattr : List (ℕ × ℕ)

-- FightNotify with the two RivalData
pub record FightNotify : Type 0 where
  pub result : ℕ
  pub round_data : List RoundData
  pub left_cur_hp : ℕ
  pub left_max_hp : ℕ
  pub right_cur_hp : ℕ
  pub right_max_hp : ℕ

-- init_round, and whose turn it is.
pub init_round : Bool → RoundData
init_round left = record {
  left = left;
  is_jink = false;
  is_parry = false;
  is_crit = false;
  is_counterattack = false;
  counterattack_hp_delta = 0;
  lattr = [];
  rattr = [];
}

-- check_left_first
pub check_left_first : ℕ → ℕ → Attribute → Attribute → Bool
check_left_first rand_left rand_right a b =
    ltb (add32 b.power.speed rand_right) (add32 a.power.speed rand_left)

-- hp_cur <= 0
unfoldable pub is_dead : ℕ → Bool
is_dead hp = (hp == 0) || leb (2 ^ 31) hp

unfoldable pub lose_hp : ℕ → Attribute → Attribute
lose_hp hurt a = record a { hp_cur = sub32 a.hp_cur hurt }

-- The hurt of a hit: a parry divides it by 20, a critical hit doubles it.
unfoldable pub hit_hurt : Odds → Draw → Attribute → Attribute → Bool → Bool → ℕ
hit_hurt odds draw a b is_parry is_crit =
    let hurt = odds.count_hurt draw.hurt a.power.phy_attack b.power.phy_defence % u32_mod in
    let hurt1 = if is_parry then hurt / 20 else hurt in
    if is_crit then hurt1 * 2 % u32_mod else hurt1

-- The end of count_round_result: b may hit back.
unfoldable pub strike_back :
    Odds → Draw → Attribute → Attribute → RoundData → ℕ × Attribute × Attribute × RoundData
unfolding is_dead lose_hp
strike_back odds draw a b round =
    let hurt =
      odds.count_hurt draw.hurt_back b.power.phy_attack a.power.phy_defence % u32_mod / 2 in
    let a' = lose_hp hurt a in
    if odds.check_can_counterattack draw.counterattack b.power.counterattack_rate a.level
    then (
      if is_dead a'.hp_cur then 2 else 0,
      a',
      b,
      record round { is_counterattack = true; counterattack_hp_delta = sub32 0 hurt },
    )
    else (0, a, b, round)

-- count_round_result: what it returns, the two figures and the round.
pub count_round_result :
    Odds → Draw → Attribute → Attribute → RoundData → ℕ × Attribute × Attribute × RoundData
unfolding is_dead lose_hp hit_hurt strike_back
count_round_result odds draw a b round =
    let is_parry = odds.check_can_parry draw.parry b.power.parry_rate a.level in
    let is_crit = odds.check_can_crit draw.crit a.power.crit_rate b.level in
    let hurt = hit_hurt odds draw a b is_parry is_crit in
    let change = (attr_id_hp_cur, sub32 0 hurt) ∷ [] in
    let b' = lose_hp hurt b in
    let round' = record round {
      is_parry = is_parry;
      is_crit = is_crit;
      lattr = if round.left then round.lattr else round.lattr ++ change;
      rattr = if round.left then round.rattr ++ change else round.rattr;
    } in
    if not (odds.check_can_hit draw.hit a.power.hit_rate b.power.jink_rate b.level)
    then (0, a, b, record round { is_jink = true })
    else if is_dead b'.hp_cur
    then (1, a, b', round')
    else strike_back odds draw a b' round'

-- One turn: the figure on the left, or the one on the right, attacks.
unfoldable pub turn :
    Odds → Draw → Bool → Attribute → Attribute → ℕ × Attribute × Attribute × RoundData
unfolding count_round_result init_round
turn odds draw true a b = count_round_result odds draw a b (init_round true)
turn odds draw false a b =
    let (ret, b', a', round) = count_round_result odds draw b a (init_round false) in
    (ret, a', b', round)

-- The turns of count_fight_result, with the number of those that may follow: whether the fight was
-- decided, the rounds and the figures.
unfoldable pub turns :
    Odds
    → (ℕ → Draw)
    → ℕ
    → ℕ
    → Bool
    → Attribute
    → Attribute
    → Bool × List RoundData × Attribute × Attribute
unfolding turn
turns odds draws zero i left a b = (false, [], a, b)
turns odds draws (suc n) i left a b =
    let (ret, a', b', round) = turn odds (draws i) left a b in
    elim (ret == 0) [
      | false ↦ (true, round ∷ [], a', b')
      | true ↦
          let (decided, rounds, a'', b'') = turns odds draws n (suc i) (not left) a' b' in
          (decided, round ∷ rounds, a'', b'')
    ]

-- count_fight_result: the notification, `none` for a draw, and the figures.
pub count_fight_result :
    Odds → (ℕ → Draw) → ℕ → ℕ → Attribute → Attribute → Option FightNotify × Attribute × Attribute
unfolding turns check_left_first is_dead
count_fight_result odds draws rand_left rand_right a b =
    let left = check_left_first rand_left rand_right a b in
    let (decided, rounds, a', b') = turns odds draws max_round_per_fight 0 left a b in
    let notify : FightNotify = record {
      result = if is_dead a'.hp_cur then right_win else left_win;
      round_data = rounds;
      left_cur_hp = a.hp_cur;
      left_max_hp = a.hp_max;
      right_cur_hp = b.hp_cur;
      right_max_hp = b.hp_max;
    } in
    (if decided then some notify else none, a', b')

-- The columns that are read of CFGNPC.
pub record CfgNpc : Type 0 where
  pub name : List ℕ
  pub level : ℕ
  pub attr : ℕ

-- The figure of a monster.
unfoldable pub npc_attribute : CfgNpc → CfgAttribute → Attribute
npc_attribute npc attr = record {
  name = npc.name;
  hp_cur = attr.hp;
  hp_max = attr.hp;
  level = npc.level;
  power = attr.power;
  buff = record { mem = []; nmemb = 0 };
}

-- test_fight for the first figure of a role; `monster` is the monster that the row of `param` names.
-- `none` is the read of a row that is missing, of the attributes of a monster.
pub test_fight :
    Odds
    → (ℕ → Draw)
    → ℕ
    → ℕ
    → Option ℕ
    → (ℕ → Option CfgNpc)
    → (ℕ → Option CfgAttribute)
    → OneRole
    → Option (Option FightNotify × OneRole)
unfolding count_fight_result npc_attribute
test_fight odds draws rand_left rand_right monster npcs attributes r = elim (monster >>= npcs) [
  | none ↦ some (none, r)
  | some npc ↦ attributes npc.attr >>= λ attr.
      let (notify, a, b) =
        count_fight_result odds draws rand_left rand_right r.attr (npc_attribute npc attr) in
      some (notify, record r { attr = record a { hp_cur = a.hp_max } })
]
