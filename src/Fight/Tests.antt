-- ===== src/Fight/Tests.antt =====
-- A fight of two figures, and the theorems applied to it.
use txgg.Base.{
  add32, ◌<◌, ◌≤◌, if◌then◌else◌, Bool, ℕ, zero, suc, ◌-◌, ◌^◌, ◌≡◌, refl, Bool, true, false,
  Option, none, some, List, [], ◌∷◌, map, arith, length, ltb,
}
use txgg.OneRole.{Attribute}
use txgg.Fight.{Odds, Draw, RoundData, FightNotify, attr_id_hp_cur, is_dead, count_fight_result}
use txgg.Fight.Outcome.{Alive, Decides, count_fight_result-Decides}
use txgg.Fight.Replay.{replay, alternate, count_fight_result_replayed}

-- Draws of more than 50 hit, and only they; the figure with the high rate hits back.
abbrev plain_odds : Odds
plain_odds = record {
  count_hurt = λ rand attack defence. attack;
  check_can_hit = λ rand hit jink level. ltb 50 rand;
  check_can_parry = λ rand rate level. false;
  check_can_counterattack = λ rand rate level. ltb 50 rate;
  check_can_crit = λ rand rate level. false;
}

abbrev figure : ℕ → ℕ → ℕ → ℕ → Attribute
figure hp attack counterattack speed = record {
  name = [];
  hp_cur = hp;
  hp_max = hp;
  level = 1;
  power = record {
    phy_attack = attack;
    phy_defence = 0;
    magic_attack = 0;
    magic_defence = 0;
    parry_rate = 0;
    counterattack_rate = counterattack;
    hit_rate = 0;
    jink_rate = 0;
    crit_rate = 0;
    speed = speed;
  };
  buff = record { mem = []; nmemb = 0 };
}

-- The second attack misses.
abbrev draws : ℕ → Draw
draws i = record { hit = if_one i; hurt = 0; parry = 0; crit = 0; counterattack = 0; hurt_back = 0 }
  where
    if_one : ℕ → ℕ
    if_one zero = 60
    if_one (suc zero) = 10
    if_one (suc (suc n)) = 60

abbrev knight : Attribute
knight = figure 20 7 0 9

abbrev rogue : Attribute
rogue = figure 12 8 60 5

-- What is said of the two: whether the left one has won, in how many rounds, and the hit points.
summary : Option FightNotify × Attribute × Attribute → Option (ℕ × ℕ) × ℕ × ℕ
summary (none, a, b) = (none, a.hp_cur, b.hp_cur)
summary (some n, a, b) = (some (n.result, length n.round_data), a.hp_cur, b.hp_cur)

knight_wins :
    summary (count_fight_result plain_odds draws 3 4 knight rogue) ≡ (some (0, 3), 16, 2 ^ 32 - 2)
unfolding summary count_fight_result
knight_wins = refl

-- What the knight wins with, written out.
abbrev attack_of_knight : Bool → Bool → ℕ → List (ℕ × ℕ) → RoundData
attack_of_knight is_jink is_counterattack delta changes = record {
  left = true;
  is_jink = is_jink;
  is_parry = false;
  is_crit = false;
  is_counterattack = is_counterattack;
  counterattack_hp_delta = delta;
  lattr = [];
  rattr = changes;
}

abbrev missed : RoundData
missed = record (attack_of_knight true false 0 []) { left = false }

abbrev hit : List (ℕ × ℕ)
hit = (attr_id_hp_cur, 2 ^ 32 - 7) ∷ []

abbrev told : FightNotify
told = record {
  result = 0;
  round_data =
      attack_of_knight false true (2 ^ 32 - 4) hit
      ∷ missed
      ∷ attack_of_knight false false 0 hit
      ∷ [];
  left_cur_hp = 20;
  left_max_hp = 20;
  right_cur_hp = 12;
  right_max_hp = 12;
}

knight_fights :
    count_fight_result plain_odds draws 3 4 knight rogue
    ≡ (some told, record knight { hp_cur = 16 }, record rogue { hp_cur = 2 ^ 32 - 2 })
unfolding count_fight_result
knight_fights = refl

knight-Alive : Alive knight
unfolding is_dead
knight-Alive = refl

rogue-Alive : Alive rogue
unfolding is_dead
rogue-Alive = refl

count_fight_result-Decides_example : Decides (count_fight_result plain_odds draws 3 4 knight rogue)
count_fight_result-Decides_example =
    count_fight_result-Decides plain_odds draws 3 4 knight rogue knight-Alive rogue-Alive

count_fight_result_replayed_example :
    (replay told.round_data (20, 12) ≡ (16, 2 ^ 32 - 2))
    × ((left : Bool) × (map (λ r. r.left) told.round_data ≡ alternate 3 left)
        × (if left
            then add32 rogue.power.speed 4 < add32 knight.power.speed 3
            else add32 knight.power.speed 3 ≤ add32 rogue.power.speed 4))
count_fight_result_replayed_example =
    count_fight_result_replayed plain_odds draws 3 4 knight rogue (record knight { hp_cur = 16 })
      (record rogue { hp_cur = 2 ^ 32 - 2 }) told (omega arith) (omega arith) knight_fights
