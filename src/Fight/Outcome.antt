-- ===== src/Fight/Outcome.antt =====
-- How a fight ends.
use txgg.Base.{
  ℕ, zero, suc, ◌≤◌, ◌≡◌, ◌⊎◌, inl, inr, refl, ap, Bool, true, false, not, Bool-cases, Option, none,
  some, List, [], ◌∷◌, ◌/◌, ◌%◌, u32_mod, arith, ◌==◌, length, if◌then◌else◌,
}
use txgg.OneRole.{Attribute}
use txgg.Fight.{
  Odds, Draw, RoundData, FightNotify, is_dead, lose_hp, hit_hurt, strike_back, count_round_result,
  init_round, turn, turns, count_fight_result, check_left_first, max_round_per_fight, left_win,
  right_win,
}

abbrev pub Alive : Attribute → Type 0
Alive a = is_dead a.hp_cur ≡ false

abbrev pub Fallen : Attribute → Type 0
Fallen a = is_dead a.hp_cur ≡ true

-- Both stand, or one of them has fallen.
data Standing (a b : Attribute) : Bool → Type 0 where
  both : Alive a → Alive b → Standing a b true
  first : Alive a → Fallen b → Standing a b false
  second : Fallen a → Alive b → Standing a b false

-- After a turn in which the two stood before.
pub Stands : ℕ × Attribute × Attribute × RoundData → Type 0
Stands (ret, a, b, round) = Standing a b (ret == 0)

struck_back :
    (odds : Odds) (draw : Draw) (a b : Attribute) (round : RoundData)
    → Alive a
    → Alive b
    → Stands (strike_back odds draw a b round)
unfolding strike_back Stands
struck_back odds draw a b round la lb =
    elim (Bool-cases
      (odds.check_can_counterattack draw.counterattack b.power.counterattack_rate a.level)) [
        | inl e ↦ rw e (elim (Bool-cases (is_dead a'.hp_cur)) [
          | inl d ↦ rw d (second d lb)
          | inr d ↦ rw d (both d lb)
        ])
        | inr e ↦ rw e (both la lb)
      ]
  where
    a' : Attribute
    a' =
        lose_hp
          (odds.count_hurt draw.hurt_back b.power.phy_attack a.power.phy_defence % u32_mod / 2) a

struck :
    (odds : Odds) (draw : Draw) (a b : Attribute) (round : RoundData)
    → Alive a
    → Alive b
    → Stands (count_round_result odds draw a b round)
unfolding count_round_result Stands
struck odds draw a b round la lb =
    elim (Bool-cases (odds.check_can_hit draw.hit a.power.hit_rate b.power.jink_rate b.level)) [
      | inl e ↦ rw e (elim (Bool-cases (is_dead b'.hp_cur)) [
        | inl d ↦ rw d (first la d)
        | inr d ↦ rw d (struck_back odds draw a b' _ la d)
      ])
      | inr e ↦ rw e (both la lb)
    ]
  where
    b' : Attribute
    b' =
        lose_hp
          (hit_hurt odds draw a b (odds.check_can_parry draw.parry b.power.parry_rate a.level)
            (odds.check_can_crit draw.crit a.power.crit_rate b.level))
          b

swap : {a b : Attribute} {s : Bool} → Standing a b s → Standing b a s
swap (both la lb) = both lb la
swap (first la d) = second d la
swap (second d lb) = first lb d

turn-Stands :
    (odds : Odds) (draw : Draw) (left : Bool) (a b : Attribute)
    → Alive a
    → Alive b
    → Stands (turn odds draw left a b)
unfolding turn Stands
turn-Stands odds draw true a b la lb = struck odds draw a b (init_round true) la lb
turn-Stands odds draw false a b la lb = swap (struck odds draw b a (init_round false) lb la)

-- How the turns end of which `n` may follow: undecided after all of them, with both standing, or
-- with one that has fallen.
pub Ended : ℕ → Bool × List RoundData × Attribute × Attribute → Type 0
Ended n (decided, rounds, a, b) =
    Standing a b (not decided) × (length rounds ≤ n) × ((decided ≡ true) ⊎ (length rounds ≡ n))

next_turn :
    (n : ℕ) (stood : Bool) (a b : Attribute) (round : RoundData)
    (rest : Bool × List RoundData × Attribute × Attribute)
    → Standing a b stood
    → (Alive a → Alive b → Ended n rest)
    → Ended (suc n) (elim stood [
      | false ↦ (true, round ∷ [], a, b)
      | true ↦ (rest.0, round ∷ rest.1, rest.2, rest.3)
    ])
unfolding Ended
next_turn n _ a b round rest (both la lb) ended =
    let (s, le, full) = ended la lb in
    (s, omega (arith, le), elim full [ inl d ↦ inl d | inr e ↦ inr (ap suc e) ])
next_turn n _ a b round rest (first la d) ended = (first la d, omega arith, inl refl)
next_turn n _ a b round rest (second d lb) ended = (second d lb, omega arith, inl refl)

turns-Ended :
    (odds : Odds) (draws : ℕ → Draw) (n i : ℕ) (left : Bool) (a b : Attribute)
    → Alive a
    → Alive b
    → Ended n (turns odds draws n i left a b)
unfolding turns Ended Stands
turns-Ended odds draws zero i left a b la lb = (both la lb, omega arith, inr refl)
turns-Ended odds draws (suc n) i left a b la lb =
    let (ret, a', b', round) = turn odds (draws i) left a b in
    next_turn n (ret == 0) a' b' round (turns odds draws n (suc i) (not left) a' b')
      (turn-Stands odds (draws i) left a b la lb)
      (λ la' lb'. turns-Ended odds draws n (suc i) (not left) a' b' la' lb')

-- What count_fight_result says, and how the two figures are then.
pub Decides : Option FightNotify × Attribute × Attribute → Type 0
Decides (none, a, b) = Alive a × Alive b
Decides (some n, a, b) =
    (length n.round_data ≤ max_round_per_fight)
    × (((n.result ≡ left_win) × Alive a × Fallen b) ⊎ ((n.result ≡ right_win) × Fallen a × Alive b))

told :
    (a b : Attribute) (t : Bool × List RoundData × Attribute × Attribute)
    → Ended max_round_per_fight t
    → Decides (
        let notify : FightNotify = record {
          result = if is_dead t.2.hp_cur then right_win else left_win;
          round_data = t.1;
          left_cur_hp = a.hp_cur;
          left_max_hp = a.hp_max;
          right_cur_hp = b.hp_cur;
          right_max_hp = b.hp_max;
        } in
        (if t.0 then some notify else none, t.2, t.3))
unfolding Decides Ended
told a b (false, rounds, a', b') (both la lb, le, full) = (la, lb)
told a b (true, rounds, a', b') (first la d, le, full) = rw la (le, inl (refl, refl, d))
told a b (true, rounds, a', b') (second d lb, le, full) = rw d (le, inr (refl, refl, lb))

-- count_fight_result for two figures with hit points, whatever is drawn and whatever the odds are:
-- it ends after 1280 rounds at most. A draw means that both still have hit points; otherwise exactly
-- one of them has none, and the result names the other as the winner.
pub count_fight_result-Decides :
    (odds : Odds) (draws : ℕ → Draw) (rand_left rand_right : ℕ) (a b : Attribute)
    → Alive a
    → Alive b
    → Decides (count_fight_result odds draws rand_left rand_right a b)
unfolding count_fight_result
count_fight_result-Decides odds draws rand_left rand_right a b la lb = told a b _ (
    turns-Ended odds draws max_round_per_fight 0 (check_left_first rand_left rand_right a b) a b la
      lb)
