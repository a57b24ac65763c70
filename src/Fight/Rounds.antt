-- ===== src/Fight/Rounds.antt =====
-- What one round puts down, and what a client makes of it.
use txgg.Base.{
  ℕ, ◌<◌, ◌≡◌, refl, ap, ◌∙◌, sym, subst, Bool, true, false, Bool-cases, List, [], ◌∷◌, arith, ◌==◌,
  if◌then◌else◌, inl, inr, add32, sub32, u32_mod,
}
use txgg.OneRole.{Attribute}
use txgg.Fight.{
  Odds, Draw, RoundData, attr_id_hp_cur, is_dead, lose_hp, hit_hurt, strike_back,
  count_round_result, init_round, turn,
}

-- Hit points after the changes of a round.
pub add_changes : List (ℕ × ℕ) → ℕ → ℕ
add_changes [] hp = hp
add_changes ((id, value) ∷ cs) hp =
    add_changes cs (if id == attr_id_hp_cur then add32 hp value else hp)

-- The hit points of the left and the right figure after a round.
pub replay_round : RoundData → ℕ × ℕ → ℕ × ℕ
unfolding add_changes
replay_round r (left, right) =
    if r.left
    then (add32 (add_changes r.lattr left) r.counterattack_hp_delta, add_changes r.rattr right)
    else (add_changes r.lattr left, add32 (add_changes r.rattr right) r.counterattack_hp_delta)

add-negated : (hp n : ℕ) → hp < u32_mod → n < u32_mod → sub32 hp n ≡ add32 hp (sub32 0 n)
add-negated hp n small small' = omega arith

-- What the end of a round has put down, of a figure that hits back.
StruckBack : Attribute → Attribute → RoundData → ℕ × Attribute × Attribute × RoundData → Type 0
StruckBack a b round (ret, a', b', r) =
    (b' ≡ b)
    × (r.left ≡ round.left)
    × (r.lattr ≡ round.lattr)
    × (r.rattr ≡ round.rattr)
    × (a'.hp_cur ≡ add32 a.hp_cur r.counterattack_hp_delta)

back :
    (odds : Odds) (draw : Draw) (a b : Attribute) (round : RoundData)
    → a.hp_cur < u32_mod
    → round.counterattack_hp_delta ≡ 0
    → StruckBack a b round (strike_back odds draw a b round)
unfolding strike_back StruckBack lose_hp
back odds draw a b round small z =
    elim (Bool-cases
      (odds.check_can_counterattack draw.counterattack b.power.counterattack_rate a.level)) [
        | inl e ↦ rw e (refl, refl, refl, refl, add-negated a.hp_cur _ small (omega arith))
        | inr e ↦ rw e (refl, refl, refl, refl, rw z (omega (arith, small)))
      ]

-- The changes of the attacker and of the figure that is attacked.
own : Bool → RoundData → List (ℕ × ℕ)
own left r = if left then r.lattr else r.rattr

other : Bool → RoundData → List (ℕ × ℕ)
other left r = if left then r.rattr else r.lattr

Records : Bool → Attribute → Attribute → ℕ × Attribute × Attribute × RoundData → Type 0
Records left a b (ret, a', b', r) =
    (r.left ≡ left)
    × (own left r ≡ [])
    × (b'.hp_cur < u32_mod)
    × (a'.hp_cur ≡ add32 a.hp_cur r.counterattack_hp_delta)
    × (b'.hp_cur ≡ add_changes (other left r) b.hp_cur)

hit_small :
    (odds : Odds) (draw : Draw) (a b : Attribute) (is_parry is_crit : Bool)
    → hit_hurt odds draw a b is_parry is_crit < u32_mod
unfolding hit_hurt
hit_small odds draw a b true true = omega arith
hit_small odds draw a b true false = omega arith
hit_small odds draw a b false true = omega arith
hit_small odds draw a b false false = omega arith

nothing_added : (hp : ℕ) → hp < u32_mod → hp ≡ add32 hp 0
nothing_added hp small = omega arith

-- A hit of `hurt`, and what comes after it.
Hit : Bool → ℕ → Attribute → Attribute → RoundData → Type 0
Hit left hurt a b r =
    (r.left ≡ left)
    × (own left r ≡ [])
    × (other left r ≡ (attr_id_hp_cur, sub32 0 hurt) ∷ [])
    × (r.counterattack_hp_delta ≡ 0)

fell :
    (left : Bool) (hurt ret : ℕ) (a b : Attribute) (r : RoundData)
    → a.hp_cur < u32_mod
    → b.hp_cur < u32_mod
    → hurt < u32_mod
    → Hit left hurt a b r
    → Records left a b (ret, a, lose_hp hurt b, r)
unfolding Records lose_hp Hit add_changes
fell left hurt ret a b r sa sb sh (l, o, c, z) = (
  l,
  o,
  omega (arith, sb, sh),
  rw z (nothing_added a.hp_cur sa),
  rw c (add-negated b.hp_cur hurt sb sh),
)

own-same :
    (left : Bool) (r r' : RoundData)
    → r'.lattr ≡ r.lattr
    → r'.rattr ≡ r.rattr
    → (own left r' ≡ own left r) × (other left r' ≡ other left r)
unfolding own other
own-same true r r' l k = (l, k)
own-same false r r' l k = (k, l)

went_on :
    (left : Bool) (hurt : ℕ) (a b : Attribute) (r : RoundData)
    (t : ℕ × Attribute × Attribute × RoundData)
    → a.hp_cur < u32_mod
    → b.hp_cur < u32_mod
    → hurt < u32_mod
    → Hit left hurt a b r
    → StruckBack a (lose_hp hurt b) r t
    → Records left a b t
unfolding Records Hit StruckBack
went_on left hurt a b r (ret, a', b', r') sa sb sh h (same, l', lc, rc, hp) =
    let (l, o, small, _, e) = fell left hurt ret a b r sa sb sh h in
    let (o', c') = own-same left r r' lc rc in
    (
      l' ∙ l,
      o' ∙ o,
      subst (λ x. x.hp_cur < u32_mod) (sym same) small,
      hp,
      ap (λ x. x.hp_cur) same ∙ e ∙ ap (λ c. add_changes c b.hp_cur) (sym c'),
    )

recorded :
    (odds : Odds) (draw : Draw) (left : Bool) (a b : Attribute)
    → a.hp_cur < u32_mod
    → b.hp_cur < u32_mod
    → Records left a b (count_round_result odds draw a b (init_round left))
unfolding count_round_result Hit own other init_round Records add_changes
recorded odds draw left a b sa sb =
    elim (Bool-cases (odds.check_can_hit draw.hit a.power.hit_rate b.power.jink_rate b.level)) [
      | inl e ↦ rw e (elim (Bool-cases (is_dead (lose_hp hurt b).hp_cur)) [
        | inl d ↦
            rw d
              (fell left hurt 1 a b (written left) sa sb (hit_small odds draw a b _ _) (hit left))
        | inr d ↦ rw d (
            went_on left hurt a b (written left) _ sa sb (hit_small odds draw a b _ _) (hit left)
              (back odds draw a _ _ sa refl))
      ])
      | inr e ↦ rw e (jinked left)
    ]
  where
    hurt : ℕ
    hurt =
        hit_hurt odds draw a b (odds.check_can_parry draw.parry b.power.parry_rate a.level)
          (odds.check_can_crit draw.crit a.power.crit_rate b.level)

    change : List (ℕ × ℕ)
    change = (attr_id_hp_cur, sub32 0 hurt) ∷ []

    written : Bool → RoundData
    written l = record (init_round l) {
      is_parry = odds.check_can_parry draw.parry b.power.parry_rate a.level;
      is_crit = odds.check_can_crit draw.crit a.power.crit_rate b.level;
      lattr = if l then [] else change;
      rattr = if l then change else [];
    }

    hit : (l : Bool) → Hit l hurt a b (written l)
    hit true = (refl, refl, refl, refl)
    hit false = (refl, refl, refl, refl)

    jinked : (l : Bool) → Records l a b (0, a, b, record (init_round l) { is_jink = true })
    jinked true = (refl, refl, sb, nothing_added a.hp_cur sa, refl)
    jinked false = (refl, refl, sb, nothing_added a.hp_cur sa, refl)

-- The hit points after a turn, of the figure on the left and of the one on the right.
abbrev pub Retold : Bool → ℕ × ℕ → ℕ × Attribute × Attribute × RoundData → Type 0
Retold left hps (ret, a', b', r) =
    (r.left ≡ left)
    × (a'.hp_cur < u32_mod)
    × (b'.hp_cur < u32_mod)
    × (replay_round r hps ≡ (a'.hp_cur, b'.hp_cur))

pub turn-Retold :
    (odds : Odds) (draw : Draw) (left : Bool) (a b : Attribute)
    → a.hp_cur < u32_mod
    → b.hp_cur < u32_mod
    → Retold left (a.hp_cur, b.hp_cur) (turn odds draw left a b)
unfolding turn Records replay_round own other add_changes
turn-Retold odds draw true a b sa sb =
    let (l, o, small, ea, eb) = recorded odds draw true a b sa sb in
    (l, rw ea (omega arith), small, rw l (rw o (rw ea (rw eb refl))))
turn-Retold odds draw false a b sa sb =
    let (l, o, small, eb, ea) = recorded odds draw false b a sb sa in
    (l, small, rw eb (omega arith), rw l (rw o (rw ea (rw eb refl))))
