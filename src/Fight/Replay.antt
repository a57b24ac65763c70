-- ===== src/Fight/Replay.antt =====
-- What the notification of a fight tells: a client that plays the rounds again.
use txgg.Base.{
  ℕ, zero, suc, ◌<◌, ◌≤◌, arith, add32, if◌then◌else◌, ◌≡◌, refl, ap, ◌∙◌, subst, Bool, true, false,
  not, Bool-cases, Option, none, some, List, [], ◌∷◌, map, ◌==◌, length, inl, inr, u32_mod,
}
use txgg.OneRole.{Attribute}
use txgg.Fight.{
  Odds, Draw, RoundData, FightNotify, turn, turns, count_fight_result, check_left_first,
  max_round_per_fight,
}
use txgg.Fight.Rounds.{replay_round, turn-Retold}

pub replay : List RoundData → ℕ × ℕ → ℕ × ℕ
replay [] hps = hps
replay (r ∷ rs) hps = replay rs (replay_round r hps)

-- The sides take turns.
pub alternate : ℕ → Bool → List Bool
alternate zero left = []
alternate (suc n) left = left ∷ alternate n (not left)

-- The turns of a fight, retold.
pub Tells : Bool → ℕ × ℕ → Bool × List RoundData × Attribute × Attribute → Type 0
Tells left hps (decided, rounds, a', b') =
    (replay rounds hps ≡ (a'.hp_cur, b'.hp_cur))
    × (map (λ r. r.left) rounds ≡ alternate (length rounds) left)

next_round :
    (stood left : Bool) (hps : ℕ × ℕ) (a b : Attribute) (r : RoundData)
    (rest : Bool × List RoundData × Attribute × Attribute)
    → r.left ≡ left
    → replay_round r hps ≡ (a.hp_cur, b.hp_cur)
    → Tells (not left) (a.hp_cur, b.hp_cur) rest
    → Tells left hps
        (elim stood [ false ↦ (true, r ∷ [], a, b) | true ↦ (rest.0, r ∷ rest.1, rest.2, rest.3) ])
unfolding Tells replay alternate
next_round false left hps a b r rest l e t = (e, ap (λ x. x ∷ []) l)
next_round true left hps a b r rest l e (same, sides) =
    (ap (replay rest.1) e ∙ same, rw l (ap (λ xs. left ∷ xs) sides))

turns-Tells :
    (odds : Odds) (draws : ℕ → Draw) (n i : ℕ) (left : Bool) (a b : Attribute)
    → a.hp_cur < u32_mod
    → b.hp_cur < u32_mod
    → Tells left (a.hp_cur, b.hp_cur) (turns odds draws n i left a b)
unfolding turns Tells replay alternate
turns-Tells odds draws zero i left a b sa sb = (refl, refl)
turns-Tells odds draws (suc n) i left a b sa sb =
    let (ret, a', b', r) = turn odds (draws i) left a b in
    let (l, sa', sb', e) = turn-Retold odds (draws i) left a b sa sb in
    next_round (ret == 0) left (a.hp_cur, b.hp_cur) a' b' r
      (turns odds draws n (suc i) (not left) a' b') l e
      (turns-Tells odds draws n (suc i) (not left) a' b' sa' sb')

Says : Bool → Option FightNotify × Attribute × Attribute → Type 0
Says left (none, a, b) = left ≡ left
Says left (some n, a, b) =
    (replay n.round_data (n.left_cur_hp, n.right_cur_hp) ≡ (a.hp_cur, b.hp_cur))
    × (map (λ r. r.left) n.round_data ≡ alternate (length n.round_data) left)

said :
    (odds : Odds) (draws : ℕ → Draw) (rand_left rand_right : ℕ) (a b : Attribute)
    → a.hp_cur < u32_mod
    → b.hp_cur < u32_mod
    → Says
        (check_left_first rand_left rand_right a b)
        (count_fight_result odds draws rand_left rand_right a b)
unfolding count_fight_result Says Tells
said odds draws rand_left rand_right a b sa sb =
    let left = check_left_first rand_left rand_right a b in
    let t = turns odds draws max_round_per_fight 0 left a b in
    let e = turns-Tells odds draws max_round_per_fight 0 left a b sa sb in
    elim (Bool-cases t.0) [ inl d ↦ rw d e | inr d ↦ rw d refl ]

-- Whether the left side begins, given the two random numbers.
begins :
    (rand_left rand_right : ℕ) (a b : Attribute) (left : Bool)
    → check_left_first rand_left rand_right a b ≡ left
    → if left
      then add32 b.power.speed rand_right < add32 a.power.speed rand_left
      else add32 a.power.speed rand_left ≤ add32 b.power.speed rand_right
unfolding check_left_first
begins rand_left rand_right a b true e = ground (arith, e)
begins rand_left rand_right a b false e = ground (arith, e)

-- The notification of a decided fight, for hit points of 32 bits: a client that starts from the hit
-- points which the notification gives, and adds the differences of the rounds, one after the other,
-- has the hit points that the two have on the server afterwards. The sides take turns; the left one
-- begins if its speed plus its random number is the greater, modulo 2 ^ 32, and otherwise the right
-- one does.
pub count_fight_result_replayed :
    (odds : Odds) (draws : ℕ → Draw) (rand_left rand_right : ℕ) (a b a' b' : Attribute)
    (n : FightNotify)
    → a.hp_cur < u32_mod
    → b.hp_cur < u32_mod
    → count_fight_result odds draws rand_left rand_right a b ≡ (some n, a', b')
    → (replay n.round_data (n.left_cur_hp, n.right_cur_hp) ≡ (a'.hp_cur, b'.hp_cur))
      × ((left : Bool) × (map (λ r. r.left) n.round_data ≡ alternate (length n.round_data) left)
          × (if left
              then add32 b.power.speed rand_right < add32 a.power.speed rand_left
              else add32 a.power.speed rand_left ≤ add32 b.power.speed rand_right))
unfolding Says
count_fight_result_replayed odds draws rand_left rand_right a b a' b' n sa sb e =
    let left = check_left_first rand_left rand_right a b in
    let (hps, sides) = subst (Says left) e (said odds draws rand_left rand_right a b sa sb) in
    (hps, (left, sides, begins rand_left rand_right a b left refl))
