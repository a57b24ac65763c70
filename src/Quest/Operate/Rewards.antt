-- ===== src/Quest/Operate/Rewards.antt =====
-- What changes a role between two quests, and the reward of a quest.
use txgg.Base.{
  ℕ, ◌≡◌, Bool, true, if◌then◌else◌, inl, inr, refl, ap, ◌∙◌, sym, subst, Option, none, some, List,
  [], ◌∷◌, ◌++◌, length, ◌==◌, ◌>>=◌, Code, ok, err, add32, Bool-cases,
}
use txgg.Container.{Bag, count_thing_num_asserts}
use txgg.Container.Steady.{IsSteady, LeavesSteady}
use txgg.Container.Plan.Steady.{add_thing_list-IsSteady}
use txgg.Container.Plan.{ItemConfig, add_thing_list}
use txgg.Quest.{
  QuestInfo, QuestConfig, QuestProgress, finished, on_kill_monster, on_bag_changed,
  update_main_quest_state, bag_asserts,
}
use txgg.Quest.Operate.{
  MainQuest, QuestRole, Output, complete_script, put_back, quest_of, notify_of, config_of,
  kill_monster, bag_changed, give_role_thing_list, award_list, awards, give_role_quest_reward,
}
use txgg.Quest.Operate.Slots.{
  HoldsNext, Finds, get_role_quest-Finds, put_back-HoldsNext, put_back_lem,
}

abbrev pub next : QuestRole → ℕ
next role = add32 role.main_quest_index 1

abbrev pub HasNext : QuestRole → Type 0
HasNext role = HoldsNext (next role) role.quest

-- The quests that are rewarded: those whose scripts are told.
unfoldable pub rewarded : List Output → List ℕ
rewarded [] = []
rewarded (complete_script id ∷ os) = id ∷ rewarded os
rewarded (Output.update_notify p ∷ os) = rewarded os
rewarded (Output.give_exp n ∷ os) = rewarded os
rewarded (Output.give_money n ∷ os) = rewarded os

pub rewarded-append : (xs ys : List Output) → rewarded (xs ++ ys) ≡ rewarded xs ++ rewarded ys
unfolding rewarded
rewarded-append [] ys = refl
rewarded-append (complete_script id ∷ os) ys = ap (λ x. id ∷ x) (rewarded-append os ys)
rewarded-append (Output.update_notify p ∷ os) ys = rewarded-append os ys
rewarded-append (Output.give_exp n ∷ os) ys = rewarded-append os ys
rewarded-append (Output.give_money n ∷ os) ys = rewarded-append os ys

-- An event that rewards nothing and leaves the place in the main line.
abbrev pub Stays : QuestRole → Option (QuestRole × List Output) → Type 0
Stays role none = ⊥
Stays role (some (role', sent)) =
    HasNext role'
    × (role'.main_quest_index ≡ role.main_quest_index)
    × (rewarded sent ≡ [])
    × (role'.bag ≡ role.bag)

-- The same of an operation with a result, which leaves a bag on which no assert fails.
abbrev pub Rewards : QuestRole → Option (Code × QuestRole × List Output) → Type 0
Rewards role none = ⊥
Rewards role (some (code, role', sent)) =
    HasNext role'
    × (role'.main_quest_index ≡ role.main_quest_index)
    × (rewarded sent ≡ [])
    × IsSteady role'.bag

awards_lem : (m : MainQuest) → rewarded (awards m) ≡ []
unfolding rewarded
awards_lem m = elim (Bool-cases (m.award_exp == 0)) [
  | inl e ↦ elim (Bool-cases (m.award_money == 0)) [
    | inl e' ↦ rw (e, e') refl
    | inr e' ↦ rw (e, e') refl
  ]
  | inr e ↦ elim (Bool-cases (m.award_money == 0)) [
    | inl e' ↦ rw (e, e') refl
    | inr e' ↦ rw (e, e') refl
  ]
]

SameId : QuestInfo → Option QuestInfo → Type 0
SameId p none = Unit
SameId p (some q) = q.id ≡ p.id

on_kill_monster-SameId :
    (monster1 : Option ℕ) (config : Option QuestConfig) (p : QuestInfo)
    → SameId p (on_kill_monster monster1 config (some p)).0
unfolding on_kill_monster update_main_quest_state SameId
on_kill_monster-SameId none config p = refl
on_kill_monster-SameId (some m) none p = refl
on_kill_monster-SameId (some m) (some c) p = elim (Bool-cases (p.state == finished)) [
  | inl e ↦ rw e refl
  | inr e ↦ elim (Bool-cases (c.kill_npc == m)) [
    | inl e' ↦ rw (e, e') refl
    | inr e' ↦ rw (e, e') refl
  ]
]

on_bag_changed-SameId :
    (bag : Bag) (config : Option QuestConfig) (p : QuestInfo)
    → SameId p (on_bag_changed bag config (some p)).0
unfolding on_bag_changed update_main_quest_state SameId
on_bag_changed-SameId bag none p = refl
on_bag_changed-SameId bag (some c) p = refl

notified : (sent : Option QuestProgress) → rewarded (notify_of sent) ≡ []
unfolding rewarded
notified none = refl
notified (some p) = refl

put_back-bag :
    (role : QuestRole) (f : Option (ℕ × QuestInfo)) (q : Option QuestInfo)
    → (put_back role f q).bag ≡ role.bag
unfolding put_back
put_back-bag role none q = refl
put_back-bag role (some (i, p)) none = refl
put_back-bag role (some (i, p)) (some q) = refl

hold :
    (bag : Bag) (config : Option QuestConfig) (q : Option QuestInfo)
    → count_thing_num_asserts bag ≡ true
    → bag_asserts bag config q ≡ true
unfolding bag_asserts
hold bag none q e = refl
hold bag (some c) none e = refl
hold bag (some c) (some q) e = e

changed :
    (role : QuestRole) (id : ℕ) (found : Option (Option (ℕ × QuestInfo)))
    (change : Option QuestInfo → Option QuestInfo × Option QuestProgress)
    (asserts : Option QuestInfo → Bool)
    → HasNext role
    → Finds role.quest id found
    → ((p : QuestInfo) → SameId p (change (some p)).0)
    → ((q : Option QuestInfo) → asserts q ≡ true)
    → Stays role (
        found >>= λ f.
        let (q, sent) = change (quest_of f) in
        if asserts (quest_of f) then some (put_back role f q, notify_of sent) else none)
unfolding SameId
changed role id none change asserts v f same hold = f
changed role id (some f) change asserts v found same hold =
    let (q, sent) = change (quest_of f) in
    let place = put_back_lem (next role) role v f q in
    rw (hold (quest_of f)) (
      subst (λ m. HoldsNext (add32 m 1) (put_back role f q).quest) (sym place)
          (put_back-HoldsNext (next role) role v id f q found (kept f)),
      place,
      notified sent,
      put_back-bag role f q,
    )
  where
    kept :
        (f : Option (ℕ × QuestInfo)) (p q : QuestInfo)
        → quest_of f ≡ some p
        → (change (quest_of f)).0 ≡ some q
        → q.id ≡ p.id
    kept none p q h e = absurd (none_ne h)
      where
        none_ne : ◌≡◌ {A = Option QuestInfo} none (some p) → ⊥
        none_ne k = cc
    kept (some (i, p')) p q h e =
        let same_quest : p' ≡ p = cc in subst (SameId p') e (same p') ∙ ap (λ x. x.id) same_quest

module _ (unset : QuestInfo) (config : ℕ → Option MainQuest)
    (item_config : ℕ → Option ItemConfig) where
  pub kill_monster-Stays :
      (role : QuestRole) (monster1 : Option ℕ)
      → HasNext role
      → Stays role (kill_monster unset config item_config role monster1)
  unfolding kill_monster
  kill_monster-Stays role monster1 v =
      changed role (next role) _ (λ q. on_kill_monster monster1 (config_of (config (next role))) q)
        (λ q. true) v (get_role_quest-Finds (next role) role v unset (next role))
        (on_kill_monster-SameId monster1 (config_of (config (next role)))) (λ q. refl)

  pub bag_changed-Stays :
      (role : QuestRole)
      → HasNext role
      → count_thing_num_asserts role.bag ≡ true
      → Stays role (bag_changed unset config item_config role)
  unfolding bag_changed
  bag_changed-Stays role v e =
      let row = config_of (config (next role)) in
      changed role (next role) _ (λ q. on_bag_changed role.bag row q)
        (λ q. bag_asserts role.bag row q) v
        (get_role_quest-Finds (next role) role v unset (next role))
        (on_bag_changed-SameId role.bag row) (λ q. hold role.bag row q e)

  give_role_thing_list-Rewards :
      (role : QuestRole) (m : MainQuest)
      → HasNext role
      → IsSteady role.bag
      → Rewards role (give_role_thing_list unset config item_config role (award_list m))
  unfolding give_role_thing_list rewarded
  give_role_thing_list-Rewards role m v steady =
      listed (add_thing_list item_config role.bag (award_list m))
        (add_thing_list-IsSteady item_config role.bag (award_list m) steady)
    where
      given :
          (bag : Bag) (r : Option (QuestRole × List Output))
          → IsSteady bag
          → Stays (record role { bag = bag }) r
          → Rewards role (r >>= λ (role', sent). some (ok 0, role', sent))
      given bag none b s = s
      given bag (some (role', sent)) b (h, e, none_yet, same) = (h, e, none_yet, rw same b)

      listed :
          (r : Code × Bag)
          → LeavesSteady r
          → Rewards role (elim r.0 [
            | err n ↦ some (err n, record role { bag = r.1 }, [])
            | ok n ↦
                bag_changed unset config item_config (record role { bag = r.1 })
                >>= λ (role', sent). some (ok 0, role', sent)
          ])
      listed (ok n, bag) b =
          given bag _ b (bag_changed-Stays (record role { bag = bag }) v b.counted)
      listed (err n, bag) b = (v, refl, refl, b)

  pub give_role_quest_reward-Rewards :
      (role : QuestRole) (m : MainQuest)
      → HasNext role
      → IsSteady role.bag
      → Rewards role (give_role_quest_reward unset config item_config role m)
  unfolding give_role_quest_reward
  give_role_quest_reward-Rewards role m v b = elim (Bool-cases (length (award_list m) == 0)) [
    | inl e ↦ rw e (v, refl, awards_lem m, b)
    | inr e ↦ rw e (given _ (give_role_thing_list-Rewards role m v b))
  ]
    where
      given :
          (r : Option (Code × QuestRole × List Output))
          → Rewards role r
          → Rewards role (
              r >>= λ (code, role', sent).
              some (elim code [
                | err n ↦ (err 1, role', sent)
                | ok n ↦ (ok 0, role', sent ++ awards m)
              ]))
      given none s = s
      given (some (err n, role', sent)) s = s
      given (some (ok n, role', sent)) (h, e, r, steady) =
          (h, e, rewarded-append sent (awards m) ∙ rw (r, awards_lem m) refl, steady)
