-- ===== src/Quest/Operate/Requests.antt =====
-- What a request of the client does to the main line of quests.
use txgg.Base.{
  ℕ, ◌<◌, ◌≡◌, inl, inr, refl, ◌∙◌, sym, subst, not, Option, none, some, List, [], ◌∷◌, ◌++◌, arith,
  ==_iff, ◌==◌, ◌>>=◌, if◌then◌else◌, take, Code, ok, err, add32, sub32, Bool-cases, lt→ltb,
  Option-cases, u32_mod,
}
use txgg.Container.{Bag, max_thing_obj_per_container}
use txgg.Container.Steady.{IsSteady}
use txgg.Container.Plan.{ItemConfig}
use txgg.Quest.{QuestInfo, QuestConfig, finished, quest_status_check, holds_item}
use txgg.Quest.Operate.{
  MainQuest, QuestRole, QuestOperateRequest, Output, complete_script, add_role_quest,
  remove_role_quest, quest_of, give_role_quest_reward, accept, complete,
  handle_quest_operate_request, operator_accept, operator_cancel, operator_complete,
}
use txgg.Quest.Operate.Slots.{
  AtMost, HoldsNext, Finds, get_role_quest-Finds, Added, add_role_quest-Added, Removed,
  remove_role_quest-Removed,
}
use txgg.Quest.Operate.Rewards.{
  next, HasNext, rewarded, rewarded-append, Rewards, give_role_quest_reward-Rewards,
}

-- The rows are found under their ids, which are small.
abbrev pub IsTable : (ℕ → Option MainQuest) → Type 0
IsTable config = (id : ℕ) (m : MainQuest) → config id ≡ some m → (m.config.id ≡ id) × (id < u32_mod)

-- The ids, each the one before plus 1, from `m` on, and the last.
abbrev pub Follows : ℕ → List ℕ → ℕ → Type 0
Follows m [] m' = m' ≡ m
Follows m (id ∷ ids) m' = (id ≡ add32 m 1) × Follows id ids m'

pub Follows-append :
    (m m' m'' : ℕ) (ids ids' : List ℕ)
    → Follows m ids m'
    → Follows m' ids' m''
    → Follows m (ids ++ ids') m''
Follows-append m m' m'' [] ids' f g = subst (λ k. Follows k ids' m'') f g
Follows-append m m' m'' (id ∷ ids) ids' (e, f) g = (e, Follows-append id m' m'' ids ids' f g)

abbrev pub Steps : QuestRole → Option (Code × QuestRole × List Output) → Type 0
Steps role none = ⊥
Steps role (some (code, role', sent)) =
    HasNext role'
    × Follows role.main_quest_index (rewarded sent) role'.main_quest_index
    × IsSteady role'.bag

Checked : ℕ → QuestInfo → QuestConfig → Option (Code × QuestInfo) → Type 0
Checked main quest config none = ⊥
Checked main quest config (some (err n, q)) = Unit
Checked main quest config (some (ok n, q)) = (main ≡ sub32 config.id 1) × (q.id ≡ quest.id)

quest_status_check-Checked :
    (main : ℕ) (bag : Bag) (quest : QuestInfo) (config : QuestConfig)
    → bag.container.max_thing_num < max_thing_obj_per_container
    → Checked main quest config (quest_status_check main bag quest config)
unfolding quest_status_check Checked
quest_status_check-Checked main bag quest config few =
    elim (Bool-cases (main == sub32 config.id 1)) [
      | inr e ↦ rw e tt
      | inl e ↦
          let at : main ≡ sub32 config.id 1 = (==_iff main (sub32 config.id 1)).0 e in
          elim (Bool-cases (config.kill_npc == 0)) [
            | inr k ↦ rw (e, k) (at, refl)
            | inl k ↦ elim (Bool-cases (config.collect_item == 0)) [
              | inl c ↦ rw (e, k, c) (at, refl)
              | inr c ↦
                  elim (Bool-cases (
                    holds_item bag.store.obj config.collect_item
                      (take bag.container.max_thing_num bag.container.things))) [
                        | inl h ↦ rw (e, k, c, lt→ltb _ _ few, h) (at, refl)
                        | inr h ↦ rw (e, k, c, lt→ltb _ _ few, h) (at, refl)
                      ]
            ]
          ]
    ]

module _ (unset : QuestInfo) (config : ℕ → Option MainQuest)
    (item_config : ℕ → Option ItemConfig) where
  accept-Steps :
      (role : QuestRole) (id : ℕ) (m : MainQuest)
      → HasNext role
      → IsSteady role.bag
      → m.config.id ≡ id
      → id < u32_mod
      → Steps role (accept unset config item_config role id m)
  unfolding accept rewarded Checked
  accept-Steps role id m v b same small = checked _ (
      quest_status_check-Checked role.main_quest_index role.bag (record unset { id = id }) m.config
        b.few)
    where
      added :
          (r : Option QuestRole)
          → Added (next role) role v r
          → Steps role (r >>= λ role'. some (ok 0, role', []))
      added none a = a
      added (some role') (h, e, same) =
          (subst (λ k. HoldsNext (add32 k 1) role'.quest) (sym e) h, e, rw same b)

      checked :
          (r : Option (Code × QuestInfo))
          → Checked role.main_quest_index (record unset { id = id }) m.config r
          → Steps role (
              r >>= λ (code, quest). elim code [
                | err n ↦ some (err n, role, [])
                | ok n ↦ add_role_quest role quest >>= λ role'. some (ok 0, role', [])
              ])
      checked none c = c
      checked (some (err n, q)) c = (v, refl, b)
      checked (some (ok n, q)) (at, e) =
          added _ (add_role_quest-Added (next role) role v q (omega (arith, at, e, same, small)))

  -- The end of a completion, after the reward.
  completed :
      (role role' : QuestRole) (id : ℕ) (sent : List Output) (r : Option QuestRole)
      (v : HoldsNext (next role) role'.quest)
      → id ≡ next role
      → rewarded sent ≡ []
      → IsSteady role'.bag
      → Removed (next role) (record role' { main_quest_index = id }) v id r
      → Steps role (r >>= λ role''. some (ok 0, role'', sent ++ (complete_script id ∷ [])))
  unfolding rewarded
  completed role role' id sent none v e none_yet b d = d
  completed role role' id sent (some role'') v e none_yet b (h, gone, place, same) = (
    record { only = rw (gone e) tt; fits = h.fits; size = h.size },
    rw (rewarded-append sent (complete_script id ∷ []), none_yet) (e, place),
    rw same b,
  )

  complete-Steps :
      (role : QuestRole) (id : ℕ) (m : MainQuest)
      → HasNext role
      → IsSteady role.bag
      → Steps role (complete unset config item_config role id m)
  unfolding complete rewarded
  complete-Steps role id m v b = found _ (get_role_quest-Finds (next role) role v unset id)
    where
      paid :
          (q : QuestInfo) (r : Option (Code × QuestRole × List Output))
          → id ≡ next role
          → Rewards role r
          → Steps role (
              r >>= λ (code, role', sent). elim code [
                | err n ↦ some (err 40, role', sent)
                | ok n ↦
                    remove_role_quest unset (record role' { main_quest_index = id }) id
                    >>= λ role''. some (ok 0, role'', sent ++ (complete_script id ∷ []))
              ])
      paid q none e s = s
      paid q (some (err n, role', sent)) e (h, place, none_yet, steady) =
          (h, rw (none_yet, place) refl, steady)
      paid q (some (ok n, role', sent)) e (h, place, none_yet, steady) =
          let v' = subst (λ k. HoldsNext (add32 k 1) role'.quest) place h in
          completed role role' id sent _ v' e none_yet steady (
            remove_role_quest-Removed (next role) (record role' { main_quest_index = id }) v' unset
              id)

      found :
          (f : Option (Option (ℕ × QuestInfo)))
          → Finds role.quest id f
          → Steps role (
              f >>= λ f'. elim (quest_of f') [
                | none ↦ some (err 30, role, [])
                | some q ↦
                    if not (q.state == finished)
                    then some (err 30, role, [])
                    else (give_role_quest_reward unset config item_config role m
                        >>= λ (code, role', sent). elim code [
                          | err n ↦ some (err 40, role', sent)
                          | ok n ↦
                              remove_role_quest unset (record role' { main_quest_index = id }) id
                              >>= λ role''. some (ok 0, role'', sent ++ (complete_script id ∷ []))
                        ])
              ])
      found none f = f
      found (some none) f = (v, refl, b)
      found (some (some (i, q))) (z, e, alone) = elim (Bool-cases (q.state == finished)) [
        | inr s ↦ rw s (v, refl, b)
        | inl s ↦ rw s (
            paid q _ (sym e ∙ subst (AtMost (next role)) alone v.only)
              (give_role_quest_reward-Rewards unset config item_config role m v b))
      ]

  pub request-Steps :
      (role : QuestRole) (req : Option QuestOperateRequest)
      → IsTable config
      → HasNext role
      → IsSteady role.bag
      → Steps role (handle_quest_operate_request unset config item_config role req)
  unfolding handle_quest_operate_request rewarded
  request-Steps role none table v b = (v, refl, b)
  request-Steps role (some req) table v b = elim (Option-cases (config req.id)) [
    | inl e ↦ rw (handle_quest_operate_request, e) (v, refl, b)
    | inr (m, e) ↦ elim (Bool-cases (req.operator == operator_accept)) [
      | inl a ↦
          rw (handle_quest_operate_request, e, a)
            (accept-Steps role req.id m v b (table req.id m e).0 (table req.id m e).1)
      | inr a ↦ elim (Bool-cases (req.operator == operator_cancel)) [
        | inl c ↦
            rw (handle_quest_operate_request, e, a, c)
              (cancelled _ (remove_role_quest-Removed (next role) role v unset req.id))
        | inr c ↦ elim (Bool-cases (req.operator == operator_complete)) [
          | inl d ↦ rw (handle_quest_operate_request, e, a, c, d) (complete-Steps role req.id m v b)
          | inr d ↦ rw (handle_quest_operate_request, e, a, c, d) (v, refl, b)
        ]
      ]
    ]
  ]
    where
      cancelled :
          (r : Option QuestRole)
          → Removed (next role) role v req.id r
          → Steps role (r >>= λ role'. some (ok 0, role', []))
      cancelled none d = d
      cancelled (some role') (h, gone, place, same) =
          (subst (λ k. HoldsNext (add32 k 1) role'.quest) (sym place) h, place, rw same b)
