-- ===== src/Quest/Operate.antt =====
-- The quests of a role: add_role_quest, remove_role_quest and get_role_quest of role.c, and the
-- handler of quest.c with which a client accepts, cancels and completes them. The array of quests is
-- one of SortArray. A result `none` is an access outside of an array. What goes to other parts of the
-- server is an output; the session's role and the unpacked request are inputs, and so is `unset`,
-- what the uninitialised quest of the handler holds.
pub mod Slots
pub mod Rewards
pub mod Requests
pub mod History
mod Tests
use txgg.Base.{
  ℕ, ◌+◌, Ordering, Bool, true, false, not, ◌||◌, Option, none, some, List, [], ◌∷◌, ◌++◌, ltb, leb,
  ◌==◌, if◌then◌else◌, ◌>>=◌, get_elem?, set, length, Code, ok, err, add32,
}
use txgg.SortArray.{Array, comp_uint, array_bsearch, array_insert, array_delete}
use txgg.Container.{Bag}
use txgg.Container.Plan.{Entry, ItemConfig, add_thing_list}
use txgg.Quest.{
  QuestInfo, QuestConfig, QuestProgress, finished, on_kill_monster, on_bag_changed,
  quest_status_check, bag_asserts,
}

abbrev pub max_quest_per_role : ℕ
max_quest_per_role = 64

-- QUEST__OPERATOR__
abbrev pub operator_accept : ℕ
operator_accept = 1

abbrev pub operator_cancel : ℕ
operator_cancel = 2

abbrev pub operator_complete : ℕ
operator_complete = 3

-- The columns that are read of CFGMAINQUEST.
pub record MainQuest : Type 0 where
  pub config : QuestConfig
  pub award_item1 : ℕ
  pub award_item1_num : ℕ
  pub award_item2 : ℕ
  pub award_item2_num : ℕ
  pub award_exp : ℕ
  pub award_money : ℕ

-- The fields of a role that its quests use.
pub record QuestRole : Type 0 where
  pub quest : Array QuestInfo
  pub main_quest_index : ℕ
  pub bag : Bag

-- QuestOperateRequest
pub record QuestOperateRequest : Type 0 where
  pub id : ℕ
  pub operator : ℕ

-- What is asked of other parts: a notify, give_role_exp, modify_role_money and the script of a quest
-- that is complete.
pub data Output : Type 0 where
  update_notify : QuestProgress → Output
  give_exp give_money complete_script : ℕ → Output

-- comp_role_quest
unfoldable pub comp_role_quest : QuestInfo → QuestInfo → Ordering
comp_role_quest a b = comp_uint a.id b.id

-- add_role_quest
unfoldable pub add_role_quest : QuestRole → QuestInfo → Option QuestRole
add_role_quest role quest =
    if leb max_quest_per_role role.quest.nmemb
    then some role
    else (array_insert comp_role_quest quest role.quest true >>= λ (code, arr).
        some (record role { quest = arr }))

module _ (unset : QuestInfo) where
  -- remove_role_quest; the other fields of its `data` are not set.
  unfoldable pub remove_role_quest : QuestRole → ℕ → Option QuestRole
  remove_role_quest role id =
      array_delete comp_role_quest (record unset { id = id }) role.quest >>= λ (code, arr).
      some (record role { quest = arr })

  -- get_role_quest: the index and the quest there.
  unfoldable pub get_role_quest : QuestRole → ℕ → Option (Option (ℕ × QuestInfo))
  get_role_quest role id =
      array_bsearch comp_role_quest (record unset { id = id }) role.quest.mem role.quest.nmemb
      >>= λ (find, index).
          if find
          then (get_elem? role.quest.mem index >>= λ q. some (some (index, q)))
          else some none

abbrev pub quest_of : Option (ℕ × QuestInfo) → Option QuestInfo
quest_of none = none
quest_of (some (index, q)) = some q

-- The quest that has been changed in place.
unfoldable pub put_back : QuestRole → Option (ℕ × QuestInfo) → Option QuestInfo → QuestRole
put_back role none q' = role
put_back role (some (index, q)) none = role
put_back role (some (index, q)) (some q') = record role {
  quest = record role.quest { mem = set role.quest.mem index q' };
}

abbrev pub notify_of : Option QuestProgress → List Output
notify_of none = []
notify_of (some p) = update_notify p ∷ []

abbrev pub config_of : Option MainQuest → Option QuestConfig
config_of none = none
config_of (some m) = some m.config

-- The list of give_role_quest_reward; the position of an entry is filled in by add_thing_list.
pub award_list : MainQuest → List Entry
award_list m =
    (if m.award_item1 == 0 then [] else entry m.award_item1 m.award_item1_num ∷ [])
    ++ (if m.award_item2 == 0 then [] else entry m.award_item2 m.award_item2_num ∷ [])
  where
    entry : ℕ → ℕ → Entry
    entry id num = record { id = id; num = num; pos = 0 }

abbrev pub awards : MainQuest → List Output
awards m =
    (if m.award_exp == 0 then [] else give_exp m.award_exp ∷ [])
    ++ (if m.award_money == 0 then [] else give_money m.award_money ∷ [])

module _ (unset : QuestInfo) (get_quest_main_config : ℕ → Option MainQuest)
    (item_config : ℕ → Option ItemConfig) where
  -- on_kill_monster with its lookups; `monster1` is that of the map function, if there is one.
  unfoldable pub kill_monster : QuestRole → Option ℕ → Option (QuestRole × List Output)
  unfolding get_role_quest put_back on_kill_monster
  kill_monster role monster1 =
      let id = add32 role.main_quest_index 1 in
      get_role_quest unset role id >>= λ found.
      let (q, sent) =
        on_kill_monster monster1 (config_of (get_quest_main_config id)) (quest_of found) in
      some (put_back role found q, notify_of sent)

  -- on_bag_changed with its lookups
  unfoldable pub bag_changed : QuestRole → Option (QuestRole × List Output)
  unfolding get_role_quest put_back on_bag_changed bag_asserts
  bag_changed role =
      let id = add32 role.main_quest_index 1 in
      get_role_quest unset role id >>= λ found.
      let (q, sent) =
        on_bag_changed role.bag (config_of (get_quest_main_config id)) (quest_of found) in
      if bag_asserts role.bag (config_of (get_quest_main_config id)) (quest_of found)
      then some (put_back role found q, notify_of sent)
      else none

  -- give_role_thing_list, up to the notifies of the slots.
  unfoldable pub give_role_thing_list :
      QuestRole → List Entry → Option (Code × QuestRole × List Output)
  unfolding bag_changed
  give_role_thing_list role list =
      let (code, bag) = add_thing_list item_config role.bag list in
      elim code [
        | err n ↦ some (err n, record role { bag = bag }, [])
        | ok n ↦
            bag_changed (record role { bag = bag }) >>= λ (role', sent). some (ok 0, role', sent)
      ]

  -- give_role_quest_reward
  unfoldable pub give_role_quest_reward :
      QuestRole → MainQuest → Option (Code × QuestRole × List Output)
  unfolding award_list give_role_thing_list
  give_role_quest_reward role m =
      if length (award_list m) == 0
      then some (ok 0, role, awards m)
      else (give_role_thing_list role (award_list m) >>= λ (code, role', sent).
          some
            (elim code [ err n ↦ (err 1, role', sent) | ok n ↦ (ok 0, role', sent ++ awards m) ]))

  -- The cases of handle_quest_operate_request.
  unfoldable pub accept : QuestRole → ℕ → MainQuest → Option (Code × QuestRole × List Output)
  unfolding quest_status_check add_role_quest
  accept role id m =
      quest_status_check role.main_quest_index role.bag (record unset { id = id }) m.config
      >>= λ (code, quest). elim code [
        | err n ↦ some (err n, role, [])
        | ok n ↦ add_role_quest role quest >>= λ role'. some (ok 0, role', [])
      ]

  unfoldable pub complete : QuestRole → ℕ → MainQuest → Option (Code × QuestRole × List Output)
  unfolding get_role_quest give_role_quest_reward remove_role_quest
  complete role id m = get_role_quest unset role id >>= λ found. elim (quest_of found) [
    | none ↦ some (err 30, role, [])
    | some q ↦
        if not (q.state == finished)
        then some (err 30, role, [])
        else (give_role_quest_reward role m >>= λ (code, role', sent). elim code [
          | err n ↦ some (err 40, role', sent)
          | ok n ↦ remove_role_quest unset (record role' { main_quest_index = id }) id >>= λ role''.
              some (ok 0, role'', sent ++ (complete_script id ∷ []))
        ])
  ]

  -- handle_quest_operate_request; `none` is a request that cannot be unpacked. The answer has the
  -- result that is returned.
  unfoldable pub handle_quest_operate_request :
      QuestRole → Option QuestOperateRequest → Option (Code × QuestRole × List Output)
  unfolding accept complete remove_role_quest
  handle_quest_operate_request role none = some (err 15, role, [])
  handle_quest_operate_request role (some req) = elim (get_quest_main_config req.id) [
    | none ↦ some (err 20, role, [])
    | some m ↦
        if req.operator == operator_accept
        then accept role req.id m
        else if req.operator == operator_cancel
        then (remove_role_quest unset role req.id >>= λ role'. some (ok 0, role', []))
        else if req.operator == operator_complete
        then complete role req.id m
        else some (ok 0, role, [])
  ]
