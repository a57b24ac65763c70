-- ===== src/Quest.antt =====
-- server/game_srv/quest.c: the state of the main quest of a role and the events that drive it. The
-- quest that get_role_quest finds is changed in place; here it comes and goes as a value. The rows
-- of the tables are parameters, and the notify to the client is an output.
pub mod Progress
pub mod Operate
mod Tests
use txgg.Base.{
  ℕ, zero, suc, ◌+◌, Bool, true, false, not, ◌&&◌, Option, none, some, List, [], ◌∷◌, ltb, ◌==◌,
  if◌then◌else◌, take, Code, ok, err, add32, sub32,
}
use txgg.Container.{
  Idx, ThingObj, Bag, count_thing_num, count_thing_num_asserts, max_thing_obj_per_container,
}

-- QUEST__STATE__IN_PROGRESS and QUEST__STATE__FINISHED
abbrev pub in_progress : ℕ
in_progress = 1

abbrev pub finished : ℕ
finished = 2

-- DB_QUEST_INFO
pub record QuestInfo : Type 0 where
  pub id : ℕ
  pub state : ℕ
  pub accept_time : ℕ
  pub cycle_num : ℕ
  pub kill_npc1_num : ℕ
  pub kill_npc2_num : ℕ
  pub kill_npc3_num : ℕ
  pub collect_item1_num : ℕ
  pub collect_item2_num : ℕ
  pub collect_item3_num : ℕ

-- The columns that are read of CFGMAINQUEST.
pub record QuestConfig : Type 0 where
  pub id : ℕ
  pub kill_npc : ℕ
  pub collect_item : ℕ

-- The fields of the QuestProgress that is sent.
pub record QuestProgress : Type 0 where
  pub id : ℕ
  pub state : ℕ

-- The state that update_main_quest_state stores.
pub next_state : QuestConfig → QuestInfo → ℕ
next_state config quest =
    if not (config.collect_item == 0) && (quest.collect_item1_num == 0)
    then in_progress
    else if not (config.kill_npc == 0) && (quest.kill_npc1_num == 0)
    then in_progress
    else finished

-- update_main_quest_state
pub update_main_quest_state : QuestConfig → QuestInfo → QuestInfo × Option QuestProgress
unfolding next_state
update_main_quest_state config quest =
    let state = next_state config quest in
    (
      record quest { state = state },
      if state == quest.state then none else some (record { id = quest.id; state = state }),
    )

-- on_kill_monster, after the three lookups: the monster of the map function, the row of the quest
-- and the quest of the role.
pub on_kill_monster :
    Option ℕ → Option QuestConfig → Option QuestInfo → Option QuestInfo × Option QuestProgress
unfolding update_main_quest_state
on_kill_monster none config quest = (quest, none)
on_kill_monster (some monster1) none quest = (quest, none)
on_kill_monster (some monster1) (some config) none = (none, none)
on_kill_monster (some monster1) (some config) (some quest) =
    let (killed, sent) =
      update_main_quest_state config
        (record quest { kill_npc1_num = add32 quest.kill_npc1_num 1 }) in
    if quest.state == finished
    then (some quest, none)
    else if config.kill_npc == monster1
    then (some killed, sent)
    else (some quest, none)

-- The asserts of count_thing_num hold, if on_bag_changed gets that far.
pub bag_asserts : Bag → Option QuestConfig → Option QuestInfo → Bool
bag_asserts bag none quest = true
bag_asserts bag (some config) none = true
bag_asserts bag (some config) (some quest) = count_thing_num_asserts bag

-- on_bag_changed, after the two lookups, where its asserts hold: see bag_asserts.
pub on_bag_changed :
    Bag → Option QuestConfig → Option QuestInfo → Option QuestInfo × Option QuestProgress
unfolding update_main_quest_state
on_bag_changed bag none quest = (quest, none)
on_bag_changed bag (some config) none = (none, none)
on_bag_changed bag (some config) (some quest) =
    let (quest', sent) =
      update_main_quest_state config
        (record quest { collect_item1_num = count_thing_num bag config.collect_item }) in
    (some quest', sent)

-- The loop of quest_status_check: some slot holds the item.
pub holds_item : (ℕ → ThingObj) → ℕ → List Idx → Bool
holds_item obj item_id [] = false
holds_item obj item_id (x ∷ xs) =
    let rest = holds_item obj item_id xs in
    elim x.p [
      | none ↦ rest
      | some t ↦ if ((obj t).id == item_id) && ltb 0 (obj t).num then true else rest
    ]

-- quest_status_check; `none` is an assert that fails.
pub quest_status_check : ℕ → Bag → QuestInfo → QuestConfig → Option (Code × QuestInfo)
unfolding holds_item
quest_status_check main_quest_index bag quest config =
    if not (main_quest_index == sub32 config.id 1)
    then some (err 1, quest)
    else if not (config.kill_npc == 0)
    then some (ok 0, record quest { state = in_progress; kill_npc1_num = 0 })
    else if config.collect_item == 0
    then some (ok 0, record quest { state = finished })
    else if not (ltb bag.container.max_thing_num max_thing_obj_per_container)
    then none
    else if holds_item bag.store.obj config.collect_item
        (take bag.container.max_thing_num bag.container.things)
    then some (ok 0, record quest { collect_item1_num = 1; state = finished })
    else some (ok 0, record quest { collect_item1_num = 0 })
