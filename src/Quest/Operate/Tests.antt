-- ===== src/Quest/Operate/Tests.antt =====
-- A role that accepts a quest, kills the monster that it asks for and completes it twice.
use txgg.Base.{ℕ, ◌≡◌, refl, Option, none, some, List, [], ◌∷◌, replicate, ◌==◌, if◌then◌else◌}
use txgg.SortArray.{
  comp_uint, array_insert, array_delete, delete_found, array_delete_index, array_bsearch,
  bsearch_loop, insert_found, make_room,
}
use txgg.Container.Plan.{ItemConfig}
use txgg.Quest.{QuestInfo, on_kill_monster}
use txgg.Quest.Operate.{
  MainQuest, QuestRole, Output, max_quest_per_role, handle_quest_operate_request, kill_monster,
  comp_role_quest,
}
use txgg.Quest.Operate.Rewards.{rewarded}
use txgg.Quest.Operate.History.{Event, request, kill, run}

abbrev no_quest : QuestInfo
no_quest = record {
  id = 0;
  state = 7;
  accept_time = 0;
  cycle_num = 0;
  kill_npc1_num = 0;
  kill_npc2_num = 0;
  kill_npc3_num = 0;
  collect_item1_num = 9;
  collect_item2_num = 0;
  collect_item3_num = 0;
}

abbrev wolves : MainQuest
wolves = record {
  config = record { id = 3; kill_npc = 8; collect_item = 0 };
  award_item1 = 0;
  award_item1_num = 0;
  award_item2 = 0;
  award_item2_num = 0;
  award_exp = 50;
  award_money = 0;
}

abbrev hunter : QuestRole
hunter = record {
  quest = record { mem = replicate max_quest_per_role no_quest; nmemb = 0 };
  main_quest_index = 2;
  bag = record {
    container = record { max_thing_num = 0; things = [] };
    store = record { obj = λ t. record { guid = 0; id = 0; num = 0 }; free = [] };
  };
}

abbrev items : ℕ → Option ItemConfig
items id = none

abbrev hunt : List Event
hunt =
    request (some (record { id = 3; operator = 1 }))
    ∷ kill (some 8)
    ∷ request (some (record { id = 3; operator = 3 }))
    ∷ request (some (record { id = 3; operator = 3 }))
    ∷ []

-- The quests that a history rewards.
rewards : Option (QuestRole × List Output) → Option (List ℕ × ℕ)
unfolding rewarded
rewards none = none
rewards (some (role, sent)) = some (rewarded sent, role.main_quest_index)

rewarded_once :
    rewards (run no_quest (λ id. if id == 3 then some wolves else none) items hunter hunt)
    ≡ some (3 ∷ [], 3)
unfolding comp_uint rewards run handle_quest_operate_request kill_monster array_insert array_delete
    delete_found array_delete_index array_bsearch bsearch_loop insert_found make_room
    comp_role_quest on_kill_monster
rewarded_once = refl
