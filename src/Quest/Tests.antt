-- ===== src/Quest/Tests.antt =====
-- A quest that asks for a monster and an item, and the theorem applied to it.
use txgg.Base.{refl, none, some, List, [], ◌∷◌}
use txgg.Container.{Bag}
use txgg.Quest.{QuestInfo, QuestConfig}
use txgg.Quest.Progress.{InStep, Event, kill, bag_change, run, run-InStep}

abbrev quest : QuestInfo
quest = record {
  id = 3;
  state = 1;
  accept_time = 0;
  cycle_num = 0;
  kill_npc1_num = 0;
  kill_npc2_num = 0;
  kill_npc3_num = 0;
  collect_item1_num = 0;
  collect_item2_num = 0;
  collect_item3_num = 0;
}

abbrev config : QuestConfig
config = record { id = 3; kill_npc = 8; collect_item = 100 }

abbrev bag : Bag
bag = record {
  container = record { max_thing_num = 1; things = record { p = some 0; idx = 0 } ∷ [] };
  store = record { obj = λ t. record { guid = 1; id = 100; num = 2 }; free = [] };
}

abbrev events : List Event
events = kill (some 7) ∷ kill (some 8) ∷ bag_change bag ∷ kill none ∷ []

run-InStep_example : let (quest', known') = run config quest 1 events in InStep config quest' known'
run-InStep_example = run-InStep config quest 1 events (record { right = refl; same = refl })
