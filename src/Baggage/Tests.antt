-- ===== src/Baggage/Tests.antt =====
-- A role with five of the item 100 in the first slot of its bag, and no store.
use txgg.Base.{ℕ, refl, Option, none, some, [], ◌∷◌, arith, replicate}
use txgg.Container.{Bag, idx_of, null_idx}
use txgg.Container.Invariant.{IsValid}
use txgg.Container.Plan.{ItemConfig}
use txgg.Quest.{QuestInfo}
use txgg.Quest.Operate.{MainQuest, max_quest_per_role}
use txgg.Quest.Operate.Rewards.{HasNext}
use txgg.Baggage.{
  BagRole, DropContainerItemRequest, SwapContainerItemRequest, handle_drop_container_request,
  handle_swap_container_request,
}
use txgg.Baggage.Answers.{
  Drops, Exchanges, handle_drop_container_request-Drops, handle_swap_container_request-Exchanges,
}

abbrev bag : Bag
bag = record {
  container = record { max_thing_num = 2; things = idx_of (some 0) ∷ null_idx ∷ [] };
  store = record { obj = λ t. record { guid = 7; id = 100; num = 5 }; free = 1 ∷ [] };
}

abbrev no_quest : QuestInfo
no_quest = record {
  id = 0;
  state = 0;
  accept_time = 0;
  cycle_num = 0;
  kill_npc1_num = 0;
  kill_npc2_num = 0;
  kill_npc3_num = 0;
  collect_item1_num = 0;
  collect_item2_num = 0;
  collect_item3_num = 0;
}

abbrev role : BagRole
role = record {
  role = record {
    quest = record { mem = replicate max_quest_per_role no_quest; nmemb = 0 };
    main_quest_index = 2;
    bag = bag;
  };
  store = none;
}

abbrev drop_three : DropContainerItemRequest
drop_three = record { container_type = 1; thing_pos = 0; thing_num = 3 }

abbrev to_the_end : SwapContainerItemRequest
to_the_end = record { container_type = 1; thing_pos1 = 0; thing_pos2 = 257 }

abbrev no_config : ℕ → Option MainQuest
no_config id = none

abbrev no_items : ℕ → Option ItemConfig
no_items id = none

bag-IsValid : IsValid bag
bag-IsValid = record {
  slots = ((refl, omega arith, refl), (refl, tt));
  free = (omega arith, refl, tt);
  apart = λ t e. ground (arith, e);
  fits = omega arith;
}

role-HasNext : HasNext role.role
role-HasNext = record { only = tt; fits = omega arith; size = refl }

handle_drop_container_request-Drops_example :
    Drops role drop_three
      (handle_drop_container_request no_quest no_config no_items role (some drop_three))
handle_drop_container_request-Drops_example =
    handle_drop_container_request-Drops no_quest no_config no_items role drop_three role-HasNext
      bag-IsValid refl

handle_swap_container_request-Exchanges_example :
    Exchanges role to_the_end (handle_swap_container_request role (some to_the_end))
handle_swap_container_request-Exchanges_example =
    handle_swap_container_request-Exchanges role to_the_end bag-IsValid refl
