-- ===== src/Quest/Operate/History.antt =====
-- The main line of quests, over any history of what happens to a role.
use txgg.Base.{ℕ, Option, none, some, List, [], ◌∷◌, ◌++◌, arith, ◌>>=◌, replicate}
use txgg.Container.{Bag}
use txgg.Container.Steady.{IsSteady}
use txgg.Container.Plan.{ItemConfig}
use txgg.Quest.{QuestInfo}
use txgg.Quest.Operate.{
  MainQuest, QuestRole, QuestOperateRequest, Output, kill_monster, bag_changed,
  handle_quest_operate_request,
}
use txgg.Quest.Operate.Rewards.{HasNext, rewarded}
use txgg.Config.{max_quest_main_config, get_config_byid, load_rows, get_config_byid-same_id}
use txgg.Quest.Operate.Requests.{IsTable, Follows}

-- What happens to a role: a request of the client, a kill, or a change of the bag by another part.
pub data Event : Type 0 where
  request : Option QuestOperateRequest → Event
  kill : Option ℕ → Event
  bag_change : Bag → Event

-- The table that load_all_quest_main_config fills.
pub loaded-IsTable :
    (rows : List MainQuest)
    → IsTable (
        get_config_byid max_quest_main_config (
          load_rows max_quest_main_config
            (λ m. m.config.id)
            rows
            (replicate max_quest_main_config none)))
loaded-IsTable rows id m e =
    let (same, small) =
      get_config_byid-same_id max_quest_main_config (λ x. x.config.id) rows id m e in
    (same, omega (arith, small))

-- What has been rewarded since the index was `m`.
abbrev pub Went : ℕ → Option (QuestRole × List Output) → Type 0
Went m none = ⊥
Went m (some (role', sent)) =
    HasNext role' × Follows m (rewarded sent) role'.main_quest_index × IsSteady role'.bag

-- No assert fails on the bags that other parts make of it.
abbrev pub Steadies : List Event → Type 0
Steadies [] = Unit
Steadies (bag_change bag ∷ es) = IsSteady bag × Steadies es
Steadies (request req ∷ es) = Steadies es
Steadies (kill monster1 ∷ es) = Steadies es

module _ (unset : QuestInfo) (config : ℕ → Option MainQuest)
    (item_config : ℕ → Option ItemConfig) where
  -- An event: the role and what it causes.
  pub step : QuestRole → Event → Option (QuestRole × List Output)
  step role (request req) =
      handle_quest_operate_request unset config item_config role req >>= λ (code, role', sent).
      some (role', sent)
  step role (kill monster1) = kill_monster unset config item_config role monster1
  step role (bag_change bag) = bag_changed unset config item_config (record role { bag = bag })

  unfoldable pub run : QuestRole → List Event → Option (QuestRole × List Output)
  unfolding step
  run role [] = some (role, [])
  run role (e ∷ es) = step role e >>= λ (role', sent).
      run role' es >>= λ (role'', sent'). some (role'', sent ++ sent')
