-- ===== src/Baggage.antt =====
-- The requests on the containers of a role: handle_drop_container_request and
-- handle_swap_container_request of server/game_srv/handle_conn_msg.c, with what a changed bag does
-- to the quest of the role.
pub mod Answers
mod Tests
use txgg.Base.{
  ℕ, ◌%◌, Option, none, some, List, [], ◌==◌, ◌>>=◌, if◌then◌else◌, Code, ok, err, u8_mod, u16_mod,
}
use txgg.Container.{Container, Bag, delete_thing_bypos, swap_thing_pos}
use txgg.Container.Plan.{ItemConfig}
use txgg.Quest.{QuestInfo}
use txgg.Quest.Operate.{MainQuest, QuestRole, Output, bag_changed}

-- CONTAINER__TYPE
abbrev pub type_bag : ℕ
type_bag = 1

abbrev pub type_store : ℕ
type_store = 2

-- The part of ROLE that is used here: `store` is the container behind role->store.p, if there is
-- one; its things are in the pool of the bag's.
pub record BagRole : Type 0 where
  pub role : QuestRole
  pub store : Option Container

-- DropContainerItemRequest
pub record DropContainerItemRequest : Type 0 where
  pub container_type : ℕ
  pub thing_pos : ℕ
  pub thing_num : ℕ

-- SwapContainerItemRequest
pub record SwapContainerItemRequest : Type 0 where
  pub container_type : ℕ
  pub thing_pos1 : ℕ
  pub thing_pos2 : ℕ

-- The switch: `none` is the default, and `some none` a NULL pointer.
pub container_of : BagRole → ℕ → Option (Option Bag)
container_of r type =
    if type == type_bag
    then some (some r.role.bag)
    else if type == type_store
    then some (elim r.store [
      | none ↦ none
      | some c ↦ some (record { container = c; store = r.role.bag.store })
    ])
    else none

-- The container that was worked on is `b` now.
pub put_container : BagRole → ℕ → Bag → BagRole
put_container r type b =
    if type == type_bag then record r { role = record r.role { bag = b } } else record {
      role = record r.role { bag = record r.role.bag { store = b.store } };
      store = some b.container;
    }

module _ (unset : QuestInfo) (get_quest_main_config : ℕ → Option MainQuest)
    (item_config : ℕ → Option ItemConfig) where
  -- handle_drop_container_request for a role that was found: what it returns, the result in its
  -- response if there is one, the role and the notifies. `none` is a failed assert: delete_thing_bypos has one that there is a
  -- container, and on_bag_changed those of quest_status_check.
  pub handle_drop_container_request :
      BagRole
      → Option DropContainerItemRequest
      → Option (Code × Option Code × BagRole × List Output)
  unfolding container_of put_container
  handle_drop_container_request r none = some (err 15, none, r, [])
  handle_drop_container_request r (some req) = elim (container_of r req.container_type) [
    | none ↦ some (err 20, none, r, [])
    | some none ↦ none
    | some (some b) ↦
        let (code, b') = delete_thing_bypos b (req.thing_pos % u8_mod) (req.thing_num % u16_mod) in
        let r' = put_container r req.container_type b' in
        bag_changed unset get_quest_main_config item_config r'.role >>= λ (role, sent).
        some (ok 0, some code, record r' { role = role }, sent)
  ]

-- handle_swap_container_request, likewise; here `none` is an access through NULL.
pub handle_swap_container_request :
    BagRole → Option SwapContainerItemRequest → Option (Code × Option Code × BagRole)
unfolding container_of put_container
handle_swap_container_request r none = some (err 15, none, r)
handle_swap_container_request r (some req) = elim (container_of r req.container_type) [
  | none ↦ some (err 20, none, r)
  | some none ↦ none
  | some (some b) ↦
      let (code, c) =
        swap_thing_pos b.container (req.thing_pos1 % u8_mod) (req.thing_pos2 % u8_mod) in
      some (ok 0, some code, put_container r req.container_type (record b { container = c }))
]
