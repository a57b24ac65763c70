-- ===== src/Instance.antt =====
-- server/game_srv/instance.c and the handlers of server/game_srv/handle_conn_msg.c that drive it: the
-- board that a role walks over by dice. A position of a node's neighbour is `none` where the code has
-- a negative number. The lookups of the role, its instance and the rows of the tables come before the
-- modelled part; `none` is an access outside of the array of nodes. Random numbers are inputs.
pub mod Walk
pub mod Rules
pub mod Actions
mod Tests
use txgg.Base.{
  ℕ, zero, suc, ◌+◌, ◌-◌, ◌/◌, ◌%◌, Bool, true, false, not, ◌&&◌, ◌||◌, Option, none, some, List,
  [], ◌∷◌, ◌++◌, map, ltb, leb, ◌==◌, if◌then◌else◌, ◌>>=◌, length, get_elem?, set, take, Code, ok,
  err, u8_mod, u16_mod,
}

-- instance_node_type_ of keyword.proto, those that the code names.
abbrev pub type_null : ℕ
type_null = 1

abbrev pub type_boss : ℕ
type_boss = 3

abbrev pub type_fight : ℕ
type_fight = 4

abbrev pub type_trap : ℕ
type_trap = 5

abbrev pub type_heal : ℕ
type_heal = 7

abbrev pub type_backward : ℕ
type_backward = 10

abbrev pub type_transport : ℕ
type_transport = 16

-- special_item_id_dice and special_item_id_nowar
abbrev pub item_dice : ℕ
item_dice = 60001

abbrev pub item_nowar : ℕ
item_nowar = 60002

-- struct instance_node
pub record InstanceNode : Type 0 where
  pub id : ℕ
  pub seq_id : ℕ
  pub action : ℕ
  pub up_pos : Option ℕ
  pub down_pos : Option ℕ
  pub left_pos : Option ℕ
  pub right_pos : Option ℕ

-- The nodes of an INSTANCE: all cells of the array, and how many are in use.
pub record Board : Type 0 where
  pub node : List InstanceNode
  pub node_num : ℕ

-- struct instance_data of a role
pub record InstanceData : Type 0 where
  pub state : ℕ
  pub action : ℕ
  pub seq_id : ℕ
  pub dice : ℕ
  pub special_dice : ℕ
  pub nowar_times : ℕ
  pub back_steps : ℕ

-- get_instance_node_type
abbrev pub get_instance_node_type : ℕ → ℕ
get_instance_node_type action = action / 65536 % 256

-- handle_rand_dice_request: the role's data, and the number that is sent.
pub handle_rand_dice_request : ℕ → InstanceData → Code × InstanceData × Option ℕ
handle_rand_dice_request rand r =
    if ltb 0 r.dice
    then (err 10, r, none)
    else if ltb 0 r.special_dice
    then (ok 0, record r { dice = r.special_dice; special_dice = 0 }, some r.special_dice)
    else (ok 0, record r { dice = rand }, some rand)

-- The loop of search_instance_node_byid
unfoldable pub search_node : List InstanceNode → ℕ → Option InstanceNode
search_node [] id = none
search_node (n ∷ ns) id = if n.id == id then some n else search_node ns id

-- search_instance_node_byid; the id of the request has 32 bits, and that of the function 16.
pub search_instance_node_byid : Board → ℕ → Option InstanceNode
unfolding search_node
search_instance_node_byid b id = search_node (take b.node_num b.node) (id % u16_mod)

-- One direction of get_instance_next_node_byid: the node there, if it has the id.
unfoldable pub try_pos : List InstanceNode → Option ℕ → ℕ → Option (Option InstanceNode)
try_pos nodes none id = some none
try_pos nodes (some pos) id =
    get_elem? nodes pos >>= λ n. some (if n.id == id then some n else none)

-- The directions one after the other, until one has the id.
unfoldable pub try_all : List InstanceNode → List (Option ℕ) → ℕ → Option (Option InstanceNode)
unfolding try_pos
try_all nodes [] id = some none
try_all nodes (p ∷ ps) id =
    let rest = try_all nodes ps id in
    elim (try_pos nodes p id) [ none ↦ none | some none ↦ rest | some (some n) ↦ some (some n) ]

abbrev pub exits : InstanceNode → List (Option ℕ)
exits n = n.up_pos ∷ n.down_pos ∷ n.left_pos ∷ n.right_pos ∷ []

-- get_instance_next_node_byid, where the id is cut to 16 bits too.
pub get_instance_next_node_byid : Board → InstanceNode → ℕ → Option (Option InstanceNode)
unfolding try_all
get_instance_next_node_byid b cur id = try_all b.node (exits cur) (id % u16_mod)

-- get_node_path_num
pub get_node_path_num : InstanceNode → ℕ
get_node_path_num n = count (exits n)
  where
    count : List (Option ℕ) → ℕ
    count [] = 0
    count (none ∷ ps) = count ps
    count (some p ∷ ps) = suc (count ps)

-- The loop of handle_instance_move_request over the ids that are left: the error or 0, the dice, and
-- the node reached.
unfoldable pub move_loop : Board → ℕ → List ℕ → InstanceNode → ℕ → Option (Code × ℕ × InstanceNode)
unfolding search_instance_node_byid get_instance_next_node_byid
move_loop b n_id [] node dice = some (ok 0, dice, node)
move_loop b n_id (id ∷ ids) node dice =
    let here = search_instance_node_byid b id in
    let next = get_instance_next_node_byid b node id in
    if get_instance_node_type node.action == type_transport
    then (if not (length ids == 0) then some (err 30, dice, node) else elim here [
      | none ↦ some (err 40, n_id % u8_mod, node)
      | some node' ↦ some (ok 0, n_id % u8_mod, node')
    ])
    else elim next [
      | none ↦ none
      | some none ↦ some (err 50, dice, node)
      | some (some node') ↦ move_loop b n_id ids node' dice
    ]

-- The end of handle_instance_move_request.
unfoldable pub finish_move : InstanceData → ℕ → Code × ℕ × InstanceNode → Code × InstanceData
finish_move r n_id (err e, dice, node) = (err e, record r { dice = dice })
finish_move r n_id (ok z, dice, node) =
    if ltb dice n_id then (err 60, record r { dice = dice }) else (
      ok 0,
      record r { dice = (dice + u8_mod - n_id) % u8_mod; seq_id = node.seq_id; action = 1 },
    )

-- handle_instance_move_request on a request with these ids.
pub handle_instance_move_request : Board → InstanceData → List ℕ → Option (Code × InstanceData)
unfolding move_loop finish_move
handle_instance_move_request b r ids =
    if length ids == 0
    then some (err 20, r)
    else (get_elem? b.node r.seq_id >>= λ node.
        move_loop b (length ids) ids node r.dice >>= λ m. some (finish_move r (length ids) m))

-- do_instance_use_item
pub do_instance_use_item : InstanceData → ℕ → ℕ → Code × InstanceData
do_instance_use_item r item_id item_param =
    if item_id == item_dice
    then (ok 0, record r { dice = item_param % u8_mod })
    else if item_id == item_nowar
    then (ok 0, record r { nowar_times = 3 })
    else (err 1, r)

-- The columns that are read of CFGMAPFUNCTION.
pub record CfgMapFunction : Type 0 where
  pub drop : List ℕ
  pub hp : ℕ
  pub move : ℕ

-- What do_instance_action has other parts of the server do.
pub data Effect : Type 0 where
  give_drop : ℕ → Effect
  kill_monster : ℕ → Effect
  fight_notify : Effect
  modify_hp : ℕ → Effect
  backward_notify : ℕ → Effect

-- A fight: no result, or whether the role won.
abbrev pub rewards : Option Bool → CfgMapFunction → ℕ → List Effect
rewards (some true) func action = map give_drop func.drop ++ (kill_monster action ∷ [])
rewards (some false) func action = []
rewards none func action = []

abbrev pub notified : Option Bool → List Effect
notified none = []
notified (some won) = fight_notify ∷ []

-- The cases of do_instance_action: whether the node is used up, the data and the effects.
pub act : Option Bool → ℕ → CfgMapFunction → ℕ → InstanceData → Bool × InstanceData × List Effect
act fight type func action r =
    if type == type_boss
    then (
      true,
      elim fight [ some true ↦ record r { state = 1 } | some false ↦ r | none ↦ r ],
      rewards fight func action ++ notified fight,
    )
    else if type == type_fight
    then (true, r, if r.nowar_times == 0 then rewards fight func action ++ notified fight else [])
    else if (type == type_heal) || (type == type_trap)
    then (true, r, modify_hp func.hp ∷ [])
    else if type == type_backward
    then (
      true,
      record r { back_steps = func.move % u8_mod; dice = func.move % u8_mod },
      backward_notify func.move ∷ [],
    )
    else if type == type_transport
    then (false, r, [])
    else (true, r, [])

-- The label `done` of do_instance_action.
abbrev pub one_war_less : InstanceData → InstanceData
one_war_less r = if r.nowar_times == 0 then r else record r { nowar_times = r.nowar_times - 1 }

-- do_instance_action; `func` is the row that get_instance_function_byid finds.
pub do_instance_action :
    Option Bool
    → Option CfgMapFunction
    → ℕ
    → InstanceNode
    → InstanceData
    → InstanceData × InstanceNode × List Effect
unfolding act
do_instance_action fight func type node r =
    if type == type_null then (one_war_less r, node, []) else elim func [
      | none ↦ (one_war_less r, node, [])
      | some f ↦
          let (used, r', effects) = act fight type f node.action r in
          if used
          then (
            one_war_less (record r' { action = 0 }),
            record node { action = type_null },
            effects,
          )
          else (one_war_less r', node, effects)
    ]

-- handle_instance_stop_request: whether the answer says that a fight begins, if there is one.
pub handle_instance_stop_request :
    Option Bool
    → (ℕ → Option CfgMapFunction)
    → Board
    → InstanceData
    → Option (Code × Option Bool × InstanceData × Board × List Effect)
unfolding get_node_path_num do_instance_action
handle_instance_stop_request fight config b r = get_elem? b.node r.seq_id >>= λ node.
    let r1 = if leb (get_node_path_num node) 1 then record r { dice = 0 } else r in
    let type = get_instance_node_type node.action in
    let (r2, node', effects) = do_instance_action fight (config node.action) type node r1 in
    some (
      if not (r1.dice == 0) then (err 10, none, r1, b, []) else (
        ok 0,
        some ((r1.nowar_times == 0) && ((type == type_fight) || (type == type_boss))),
        r2,
        record b { node = set b.node r.seq_id node' },
        effects,
      ))
