-- ===== src/Equip.antt =====
-- The change of equipment: handle_equip_change_request of server/game_srv/handle_conn_msg.c with
-- get_role_equip_id and set_role_equip_id of role.c. A thing of the bag changes places with what a
-- member of the team wears. An `int` or `int32_t` is its bit pattern of 32 bits.
pub mod Exchange
pub mod Totals
pub mod Change
pub mod History
mod Tests
use txgg.Base.{
  ℕ, ◌%◌, ◌^◌, Bool, true, false, not, ◌||◌, Option, none, some, ltb, leb, ◌==◌, ◌>>=◌,
  if◌then◌else◌, Code, ok, err, u8_mod,
}
use txgg.Container.{
  ThingObj, Bag, update, pointer_at, get_thingobj_bypos, add_thing_bypos, delete_thing_bypos,
}

abbrev pub max_friend_per_role : ℕ
max_friend_per_role = 32

abbrev pub max_equip_per_role : ℕ
max_equip_per_role = 8

-- The part of CFGITEM that is read here.
pub record ItemType : Type 0 where
  pub item_type : ℕ

-- EquipChangeRequest
pub record EquipChangeRequest : Type 0 where
  pub equip_pos : ℕ
  pub friend_pos : ℕ
  pub bag_pos : ℕ

-- The part of ROLE that is used here: `equip friend_pos equip_pos` is
-- one_role[friend_pos].equip[equip_pos], and 0 where nothing is worn.
pub record EquipRole : Type 0 where
  pub bag : Bag
  pub equip : ℕ → ℕ → ℕ

-- pos < 0 || pos >= max
abbrev pub out_of_range : ℕ → ℕ → Bool
out_of_range max pos = leb (2 ^ 31) pos || leb max pos

pub get_role_equip_id : EquipRole → ℕ → ℕ → ℕ
get_role_equip_id role friend_pos equip_pos =
    if out_of_range max_friend_per_role friend_pos
    then 0
    else if out_of_range max_equip_per_role equip_pos
    then 0
    else role.equip friend_pos equip_pos

-- set_role_equip_id; `none` is an assert that fails.
pub set_role_equip_id : EquipRole → ℕ → ℕ → ℕ → Option EquipRole
set_role_equip_id role friend_pos equip_pos new_equip_id =
    if out_of_range max_friend_per_role friend_pos || out_of_range max_equip_per_role equip_pos
    then none
    else some (record role {
      equip = update role.equip friend_pos (update (role.equip friend_pos) equip_pos new_equip_id);
    })

-- The test of the thing: it is a stack, has no row, or belongs on another place of the body.
pub refused : (ℕ → Option ItemType) → Option ThingObj → ℕ → Bool
refused get_item_config none equip_pos = false
refused get_item_config (some thing) equip_pos =
    ltb 1 thing.num || elim (get_item_config thing.id) [
      | none ↦ true
      | some config ↦ not (config.item_type == equip_pos)
    ]

-- thing->id = equip_id
pub write_id : Bag → ℕ → ℕ → Bag
write_id b pos equip_id = elim (pointer_at b.container.things pos) [
  | none ↦ b
  | some t ↦ record b {
    store = record b.store {
      obj = update b.store.obj t (record (b.store.obj t) { id = equip_id });
    };
  }
]

-- What happens to the bag, and what is worn then; the results of the calls are not looked at.
pub exchange : Bag → ℕ → Option ThingObj → ℕ → Bag × ℕ
unfolding write_id
exchange b pos (some thing) equip_id =
    (if equip_id == 0 then (delete_thing_bypos b pos 1).1 else write_id b pos equip_id, thing.id)
exchange b pos none equip_id =
    (if equip_id == 0 then b else (add_thing_bypos b pos equip_id 1).1, 0)

-- handle_equip_change_request of a role that was found. A request that cannot be unpacked is
-- `none`; so is a result where the server fails an assert. The answer has the result that is
-- returned. The position in the bag is cut to 8 bits.
pub handle_equip_change_request :
    (ℕ → Option ItemType) → EquipRole → Option EquipChangeRequest → Option (Code × EquipRole)
unfolding get_role_equip_id set_role_equip_id refused exchange
handle_equip_change_request get_item_config role none = some (err 20, role)
handle_equip_change_request get_item_config role (some req) =
    let pos = req.bag_pos % u8_mod in
    let thing = get_thingobj_bypos role.bag pos in
    let equip_id = get_role_equip_id role req.friend_pos req.equip_pos in
    if refused get_item_config thing req.equip_pos
    then some (err 30, role)
    else let (bag, thing_id) = exchange role.bag pos thing equip_id in
      set_role_equip_id (record role { bag = bag }) req.friend_pos req.equip_pos thing_id
      >>= λ role'. some (ok 0, role')
