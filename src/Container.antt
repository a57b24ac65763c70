-- ===== src/Container.antt =====
-- server/game_srv/container.c and thing_obj.h: bags and stores. A slot of a container is an IDX, a
-- pointer with the pool index of what it points to; the things live in the pool of thing objects,
-- the store `Things`. A pointer is the pool index of its object, and `none` is NULL.
pub mod Slots
pub mod Invariant
pub mod Count
pub mod Lookup
pub mod Release
pub mod Remove
pub mod Swap
pub mod Steady
pub mod Restore
pub mod Plan
pub mod Resume
mod Tests
pub use txgg.Idx.{Idx, max_idx, null_idx, idx_of, update}
use txgg.Pool.{get_byidx}
use txgg.Base.{
  ℕ, zero, suc, ◌+◌, ◌-◌, ◌%◌, Bool, true, false, not, ◌&&◌, ◌||◌, Option, none, some, List, [],
  ◌∷◌, map, ◌&&◌, ltb, leb, ◌==◌, if◌then◌else◌, get_or, set, take, drop, Code, ok, err, u16_mod,
  u32_mod, add16,
}

-- struct thing_obj_struct
pub record ThingObj : Type 0 where
  pub guid : ℕ
  pub id : ℕ
  pub num : ℕ

-- The pool of thing objects: what each object holds, and the free objects, the next one first.
pub record Things : Type 0 where
  pub obj : ℕ → ThingObj
  pub free : List ℕ

-- struct container_struct
pub record Container : Type 0 where
  pub max_thing_num : ℕ
  pub things : List Idx

pub record Bag : Type 0 where
  pub container : Container
  pub store : Things

-- MAX_THING_OBJ_PER_CONTAINER
abbrev pub max_thing_obj_per_container : ℕ
max_thing_obj_per_container = 128

abbrev pub pointer_at : List Idx → ℕ → Option ℕ
pointer_at things pos = (get_or things pos null_idx).p

-- create_thing_obj takes the first free object, as it is; destory_thing_obj gives one back.
take_first : Things → List ℕ → Option (ℕ × Things)
take_first s [] = none
take_first s (t ∷ rest) = some (t, record s { free = rest })

pub create_thing_obj : Things → Option (ℕ × Things)
unfolding take_first
create_thing_obj s = take_first s s.free

pub destory_thing_obj : Things → ℕ → Things
destory_thing_obj s t = record s { free = t ∷ s.free }

-- set_container_thingobj
pub set_container_thingobj : Container → Option ℕ → ℕ → Container
set_container_thingobj c thing pos =
    if leb c.max_thing_num pos then c else record c { things = set c.things pos (idx_of thing) }

-- add_thing_bypos on a free slot, given what create_thing_obj returned.
place_new : Bag → ℕ → ℕ → ℕ → Option (ℕ × Things) → Code × Bag
unfolding set_container_thingobj
place_new b pos id num none = (err 1, b)
place_new b pos id num (some (t, s)) = (
  ok 0,
  record {
    container = set_container_thingobj b.container (some t) pos;
    store = record s { obj = update s.obj t (record (s.obj t) { id = id; num = num }) };
  },
)

-- add_thing_bypos on a slot that holds the thing `t`.
add_to_thing : Bag → ℕ → ℕ → ℕ → Code × Bag
add_to_thing b t id num =
    let thing = b.store.obj t in
    if thing.id == id
    then (
      ok 0,
      record b {
        store = record b.store {
          obj = update b.store.obj t (record thing { num = add16 thing.num num });
        };
      },
    )
    else (err 1, b)

-- add_thing_bypos
pub add_thing_bypos : Bag → ℕ → ℕ → ℕ → Code × Bag
unfolding place_new create_thing_obj add_to_thing
add_thing_bypos b pos id num =
    if leb b.container.max_thing_num pos
    then (err 1, b)
    else elim (pointer_at b.container.things pos) [
      | none ↦ place_new b pos id num (create_thing_obj b.store)
      | some t ↦ add_to_thing b t id num
    ]

-- delete_thing_bypos on the thing `t` of the slot, whose number covers `num`.
remove_from_thing : Bag → ℕ → ℕ → ℕ → Bag
unfolding destory_thing_obj
remove_from_thing b pos t num =
    let thing = b.store.obj t in
    let left = thing.num - num in
    let s = record b.store { obj = update b.store.obj t (record thing { num = left }) } in
    if left == 0
    then record {
      container = record b.container { things = set b.container.things pos null_idx };
      store = destory_thing_obj s t;
    }
    else record b { store = s }

-- delete_thing_bypos
pub delete_thing_bypos : Bag → ℕ → ℕ → Code × Bag
unfolding remove_from_thing
delete_thing_bypos b pos num =
    if leb b.container.max_thing_num pos
    then (err 1, b)
    else elim (pointer_at b.container.things pos) [
      | none ↦ (err 10, b)
      | some t ↦
          if ltb (b.store.obj t).num num then (err 10, b) else (ok 0, remove_from_thing b pos t num)
    ]

-- get_thingobj_bypos
pub get_thingobj_bypos : Bag → ℕ → Option ThingObj
get_thingobj_bypos b pos =
    if leb b.container.max_thing_num pos then none else elim (pointer_at b.container.things pos) [
      | none ↦ none
      | some t ↦ if (b.store.obj t).num == 0 then none else some (b.store.obj t)
    ]

-- swap_thing_pos
pub swap_thing_pos : Container → ℕ → ℕ → Code × Container
unfolding set_container_thingobj
swap_thing_pos c pos1 pos2 =
    if leb c.max_thing_num pos1
    then (err 1, c)
    else if leb c.max_thing_num pos2
    then (err 1, c)
    else let thing = pointer_at c.things pos1 in
      let c' = set_container_thingobj c (pointer_at c.things pos2) pos1 in
      (ok 0, set_container_thingobj c' thing pos2)

abbrev pub num_of : (ℕ → ThingObj) → ℕ → Option ℕ → ℕ
num_of obj id none = 0
num_of obj id (some t) = if (obj t).id == id then (obj t).num else 0

-- The loop of count_thing_num: a slot counts unless its index is MAX_IDX.
pub count_slots : (ℕ → ThingObj) → ℕ → List Idx → ℕ
count_slots obj id [] = 0
count_slots obj id (x ∷ xs) =
    (if x.idx == max_idx then 0 else num_of obj id x.p) + count_slots obj id xs

-- The assert in that loop: a slot that counts has a pointer.
pub slot_asserts : Idx → Bool
slot_asserts x = (x.idx == max_idx) || elim x.p [ none ↦ false | some t ↦ true ]

pub slots_assert : List Idx → Bool
unfolding slot_asserts
slots_assert [] = true
slots_assert (x ∷ xs) = slot_asserts x && slots_assert xs

-- Whether no assert of count_thing_num fails.
pub count_thing_num_asserts : Bag → Bool
unfolding slots_assert
count_thing_num_asserts b = slots_assert (take b.container.max_thing_num b.container.things)

-- count_thing_num of a bag for which its asserts hold: see count_thing_num_asserts.
pub count_thing_num : Bag → ℕ → ℕ
unfolding count_slots
count_thing_num b id =
    count_slots b.store.obj id (take b.container.max_thing_num b.container.things)

-- init_container_data clears every slot.
pub init_container_data : Container → Container
init_container_data c = record c { things = map (λ x. null_idx) c.things }

abbrev pub resume_slot : ℕ → Idx → Idx
resume_slot max x = if x.idx == max_idx then x else record x { p = get_byidx max x.idx }

-- The loop of resume_container_data: get_thing_obj_byidx of every index but MAX_IDX.
pub resume_slots : ℕ → ℕ → List Idx → List Idx
resume_slots max zero xs = xs
resume_slots max (suc n) [] = []
resume_slots max (suc n) (x ∷ xs) = resume_slot max x ∷ resume_slots max n xs

-- resume_container_data, in a game with `max` thing objects
pub resume_container_data : ℕ → Container → Container
unfolding resume_slots
resume_container_data max c = record c { things = resume_slots max c.max_thing_num c.things }
