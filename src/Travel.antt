-- ===== src/Travel.antt =====
-- Going into an instance and coming back: enter_instance, leave_instance and new_instance of
-- server/game_srv/instance.c and the two requests of handle_conn_msg.c, with the scenes that the
-- roles come from. Roles, scenes and instances are known by their pool indices. The three bytes
-- behind role_num, which array_insert reads with it, are 0.
pub mod Party
pub mod Places
pub mod Return
pub mod Enter
pub mod History
mod Tests
use txgg.Base.{
  ℕ, zero, ◌%◌, Bool, true, false, Option, none, some, List, [], ◌∷◌, leb, ◌==◌, ◌>>=◌,
  if◌then◌else◌, Code, ok, err, u16_mod,
}
use txgg.Idx.{Idx, idx_of, update, comp_idx}
use txgg.SortArray.{Array, array_insert, array_delete}
use txgg.Instance.{InstanceData}
use txgg.Scene.{Scene, add_role_to_scene, del_role_from_scene}

abbrev pub max_role_per_instance : ℕ
max_role_per_instance = 5

-- INSTANCE, without its nodes: role_num is `role.nmemb`.
pub record InstanceObj : Type 0 where
  pub id : ℕ
  pub role : Array Idx

-- What the requests touch: the scene, the instance and the instance_data of each role, the objects
-- of the two pools, and the free instances, the next one first.
pub record World : Type 0 where
  pub scene_of : ℕ → Option ℕ
  pub instance_of : ℕ → Option ℕ
  pub instance_data : ℕ → InstanceData
  pub scenes : ℕ → Scene
  pub instances : ℕ → InstanceObj
  pub free : List ℕ

-- What memset leaves.
abbrev pub zero_data : InstanceData
zero_data = record {
  state = 0;
  action = 0;
  seq_id = 0;
  dice = 0;
  special_dice = 0;
  nowar_times = 0;
  back_steps = 0;
}

-- The members of an instance become `role`.
abbrev pub set_roles : World → ℕ → Array Idx → World
set_roles w i role = record w {
  instances = update w.instances i (record (w.instances i) { role = role });
}

-- enter_instance, with the result of array_insert
pub after_entering : World → ℕ → ℕ → Code × Array Idx → Code × World
after_entering w role i (err n, members) = (err 10, set_roles w i members)
after_entering w role i (ok n, members) = (
  ok 0,
  record (set_roles w i members) {
    instance_of = update w.instance_of role (some i);
    instance_data = update w.instance_data role zero_data;
  },
)

-- enter_instance; `none` is the assert that the role is in no instance.
pub enter_instance : World → ℕ → ℕ → Option (Code × World)
unfolding after_entering
enter_instance w role i = elim (w.instance_of role) [
  | some j ↦ none
  | none ↦
      if leb max_role_per_instance (w.instances i).role.nmemb
      then some (err 1, w)
      else (array_insert comp_idx (idx_of (some role)) (w.instances i).role true >>= λ r.
          some (after_entering w role i r))
]

-- leave_instance, with the result of array_delete; the last role destroys the instance.
pub after_leaving : World → ℕ → ℕ → Code × Array Idx → Code × World
after_leaving w role i (err n, members) = (err 10, set_roles w i members)
after_leaving w role i (ok n, members) = (
  ok 0,
  record (set_roles w i members) {
    instance_of = update w.instance_of role none;
    free = if members.nmemb == 0 then i ∷ w.free else w.free;
  },
)

pub leave_instance : World → ℕ → ℕ → Option (Code × World)
unfolding after_leaving
leave_instance w role i = array_delete comp_idx (idx_of (some role)) (w.instances i).role >>= λ r.
    some (after_leaving w role i r)

-- new_instance on the free instances, without init_instance_by_config, which fills in the nodes.
pub take_instance : World → ℕ → List ℕ → Option (ℕ × World)
take_instance w id [] = none
take_instance w id (i ∷ rest) = some (
  i,
  record w {
    instances =
        update w.instances i
          (record { id = id % u16_mod; role = record (w.instances i).role { nmemb = 0 } });
    free = rest;
  },
)

pub new_instance : World → ℕ → Option (ℕ × World)
unfolding take_instance
new_instance w id = take_instance w id w.free

-- del_role_from_scene and add_role_to_scene on the scene `s` of the world.
pub leave_scene : World → ℕ → ℕ → Option World
leave_scene w role s = del_role_from_scene (some (w.scenes s)) role >>= λ o. elim o [
  | none ↦ some w
  | some scene ↦ some (record w { scenes = update w.scenes s scene })
]

pub after_joining : World → ℕ → ℕ → Code × Scene → Code × World
after_joining w role s (err n, scene) = (err n, record w { scenes = update w.scenes s scene })
after_joining w role s (ok n, scene) = (
  ok n,
  record w { scenes = update w.scenes s scene; scene_of = update w.scene_of role (some s) },
)

pub join_scene : World → ℕ → ℕ → Option (Code × World)
unfolding after_joining
join_scene w role s = add_role_to_scene (w.scenes s) role >>= λ r. some (after_joining w role s r)

-- handle_enter_instance_request once the instance `i` is made.
pub go_in : World → ℕ → ℕ → ℕ → Option (Code × World)
unfolding enter_instance leave_scene
go_in w role s i = enter_instance w role i >>= λ (code, w'). elim code [
  | err n ↦ some (err 60, w')
  | ok n ↦ leave_scene w' role s >>= λ w''. some (ok 0, w'')
]

-- handle_enter_instance_request for the role of the session, if there is one; a request that cannot
-- be unpacked is `none`. The code's -70 cannot happen, since del_role_from_scene returns 0 always.
pub handle_enter_instance_request : World → Option ℕ → Option ℕ → Option (Code × World)
unfolding new_instance go_in
handle_enter_instance_request w none req = some (err 10, w)
handle_enter_instance_request w (some role) none = some (err 15, w)
handle_enter_instance_request w (some role) (some instance_id) = elim (w.scene_of role) [
  | none ↦ some (err 20, w)
  | some s ↦ elim (w.instance_of role) [
    | some j ↦ some (err 30, w)
    | none ↦ elim (new_instance w instance_id) [
      | none ↦ some (err 50, w)
      | some (i, w') ↦ go_in w' role s i
    ]
  ]
]

-- handle_leave_instance_request once the role's scene and instance are known.
pub go_back : World → ℕ → ℕ → ℕ → Option (Code × World)
unfolding leave_instance join_scene
go_back w role s i = leave_instance w role i >>= λ (code, w'). elim code [
  | err n ↦ some (err 40, w')
  | ok n ↦ join_scene w' role s >>= λ (code', w''). elim code' [
    | err m ↦ some (err 50, w'')
    | ok m ↦ some (ok 0, w'')
  ]
]

-- handle_leave_instance_request for the role of the session, if there is one.
pub handle_leave_instance_request : World → Option ℕ → Option (Code × World)
unfolding go_back
handle_leave_instance_request w none = some (err 10, w)
handle_leave_instance_request w (some role) = elim (w.scene_of role) [
  | none ↦ some (err 20, w)
  | some s ↦ elim (w.instance_of role) [ none ↦ some (err 30, w) | some i ↦ go_back w role s i ]
]
