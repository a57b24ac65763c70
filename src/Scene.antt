-- ===== src/Scene.antt =====
-- server/game_srv/scene.c: the roles that are in a scene, an array sorted by pool index, and the
-- messages to them. A role is known here by its pool index; `session_of` gives the session of the
-- role object. What is sent is an output: one message for each connection server.
pub mod Members
pub mod Receivers
mod Tests
use txgg.Base.{
  ℕ, zero, suc, ◌+◌, ◌-◌, ◌*◌, ◌/◌, ◌%◌, Bool, true, false, not, ◌&&◌, Option, none, some, List, [],
  ◌∷◌, ltb, leb, ◌==◌, if◌then◌else◌, ◌>>=◌, length, Code, ok, err, u8_mod, u16_mod, add8,
}
use txgg.Idx.{Idx, max_idx, idx_of, update, comp_idx}
use txgg.Pool.{get_byidx}
use txgg.SortArray.{Array, live, array_insert, array_delete}

abbrev pub max_role_per_scene : ℕ
max_role_per_scene = 200

-- SCENE: num_roles is `roles.nmemb`.
pub record Scene : Type 0 where
  pub id : ℕ
  pub roles : Array Idx

-- init_scene_data
pub init_scene_data : Scene → Scene
init_scene_data s = record s { roles = record s.roles { nmemb = 0 } }

-- add_role_to_scene, up to the messages that tell the roles of each other. The code returns -2 where
-- array_insert refuses.
pub add_role_to_scene : Scene → ℕ → Option (Code × Scene)
add_role_to_scene s role =
    if leb max_role_per_scene s.roles.nmemb
    then some (err 1, s)
    else (array_insert comp_idx (idx_of (some role)) s.roles true >>= λ (code, roles).
        some (elim code [ ok n ↦ ok 0 | err n ↦ err 2 ], record s { roles = roles }))

-- del_role_from_scene, up to its message; the result of array_delete is not looked at.
pub del_role_from_scene : Option Scene → ℕ → Option (Option Scene)
del_role_from_scene none role = some none
del_role_from_scene (some s) role =
    array_delete comp_idx (idx_of (some role)) s.roles >>= λ (code, roles).
    some (some (record s { roles = roles }))

-- CONN_INDEX and ROLE_FD
abbrev pub conn_index : ℕ → ℕ
conn_index session = session / u16_mod % u8_mod

abbrev pub role_fd : ℕ → ℕ
role_fd session = session % u16_mod

-- The fields of the PROTO_HEAD_CONN_BROADCAST that is sent: the receivers behind the message.
pub record Broadcast : Type 0 where
  pub num_fd : ℕ
  pub len : ℕ
  pub fd : ℕ → ℕ

-- The loop over the roles: `wanted` is the test on a session, and broadcast_num has 8 bits.
pub collect : (ℕ → Bool) → List ℕ → (ℕ → ℕ) → ℕ → (ℕ → ℕ) × ℕ
collect wanted [] fd broadcast_num = (fd, broadcast_num)
collect wanted (session ∷ rest) fd broadcast_num =
    if wanted session
    then collect wanted rest (update fd broadcast_num (role_fd session)) (add8 broadcast_num 1)
    else collect wanted rest fd broadcast_num

-- What follows the loop.
pub finish : ℕ → (ℕ → ℕ) × ℕ → Option Broadcast
finish fd_offset (fd, broadcast_num) =
    if broadcast_num == 0
    then none
    else some (record { num_fd = broadcast_num; len = fd_offset + 2 * broadcast_num; fd = fd })

-- broadcast_to_scene_except and broadcast_to_scene, on the sessions of the roles in the scene;
-- `fd` is the send buffer behind the message.
pub broadcast_to_scene_except : List ℕ → ℕ → ℕ → (ℕ → ℕ) → ℕ → Option Broadcast
unfolding collect finish
broadcast_to_scene_except sessions except_session fd_offset fd srv_index =
    finish fd_offset
      (collect (λ s. (conn_index s == srv_index) && not (s == except_session)) sessions fd 0)

pub broadcast_to_scene : List ℕ → ℕ → (ℕ → ℕ) → ℕ → Option Broadcast
unfolding collect finish
broadcast_to_scene sessions fd_offset fd srv_index =
    finish fd_offset (collect (λ s. conn_index s == srv_index) sessions fd 0)
