-- ===== src/Friend.antt =====
-- server/game_srv/role.c, the friend list and the blacklist of a role: two arrays of role ids in
-- which the slot 0 marks the end. The list of a model value is the whole C array. A message that
-- is sent is an output; `get_role_by_id`, a search in the tree of the roles that are online, is a
-- parameter that gives the session's descriptor.
pub mod Slots
pub mod Invariant
pub mod Restore
pub mod Handlers
mod Tests
use txgg.Base.{
  ℕ, ◌+◌, ◌/◌, ◌%◌, Option, none, some, List, [], ◌∷◌, ◌==◌, if◌then◌else◌, Code, ok, err, u32_mod,
}

-- struct game_friend_data
pub record GameFriend : Type 0 where
  pub friend : List ℕ
  pub blacklist : List ℕ

-- The fields of the FriendAddNotify that the new friend gets, and where it is sent.
pub record FriendAddNotify : Type 0 where
  pub role_id : ℕ
  pub area_id : ℕ
  pub fd : ℕ

-- The scan of add_role_game_friend and add_role_blacklist: the first slot that holds the id or is
-- free decides. It returns -1 at the id, writes the id to a free slot, and returns -10 at the end.
pub add_id : ℕ → List ℕ → Code × List ℕ
add_id id [] = (err 10, [])
add_id id (x ∷ xs) =
    let (code, ys) = add_id id xs in
    if x == id then (err 1, x ∷ xs) else if x == 0 then (ok 0, id ∷ xs) else (code, x ∷ ys)

-- The loop that moves each slot one down and clears the last one.
pub shift_down : List ℕ → List ℕ
shift_down [] = []
shift_down (x ∷ []) = 0 ∷ []
shift_down (x ∷ y ∷ ys) = y ∷ shift_down (y ∷ ys)

-- del_role_game_friend and del_role_blacklist, on their array.
pub del_id : ℕ → List ℕ → Code × List ℕ
unfolding shift_down
del_id id [] = (err 1, [])
del_id id (x ∷ xs) =
    let (code, ys) = del_id id xs in
    if x == id
    then (ok 0, shift_down (x ∷ xs))
    else if x == 0
    then (err 1, x ∷ xs)
    else (code, x ∷ ys)

-- get_role_game_friend_num and get_role_game_blacklist_num, on their array.
pub count_ids : List ℕ → ℕ
count_ids [] = 0
count_ids (x ∷ xs) = if x == 0 then 0 else count_ids xs + 1

pub del_role_game_friend : GameFriend → ℕ → Code × GameFriend
del_role_game_friend g id = let (code, xs) = del_id id g.friend in (code, record g { friend = xs })

pub del_role_blacklist : GameFriend → ℕ → Code × GameFriend
del_role_blacklist g id =
    let (code, xs) = del_id id g.blacklist in (code, record g { blacklist = xs })

-- What the caller does after the scan succeeded: the id leaves the other list.
added_friend : GameFriend → ℕ → Code × List ℕ → Code × GameFriend
unfolding del_role_blacklist
added_friend g id (err n, xs) = (err n, g)
added_friend g id (ok n, xs) = (ok n, (del_role_blacklist (record g { friend = xs }) id).1)

added_blacklist : GameFriend → ℕ → Code × List ℕ → Code × GameFriend
unfolding del_role_game_friend
added_blacklist g id (err n, xs) = (err n, g)
added_blacklist g id (ok n, xs) = (ok n, (del_role_game_friend (record g { blacklist = xs }) id).1)

-- The notify that tells the other side, if it is online.
notify_friend : (ℕ → Option ℕ) → ℕ → ℕ → Code → Option FriendAddNotify
notify_friend get_role_by_id self id (err n) = none
notify_friend get_role_by_id self id (ok n) = elim (get_role_by_id id) [
  | none ↦ none
  | some fd ↦ some (record { role_id = self % u32_mod; area_id = self / u32_mod; fd = fd })
]

-- add_role_game_friend of the role `self`
pub add_role_game_friend :
    (ℕ → Option ℕ) → ℕ → GameFriend → ℕ → Code × GameFriend × Option FriendAddNotify
unfolding added_friend notify_friend
add_role_game_friend get_role_by_id self g id =
    let (code, g') = added_friend g id (add_id id g.friend) in
    (code, g', notify_friend get_role_by_id self id code)

pub add_role_blacklist : GameFriend → ℕ → Code × GameFriend
unfolding added_blacklist
add_role_blacklist g id = added_blacklist g id (add_id id g.blacklist)
