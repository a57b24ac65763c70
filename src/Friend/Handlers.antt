-- ===== src/Friend/Handlers.antt =====
-- server/game_srv/friend.c: the four request handlers. The role of the session and the unpacked
-- request are inputs (`none` where the lookup or the unpacking fails), and the packed response is
-- an output. Each handler packs the response before it stores the result in it.
pub mod Replies
use txgg.Base.{
  ℕ, ◌+◌, ◌*◌, ◌≡◌, refl, ap, Option, none, some, Code, ok, err, u32_mod, List, [], ◌∷◌,
}
use txgg.Friend.{
  GameFriend, FriendAddNotify, add_role_game_friend, del_role_game_friend, add_role_blacklist,
  del_role_blacklist,
}

-- FriendAddRequest and the three others, and their responses.
pub record FriendRequest : Type 0 where
  pub role_id : ℕ
  pub area_id : ℕ

pub record FriendResponse : Type 0 where
  pub result : Code
  pub role_id : ℕ
  pub area_id : ℕ

pub record Handled : Type 0 where
  pub returned : Code
  pub lists : Option GameFriend
  pub sent : Option FriendResponse
  pub notified : Option FriendAddNotify

-- ((uint64_t)area_id << 32) | role_id
unfoldable pub friend_key : FriendRequest → ℕ
friend_key req = req.area_id * u32_mod + req.role_id

-- friend_add_response__init and the assignments of the two ids.
abbrev pub new_response : Option FriendRequest → FriendResponse
new_response none = record { result = ok 0; role_id = 0; area_id = 0 }
new_response (some req) = record { result = ok 0; role_id = req.role_id; area_id = req.area_id }

module _ (get_role_by_id : ℕ → Option ℕ) (self : ℕ) where
  add_request : GameFriend → Option FriendRequest → Handled
  unfolding friend_key
  add_request g none = record {
    returned = err 10;
    lists = some g;
    sent = some (new_response none);
    notified = none;
  }
  add_request g (some req) =
      let (ret, g', note) = add_role_game_friend get_role_by_id self g (friend_key req) in
      record {
        returned = ret;
        lists = some g';
        sent = some (new_response (some req));
        notified = note;
      }

  pub handle_friend_add_request : Option GameFriend → Option FriendRequest → Handled
  unfolding add_request
  handle_friend_add_request none req = record {
    returned = err 1;
    lists = none;
    sent = none;
    notified = none;
  }
  handle_friend_add_request (some g) req = add_request g req

-- The part that the other three share: `ret` on a request that does not unpack, and the list
-- operation.
other_request :
    ℕ → (GameFriend → ℕ → Code × GameFriend) → Option GameFriend → Option FriendRequest → Handled
unfolding friend_key
other_request bad op none req = record {
  returned = err 1;
  lists = none;
  sent = none;
  notified = none;
}
other_request bad op (some g) none = record {
  returned = err bad;
  lists = some g;
  sent = some (new_response none);
  notified = none;
}
other_request bad op (some g) (some req) =
    let (ret, g') = op g (friend_key req) in
    record {
      returned = ret;
      lists = some g';
      sent = some (new_response (some req));
      notified = none;
    }

pub handle_friend_del_request : Option GameFriend → Option FriendRequest → Handled
unfolding other_request
handle_friend_del_request = other_request 15 del_role_game_friend

pub handle_friend_add_blacklist_request : Option GameFriend → Option FriendRequest → Handled
unfolding other_request
handle_friend_add_blacklist_request = other_request 10 add_role_blacklist

pub handle_friend_del_blacklist_request : Option GameFriend → Option FriendRequest → Handled
unfolding other_request
handle_friend_del_blacklist_request = other_request 10 del_role_blacklist
