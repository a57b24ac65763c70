-- ===== src/Friend/Handlers/Replies.antt =====
-- What the client learns from the four responses, against what the handlers return.
use txgg.Base.{ℕ, ◌≡◌, ◌≢◌, refl, ap, Option, none, some, true, Code, ok, err}
use txgg.Friend.{GameFriend}
use txgg.Friend.Slots.{holds}
use txgg.Friend.Invariant.{IsValid, add_role_game_friend-taken}
use txgg.Friend.Handlers.{
  FriendRequest, FriendResponse, Handled, friend_key, handle_friend_add_request,
  handle_friend_del_request, handle_friend_add_blacklist_request,
  handle_friend_del_blacklist_request,
}

-- The result that a response carries, whatever handler sent it.
abbrev pub Sent : Option FriendResponse → Code → Type 0
Sent none c = Unit
Sent (some r) c = r.result ≡ c

abbrev pub Reports : Handled → Code → Type 0
Reports h c = Sent h.sent c

module _ (get_role_by_id : ℕ → Option ℕ) (self : ℕ) where
  -- No response of the four handlers ever carries anything but the result 0.
  pub replies_zero :
      (role : Option GameFriend) (req : Option FriendRequest)
      → Reports (handle_friend_add_request get_role_by_id self role req) (ok 0)
        × Reports (handle_friend_del_request role req) (ok 0)
        × Reports (handle_friend_add_blacklist_request role req) (ok 0)
        × Reports (handle_friend_del_blacklist_request role req) (ok 0)
  unfolding handle_friend_add_request handle_friend_del_request handle_friend_add_blacklist_request
      handle_friend_del_blacklist_request
  replies_zero none req = (tt, tt, tt, tt)
  replies_zero (some g) none = (refl, refl, refl, refl)
  replies_zero (some g) (some req) = (refl, refl, refl, refl)

  -- Asking for a friend that is one already: the handler returns -1 and changes nothing, and the
  -- client is told 0.
  pub refused_add_request :
      (g : GameFriend) (req : FriendRequest)
      → IsValid g
      → friend_key req ≢ 0
      → holds (friend_key req) g.friend ≡ true
      → let h = handle_friend_add_request get_role_by_id self (some g) (some req) in
        (h.returned ≡ err 1)
        × (h.lists ≡ some g)
        × (h.sent ≡ some (record { result = ok 0; role_id = req.role_id; area_id = req.area_id }))
  unfolding handle_friend_add_request
  refused_add_request g req v h t =
      let (code, same, note) =
        add_role_game_friend-taken get_role_by_id self g (friend_key req) v h t in
      (code, ap some same, refl)
