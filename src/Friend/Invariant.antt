-- ===== src/Friend/Invariant.antt =====
-- The two lists of a role over any history of requests.
use mathlib.Core.Option
use txgg.Base.{
  ℕ, ◌≤◌, ◌≡◌, ◌≢◌, ◌⊎◌, inl, inr, refl, ap, Bool, false, ◌∙◌, true, false, ◌||◌, Option, none,
  some, List, [], ◌∷◌, arith, ◌==◌, if◌then◌else◌, length, Code, ok, err, Bool-cases, ◌/◌, ◌%◌,
  u32_mod,
}
use txgg.Friend.{
  GameFriend, FriendAddNotify, add_id, count_ids, del_role_game_friend, del_role_blacklist,
  added_friend, added_blacklist, notify_friend, add_role_game_friend, add_role_blacklist,
}
use txgg.Friend.Slots.{
  holds, Compact, add_id-taken, holds-del_id, del_id-Compact, length-del_id, add_id-fresh,
  add_id-Grown, count_ids-le,
}

abbrev pub max_game_friend : ℕ
max_game_friend = 256

pub record IsValid (g : GameFriend) : Type 0 where
  pub friends : Compact g.friend
  pub banned : Compact g.blacklist
  pub apart : (j : ℕ) → j ≢ 0 → holds j g.friend ≡ true → holds j g.blacklist ≡ false
  pub friends_len : length g.friend ≡ max_game_friend
  pub banned_len : length g.blacklist ≡ max_game_friend

pub del_role_game_friend-IsValid :
    (g : GameFriend) (id : ℕ) → IsValid g → IsValid (del_role_game_friend g id).1
unfolding del_role_game_friend
del_role_game_friend-IsValid g id v = record {
  friends = del_id-Compact id g.friend v.friends;
  banned = v.banned;
  apart = λ j h e. v.apart j h (ground (arith, holds-del_id j id g.friend v.friends h));
  friends_len = length-del_id id g.friend ∙ v.friends_len;
  banned_len = v.banned_len;
}

pub del_role_blacklist-IsValid :
    (g : GameFriend) (id : ℕ) → IsValid g → IsValid (del_role_blacklist g id).1
unfolding del_role_blacklist
del_role_blacklist-IsValid g id v = record {
  friends = v.friends;
  banned = del_id-Compact id g.blacklist v.banned;
  apart = λ j h e. ground (arith, v.apart j h e, holds-del_id j id g.blacklist v.banned h);
  friends_len = v.friends_len;
  banned_len = length-del_id id g.blacklist ∙ v.banned_len;
}

module _ (g : GameFriend) (id : ℕ) (v : IsValid g) where
  added_friend-IsValid :
      (r : Code × List ℕ) → add_id id g.friend ≡ r → IsValid (added_friend g id r).1
  unfolding added_friend
  added_friend-IsValid (err n, xs) e = v
  added_friend-IsValid (ok n, xs) e =
      let a = add_id-Grown id g.friend n xs v.friends e in
      record {
        friends = a.compact;
        banned = del_id-Compact id g.blacklist v.banned;
        apart = λ j h t.
            ground (arith, v.apart j h, a.held j h, holds-del_id j id g.blacklist v.banned h);
        friends_len = a.len ∙ v.friends_len;
        banned_len = length-del_id id g.blacklist ∙ v.banned_len;
      }

  added_blacklist-IsValid :
      (r : Code × List ℕ) → add_id id g.blacklist ≡ r → IsValid (added_blacklist g id r).1
  unfolding added_blacklist
  added_blacklist-IsValid (err n, xs) e = v
  added_blacklist-IsValid (ok n, xs) e =
      let a = add_id-Grown id g.blacklist n xs v.banned e in
      record {
        friends = del_id-Compact id g.friend v.friends;
        banned = a.compact;
        apart = λ j h t.
            ground (arith, v.apart j h, a.held j h, holds-del_id j id g.friend v.friends h);
        friends_len = length-del_id id g.friend ∙ v.friends_len;
        banned_len = a.len ∙ v.banned_len;
      }

-- The requests of server/game_srv/friend.c, each with the id that it carries.
pub data Request : Type 0 where
  friend_add friend_del blacklist_add blacklist_del : ℕ → Request

module _ (get_role_by_id : ℕ → Option ℕ) (self : ℕ) where
  pub step : GameFriend → Request → GameFriend
  step g (friend_add id) = (add_role_game_friend get_role_by_id self g id).1
  step g (friend_del id) = (del_role_game_friend g id).1
  step g (blacklist_add id) = (add_role_blacklist g id).1
  step g (blacklist_del id) = (del_role_blacklist g id).1

  pub run : GameFriend → List Request → GameFriend
  run g [] = g
  run g (r ∷ rs) = run (step g r) rs

  step-IsValid : (g : GameFriend) (r : Request) → IsValid g → IsValid (step g r)
  unfolding step add_role_game_friend add_role_blacklist
  step-IsValid g (friend_add id) v = added_friend-IsValid g id v _ refl
  step-IsValid g (friend_del id) v = del_role_game_friend-IsValid g id v
  step-IsValid g (blacklist_add id) v = added_blacklist-IsValid g id v _ refl
  step-IsValid g (blacklist_del id) v = del_role_blacklist-IsValid g id v

  -- Over any history of requests, with any ids, both lists keep their ids distinct and in front of
  -- the free slots, no id is ever in both, and the arrays keep their length of 256.
  pub run-IsValid : (g : GameFriend) (rs : List Request) → IsValid g → IsValid (run g rs)
  unfolding run
  run-IsValid g [] v = v
  run-IsValid g (r ∷ rs) v = run-IsValid (step g r) rs (step-IsValid g r v)

-- The id is in the list; 0 is no id.
abbrev pub listed : ℕ → List ℕ → Bool
listed j xs = if j == 0 then false else holds j xs

-- What add_role_game_friend does, on each way out.
abbrev pub Befriends :
    (ℕ → Option ℕ) → ℕ → GameFriend → ℕ → Code × GameFriend × Option FriendAddNotify → Type 0
Befriends get_role_by_id self g id (ok n, g', note) =
    (n ≡ 0)
    × (holds id g.friend ≡ false)
    × ((j : ℕ) → listed j g'.friend ≡ (id == j || listed j g.friend))
    × ((j : ℕ) → listed j g'.blacklist ≡ (if id == j then false else listed j g.blacklist))
    × (note
        ≡ Option.map (λ fd. record { role_id = self % u32_mod; area_id = self / u32_mod; fd = fd })
            (get_role_by_id id))
Befriends get_role_by_id self g id (err n, g', note) =
    ((n ≡ (if holds id g.friend then 1 else 10)))
    × ((holds id g.friend ≡ true) ⊎ (count_ids g.friend ≡ max_game_friend))
    × (g' ≡ g)
    × (note ≡ none)

add_id-refused :
    (id : ℕ) (xs : List ℕ) (n : ℕ)
    → Compact xs
    → id ≢ 0
    → (add_id id xs).0 ≡ err n
    → (n ≡ (if holds id xs then 1 else 10)) × ((holds id xs ≡ true) ⊎ (length xs ≤ count_ids xs))
add_id-refused id xs n c h e = elim (Bool-cases (holds id xs)) [
  | inl t ↦ rw t (ground (arith, add_id-taken id xs c h t), inl refl)
  | inr f ↦
      rw f (ground (arith, add_id-fresh id xs h f), inr (ground (arith, add_id-fresh id xs h f)))
]

module _ (get_role_by_id : ℕ → Option ℕ) (self : ℕ) (g : GameFriend) (id : ℕ) where
  befriends :
      (r : Code × List ℕ)
      → IsValid g
      → id ≢ 0
      → add_id id g.friend ≡ r
      → let (code, g') = added_friend g id r in
        Befriends get_role_by_id self g id (code, g', notify_friend get_role_by_id self id code)
  unfolding added_friend notify_friend
  befriends (ok n, xs) v h e =
      let a = add_id-Grown id g.friend n xs v.friends e in
      (
        a.code,
        a.fresh,
        λ j. ground (arith, a.held j, h),
        λ j. ground (arith, holds-del_id j id g.blacklist v.banned, h),
        notified (get_role_by_id id),
      )
    where
      notified :
          (o : Option ℕ)
          → ◌≡◌ {A = Option FriendAddNotify}
              (elim o [
                | none ↦ none
                | some fd ↦
                    some (record { role_id = self % u32_mod; area_id = self / u32_mod; fd = fd })
              ])
              (Option.map
                (λ fd. record { role_id = self % u32_mod; area_id = self / u32_mod; fd = fd })
                o)
      notified none = refl
      notified (some fd) = refl
  befriends (err n, xs) v h e =
      let (why, full) = add_id-refused id g.friend n v.friends h (ap (λ r. r.0) e) in
      (why, ground (arith, count_ids-le g.friend, v.friends_len), refl, refl)

  -- Adding a friend succeeds on an id that is no friend while there is room: it joins the friends,
  -- leaves the blacklist, nothing else changes in either, and the friend is told if it is online.
  -- Otherwise nothing changes and nobody is told: -1 for a friend, -10 for a full list of 256.
  pub add_role_game_friend-Befriends :
      IsValid g
      → id ≢ 0
      → Befriends get_role_by_id self g id (add_role_game_friend get_role_by_id self g id)
  unfolding add_role_game_friend
  add_role_game_friend-Befriends v h = befriends (add_id id g.friend) v h refl

  taken :
      (r : Code × List ℕ)
      → r.0 ≡ err 1
      → let (code, g') = added_friend g id r in
        (code ≡ err 1) × (g' ≡ g) × (notify_friend get_role_by_id self id code ≡ none)
  unfolding added_friend notify_friend
  taken (ok n, xs) e = cc
  taken (err n, xs) e = (e, refl, refl)

  pub add_role_game_friend-taken :
      IsValid g
      → id ≢ 0
      → holds id g.friend ≡ true
      → let (code, g', note) = add_role_game_friend get_role_by_id self g id in
        (code ≡ err 1) × (g' ≡ g) × (note ≡ none)
  unfolding add_role_game_friend
  add_role_game_friend-taken v h t =
      taken (add_id id g.friend) (add_id-taken id g.friend v.friends h t)
