-- ===== src/Friend/Tests.antt =====
-- A role with two friends and one banned role, and the theorems applied to it.
use txgg.Base.{
  ℕ, zero, suc, ◌+◌, ◌≡◌, ◌≢◌, refl, true, false, Option, none, some, List, [], ◌∷◌, arith, length,
  ◌==◌, replicate, inl, inr,
}
use txgg.Friend.{GameFriend}
use txgg.Friend.Slots.{Zeros, Compact, holds}
use txgg.Friend.Invariant.{
  IsValid, Request, friend_add, friend_del, blacklist_add, run, run-IsValid,
}
use txgg.Friend.Handlers.{FriendRequest}

abbrev role_of : ℕ → ℕ → GameFriend
role_of n m = record { friend = 7 ∷ 9 ∷ replicate n 0; blacklist = 4 ∷ replicate m 0 }

-- Only the role 9 is online.
abbrev online : ℕ → Option ℕ
online id = elim (id == 9) [ true ↦ some 33 | false ↦ none ]

abbrev request : FriendRequest
request = record { role_id = 9; area_id = 0 }

zeros : (n : ℕ) → Zeros (replicate n 0)
zeros zero = tt
zeros (suc n) = (refl, zeros n)

compact : (n : ℕ) → Compact (replicate n 0)
compact zero = tt
compact (suc n) = inl (refl, zeros n)

length-replicate : (n : ℕ) → length {A = ℕ} (replicate n 0) ≡ n
length-replicate zero = refl
length-replicate (suc n) = omega (arith, length-replicate n)

holds-replicate : (j n : ℕ) → j ≢ 0 → holds j (replicate n 0) ≡ false
holds-replicate j zero h = refl
holds-replicate j (suc n) h = ground (arith, holds-replicate j n h)

role_of-IsValid : (n m : ℕ) → n + 2 ≡ 256 → m + 1 ≡ 256 → IsValid (role_of n m)
role_of-IsValid n m e e' = record {
  friends = inr (
    omega arith,
    ground (arith, holds-replicate 7 n),
    inr (omega arith, holds-replicate 9 n (omega arith), compact n),
  );
  banned = inr (omega arith, holds-replicate 4 m (omega arith), compact m);
  apart = λ j h q. ground (arith, holds-replicate j n h, holds-replicate j m h);
  friends_len = omega (arith, length-replicate n);
  banned_len = omega (arith, length-replicate m);
}

abbrev history : List Request
history = friend_add 4 ∷ blacklist_add 7 ∷ friend_del 9 ∷ blacklist_add 4 ∷ []

run-IsValid_example : IsValid (run online 1 (role_of 254 255) history)
run-IsValid_example =
    run-IsValid online 1 (role_of 254 255) history (role_of-IsValid 254 255 refl refl)

few-Compact : Compact (7 ∷ 9 ∷ 0 ∷ 0 ∷ [])
few-Compact = inr (omega arith, refl, inr (omega arith, refl, inl (refl, (refl, tt))))
