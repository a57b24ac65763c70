-- ===== src/Equip/History.antt =====
-- Any number of requests to change the equipment.
use txgg.Base.{
  ℕ, ◌≤◌, ◌≢◌, ◌⊎◌, inl, inr, Option, none, some, List, [], ◌∷◌, arith, ◌>>=◌, Code, ok, err,
}
use txgg.Container.Invariant.{IsValid}
use txgg.Equip.{ItemType, EquipRole, EquipChangeRequest, handle_equip_change_request}
use txgg.Equip.Totals.{owned, InRange}
use txgg.Equip.Change.{Answers, handle_equip_change_request-Answers}

-- Some request names a friend or a place of the body out of range.
abbrev pub Strays : List (Option EquipChangeRequest) → Type 0
Strays [] = ⊥
Strays (none ∷ reqs) = Strays reqs
Strays (some req ∷ reqs) = (¬ InRange req.friend_pos req.equip_pos) ⊎ Strays reqs

Strays-first :
    (req : Option EquipChangeRequest) (reqs : List (Option EquipChangeRequest))
    → Strays (req ∷ [])
    → Strays (req ∷ reqs)
Strays-first none reqs s = absurd s
Strays-first (some req) reqs (inl out) = inl out
Strays-first (some req) reqs (inr s) = absurd s

Strays-later :
    (req : Option EquipChangeRequest) (reqs : List (Option EquipChangeRequest))
    → Strays reqs
    → Strays (req ∷ reqs)
Strays-later none reqs s = s
Strays-later (some req) reqs s = inr s

abbrev pub NoMore : EquipRole → List (Option EquipChangeRequest) → Option EquipRole → Type 0
NoMore role reqs none = Strays reqs
NoMore role reqs (some role') = IsValid role'.bag × ((j : ℕ) → j ≢ 0 → owned role' j ≤ owned role j)

-- What one request leaves is no more than there was.
Less : EquipRole → Option EquipChangeRequest → Option (Code × EquipRole) → Type 0
Less role req none = Strays (req ∷ [])
Less role req (some (code, role')) =
    IsValid role'.bag × ((j : ℕ) → j ≢ 0 → owned role' j ≤ owned role j)

request-Less :
    (config : ℕ → Option ItemType) (role : EquipRole) (req : Option EquipChangeRequest)
    (r : Option (Code × EquipRole))
    → IsValid role.bag
    → Answers config role req r
    → Less role req r
unfolding Less
request-Less config role none r v a = rw a (v, λ j z. omega arith)
request-Less config role (some req) r v (inl (_, same)) = rw same (v, λ j z. omega arith)
request-Less config role (some req) none v (inr (_, a)) = inl a
request-Less config role (some req) (some (err n, role')) v (inr (_, a)) = absurd a
request-Less config role (some req) (some (ok n, role')) v (inr (_, (_, _, v', inl all))) =
    (v', λ j z. omega (arith, all j z))
request-Less config role (some req) (some (ok n, role')) v (inr (_, (_, _, v', inr (_, _, lost)))) =
    (v', λ j z. omega (arith, lost j z))

module _ (config : ℕ → Option ItemType) where
  -- The requests of a client, one after the other; `none` is a server that stopped.
  unfoldable pub run : EquipRole → List (Option EquipChangeRequest) → Option EquipRole
  run role [] = some role
  run role (req ∷ reqs) =
      handle_equip_change_request config role req >>= λ (code, role'). run role' reqs

  -- Whatever requests a client sends, and in whatever order: no item is ever duplicated, since the
  -- role ends with at most as many of it as it had, in the bag and on the team together, and
  -- ownership stays sound; the server stops only if a request names a friend or a place of the
  -- body out of range.
  pub run-NoMore :
      (role : EquipRole) (reqs : List (Option EquipChangeRequest))
      → IsValid role.bag
      → NoMore role reqs (run role reqs)
  unfolding run Less
  run-NoMore role [] v = (v, λ j z. omega arith)
  run-NoMore role (req ∷ reqs) v =
      next_request (handle_equip_change_request config role req)
        (request-Less config role req _ v (handle_equip_change_request-Answers config role req v))
        (λ role' v'. run-NoMore role' reqs v')
    where
      joined :
          (role' : EquipRole) (r : Option EquipRole)
          → ((j : ℕ) → j ≢ 0 → owned role' j ≤ owned role j)
          → NoMore role' reqs r
          → NoMore role (req ∷ reqs) r
      joined role' none less m = Strays-later req reqs m
      joined role' (some role'') less (v'', m) =
          (v'', λ j z. let a = less j z in let b = m j z in omega (arith, a, b))

      next_request :
          (r : Option (Code × EquipRole))
          → Less role req r
          → ((role' : EquipRole) → IsValid role'.bag → NoMore role' reqs (run role' reqs))
          → NoMore role (req ∷ reqs) (r >>= λ (code, role'). run role' reqs)
      next_request none less rest = Strays-first req reqs less
      next_request (some (code, role')) (v', less) rest =
          joined role' (run role' reqs) less (rest role' v')
