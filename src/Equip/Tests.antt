-- ===== src/Equip/Tests.antt =====
-- A role that wears a helmet, with a cap in the first slot of its bag, an empty second slot, and no
-- free object in the pool.
use txgg.Base.{ℕ, refl, Option, none, some, [], ◌∷◌, arith, ◌==◌, ◌&&◌, if◌then◌else◌}
use txgg.Container.{Bag, idx_of, null_idx}
use txgg.Container.Invariant.{IsValid}
use txgg.Equip.{ItemType, EquipRole, EquipChangeRequest, handle_equip_change_request}
use txgg.Equip.Change.{Answers, handle_equip_change_request-Answers}
use txgg.Equip.History.{run, NoMore, run-NoMore}

abbrev bag : Bag
bag = record {
  container = record { max_thing_num = 2; things = idx_of (some 0) ∷ null_idx ∷ [] };
  store = record { obj = λ t. record { guid = 7; id = 100; num = 1 }; free = [] };
}

-- The helmet, item 200, is on the place 2 of the role itself.
abbrev role : EquipRole
role = record { bag = bag; equip = λ f e. if f == 0 && e == 2 then 200 else 0 }

abbrev config : ℕ → Option ItemType
config id = some (record { item_type = 2 })

abbrev put_on : EquipChangeRequest
put_on = record { equip_pos = 2; friend_pos = 0; bag_pos = 0 }

abbrev take_off : EquipChangeRequest
take_off = record { equip_pos = 2; friend_pos = 0; bag_pos = 1 }

bag-IsValid : IsValid bag
bag-IsValid = record {
  slots = ((refl, omega arith, refl), (refl, tt));
  free = tt;
  apart = λ t e. refl;
  fits = omega arith;
}

handle_equip_change_request-Answers_example :
    Answers config role (some take_off) (handle_equip_change_request config role (some take_off))
handle_equip_change_request-Answers_example =
    handle_equip_change_request-Answers config role (some take_off) bag-IsValid

run-NoMore_example :
    NoMore role
      (some put_on ∷ none ∷ some take_off ∷ [])
      (run config role (some put_on ∷ none ∷ some take_off ∷ []))
run-NoMore_example = run-NoMore config role (some put_on ∷ none ∷ some take_off ∷ []) bag-IsValid
