-- ===== src/Container/Tests.antt =====
-- A bag of four slots with one thing in it, and the theorems applied to it.
use txgg.Base.{take, ℕ, ◌+◌, ◌≡◌, refl, true, false, Option, some, List, [], ◌∷◌, arith, err, ◌==◌}
use txgg.Container.{
  Bag, idx_of, null_idx, update, add_thing_bypos, delete_thing_bypos, count_thing_num,
}
use txgg.Container.Invariant.{IsValid}
use txgg.Container.Count.{Adds, add_thing_bypos-Adds}
use txgg.Container.Release.{GotBack, destory_bag_things, destory_bag_things-GotBack}
use txgg.Container.Remove.{Deletes, delete_thing_bypos-Deletes}
use txgg.Container.Plan.{Entry, ItemConfig, add_thing_list, plan}
use txgg.Container.Plan.Rollback.{add_thing_list_leaks}

-- Five of the item 100 in the slot 1, and one free object.
abbrev bag : Bag
bag = record {
  container = record {
    max_thing_num = 4;
    things = null_idx ∷ idx_of (some 0) ∷ null_idx ∷ null_idx ∷ [];
  };
  store = record {
    obj = λ t. elim (t == 0) [
      | true ↦ record { guid = 11; id = 100; num = 5 }
      | false ↦ record { guid = 12; id = 0; num = 0 }
    ];
    free = 1 ∷ [];
  };
}

-- The bag when the slot 1 holds `n`.
abbrev fuller : ℕ → Bag
fuller n = record bag {
  store = record bag.store {
    obj = update bag.store.obj 0 (record { guid = 11; id = 100; num = n });
  };
}

-- The bag with two of the item 300 in the slot 0.
abbrev one_more : Bag
one_more = record {
  container = record bag.container {
    things = idx_of (some 1) ∷ idx_of (some 0) ∷ null_idx ∷ null_idx ∷ [];
  };
  store = record {
    obj = update bag.store.obj 1 (record { guid = 12; id = 300; num = 2 });
    free = [];
  };
}

bag-IsValid : IsValid bag
bag-IsValid = record {
  slots = (refl, ((refl, omega arith, refl), (refl, (refl, tt))));
  free = (omega arith, refl, tt);
  apart = λ t e. ground (arith, e);
  fits = omega arith;
}

add_thing_bypos-Adds_example : Adds bag 0 200 3 (add_thing_bypos bag 0 200 3)
add_thing_bypos-Adds_example = add_thing_bypos-Adds bag 0 200 3 bag-IsValid (omega arith)

delete_thing_bypos-Deletes_example : Deletes bag 1 5 (delete_thing_bypos bag 1 5)
delete_thing_bypos-Deletes_example = delete_thing_bypos-Deletes bag 1 5 bag-IsValid

-- Every item takes a slot of its own.
abbrev single : ℕ → Option ItemConfig
single id = some (record { stack_able = 1 })

abbrev first_entry : Entry
first_entry = record { id = 300; num = 2; pos = 0 }

abbrev second_entry : Entry
second_entry = record { id = 400; num = 1; pos = 2 }

abbrev wanted : List Entry
wanted = record first_entry { pos = 0 } ∷ record second_entry { pos = 0 } ∷ []

-- The pool has one free object, so the second entry finds a slot and no object.
add_thing_list_leaks_example :
    (add_thing_list single bag wanted ≡ (err 30, one_more))
    × (count_thing_num one_more 300 ≡ count_thing_num bag 300 + 2)
unfolding plan add_thing_bypos
add_thing_list_leaks_example =
    add_thing_list_leaks single bag one_more wanted first_entry second_entry 1 bag-IsValid
      (omega arith) refl refl refl

destory_bag_things-GotBack_example :
    GotBack (take 4 bag.container.things) bag.store (destory_bag_things bag)
destory_bag_things-GotBack_example = destory_bag_things-GotBack bag bag-IsValid
