-- ===== src/SortArray/Tests.antt =====
-- Sorted arrays of numbers, and the theorems applied to them.
use txgg.Base.{ℕ, true, some, List, [], ◌∷◌, arith, refl, ◌≡◌, ok}
use txgg.SortArray.{
  Array, live, comp_uint, array_bsearch, array_insert, bsearch_loop, insert_found, make_room,
}
use txgg.SortArray.Order.{KeyOrder, comp_uint_lem}
use txgg.SortArray.Table.{lookup}
use txgg.SortArray.Update.{IsValid}
use txgg.SortArray.Keyed.{Request, insert, delete, Ran, run, run-Ran}

abbrev ids : KeyOrder ℕ
ids = record { compar = comp_uint; key = λ n. n; compar_lem = comp_uint_lem }

abbrev items : Array ℕ
items = record { mem = 3 ∷ 5 ∷ 9 ∷ 0 ∷ 0 ∷ []; nmemb = 3 }

items-IsValid : IsValid ids.key items
items-IsValid = record { sorted = (omega arith, (omega arith, tt)); fits = omega arith }

insert_seven :
    array_insert comp_uint 7 items true
    ≡ some (ok 2, record { mem = 3 ∷ 5 ∷ 7 ∷ 9 ∷ 0 ∷ []; nmemb = 4 })
unfolding array_insert array_bsearch comp_uint bsearch_loop insert_found make_room
insert_seven = refl

abbrev history : List (Request ℕ)
history = insert 7 ∷ delete 3 ∷ []

run-Ran_example : Ran ids (λ k. lookup ids.key k (live items)) history (run ids items history)
run-Ran_example =
    run-Ran ids items (λ k. lookup ids.key k (live items)) history (items-IsValid, λ k. refl)
      (omega arith)
