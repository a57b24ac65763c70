-- ===== src/Container/Plan/Rollback.antt =====
-- What add_thing_list leaves behind.
use txgg.Base.{ℕ, ◌+◌, ◌%◌, ◌<◌, ◌≡◌, refl, ap, Option, List, [], ◌∷◌, arith, ok, err, u16_mod, ◌∙◌}
use txgg.Container.{Bag, add_thing_bypos, count_thing_num}
use txgg.Container.Invariant.{IsValid}
use txgg.Container.Count.{held, Adds, add_thing_bypos-Adds}
use txgg.Container.Plan.{Entry, ItemConfig, plan, add_all, roll_back, carry_out, add_thing_list}

roll_back_same : (j : ℕ) (b : Bag) (es : List Entry) → roll_back j b es ≡ b
unfolding roll_back
roll_back_same j b [] = refl
roll_back_same j b (e ∷ es) = ground arith

carry_out_all : (b : Bag) (es : List Entry) → carry_out b (ok 0, es) ≡ add_all b es
unfolding carry_out
carry_out_all b es = ground (arith, roll_back_same 0 (add_all b es).1 es)

-- Undoing does nothing: when the second pass fails at an entry, the bag that add_thing_list leaves
-- with its -30 is the bag with all entries before that one added.
pub add_thing_list_partial :
    (item_config : ℕ → Option ItemConfig) (b : Bag) (es : List Entry)
    → (plan item_config b es 0).0 ≡ ok 0
    → add_thing_list item_config b es ≡ add_all b (plan item_config b es 0).1
unfolding add_thing_list
add_thing_list_partial item_config b es h =
    ap (λ c. carry_out b (c, (plan item_config b es 0).1)) h
    ∙ carry_out_all b (plan item_config b es 0).1

module _ (item_config : ℕ → Option ItemConfig) (b b1 : Bag) (es : List Entry) (e1 e2 : Entry)
    (n : ℕ) where
  -- A list of two whose second entry cannot be added: add_thing_list returns -30 and the bag keeps
  -- the first item, its count grown by the amount.
  pub add_thing_list_leaks :
      IsValid b
      → held b e1.pos + e1.num < u16_mod
      → plan item_config b es 0 ≡ (ok 0, e1 ∷ e2 ∷ [])
      → add_thing_bypos b e1.pos e1.id e1.num ≡ (ok 0, b1)
      → add_thing_bypos b1 e2.pos e2.id (e2.num % u16_mod) ≡ (err n, b1)
      → (add_thing_list item_config b es ≡ (err 30, b1))
        × (count_thing_num b1 e1.id ≡ count_thing_num b e1.id + e1.num)
  unfolding add_all
  add_thing_list_leaks v small p h1 h2 =
      let fits : e1.num % u16_mod ≡ e1.num = omega arith in
      let a : Adds b e1.pos e1.id e1.num (ok 0, b1) =
        rw h1 at (add_thing_bypos-Adds b e1.pos e1.id e1.num v small) in
      (
        add_thing_list_partial item_config b es (ap (λ r. r.0) p)
            ∙ rw p (ground (arith, fits, h1, h2)),
        ground (arith, a.3 e1.id),
      )
