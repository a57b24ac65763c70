-- ===== src/Container/Plan/Steady.antt =====
-- add_thing_list keeps a bag on which no assert fails.
use txgg.Base.{ℕ, ◌%◌, ◌+◌, true, false, Bool, List, [], ◌∷◌, Option, Code, ok, err, ltb, u16_mod}
use txgg.Container.{Bag, add_thing_bypos, delete_thing_bypos}
use txgg.Container.Steady.{
  IsSteady, LeavesSteady, add_thing_bypos-IsSteady, delete_thing_bypos-IsSteady,
}
use txgg.Container.Plan.{Entry, ItemConfig, plan, add_all, roll_back, carry_out, add_thing_list}

add_all-IsSteady : (b : Bag) (es : List Entry) → IsSteady b → LeavesSteady (add_all b es)
unfolding add_all
add_all-IsSteady b [] v = v
add_all-IsSteady b (e ∷ es) v =
    after (add_thing_bypos b e.pos e.id (e.num % u16_mod))
      (add_thing_bypos-IsSteady b e.pos e.id (e.num % u16_mod) v)
      (λ b' v'. add_all-IsSteady b' es v')
  where
    after :
        (r : Code × Bag)
        → LeavesSteady r
        → ((b' : Bag) → IsSteady b' → LeavesSteady (add_all b' es))
        → LeavesSteady (elim r.0 [ ok n ↦ add_all r.1 es | err n ↦ (err 30, r.1) ])
    after (ok n, b') s rest = rest b' s
    after (err n, b') s rest = s

roll_back-IsSteady : (j : ℕ) (b : Bag) (es : List Entry) → IsSteady b → IsSteady (roll_back j b es)
unfolding roll_back
roll_back-IsSteady j b [] v = v
roll_back-IsSteady j b (e ∷ es) v = under (ltb j j) (
    roll_back-IsSteady (j + 1) (delete_thing_bypos b e.pos (e.num % u16_mod)).1 es
      (delete_thing_bypos-IsSteady b e.pos (e.num % u16_mod) v))
  where
    under :
        (t : Bool)
        → IsSteady (roll_back (j + 1) (delete_thing_bypos b e.pos (e.num % u16_mod)).1 es)
        → IsSteady (elim t [
          | true ↦ roll_back (j + 1) (delete_thing_bypos b e.pos (e.num % u16_mod)).1 es
          | false ↦ b
        ])
    under true s = s
    under false s = v

carry_out-IsSteady : (b : Bag) (r : Code × List Entry) → IsSteady b → LeavesSteady (carry_out b r)
unfolding carry_out
carry_out-IsSteady b (err n, entries) v = v
carry_out-IsSteady b (ok n, entries) v = after (add_all b entries) (add_all-IsSteady b entries v)
  where
    after :
        (r : Code × Bag)
        → LeavesSteady r
        → LeavesSteady (elim r.0 [ ok m ↦ (ok m, r.1) | err m ↦ (err m, roll_back 0 r.1 entries) ])
    after (ok m, b') s = s
    after (err m, b') s = roll_back-IsSteady 0 b' entries s

pub add_thing_list-IsSteady :
    (item_config : ℕ → Option ItemConfig) (b : Bag) (entries : List Entry)
    → IsSteady b
    → LeavesSteady (add_thing_list item_config b entries)
unfolding add_thing_list
add_thing_list-IsSteady item_config b entries v =
    carry_out-IsSteady b (plan item_config b entries 0) v
