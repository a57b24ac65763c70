-- ===== src/Container/Plan.antt =====
-- add_thing_list of container.c: a list of items goes into a bag in two passes. The first finds a
-- position for each entry, the second adds the entries; `item_config` is the loaded item table.
pub mod Rollback
pub mod Steady
use txgg.Base.{
  ℕ, ◌+◌, ◌%◌, Bool, true, false, ◌&&◌, Option, none, some, List, [], ◌∷◌, ltb, leb, ◌==◌,
  if◌then◌else◌, take, Code, ok, err, u16_mod, u32_mod,
}
use txgg.Container.{Idx, ThingObj, Bag, add_thing_bypos, delete_thing_bypos}

-- struct things: the position is filled in by the first pass.
pub record Entry : Type 0 where
  pub id : ℕ
  pub num : ℕ
  pub pos : ℕ

-- The part of CFGITEM that is read here.
pub record ItemConfig : Type 0 where
  pub stack_able : ℕ

-- add_stack_thing: the first slot from index `i` on with the same item and room on its stack.
pub find_stack : (ℕ → ThingObj) → Entry → ItemConfig → List Idx → ℕ → Option ℕ
find_stack obj e config [] i = none
find_stack obj e config (x ∷ xs) i =
    let rest = find_stack obj e config xs (i + 1) in
    elim x.p [
      | none ↦ rest
      | some t ↦
          if (obj t).id == e.id && leb ((e.num + (obj t).num) % u32_mod) config.stack_able
          then some i
          else rest
    ]

pub add_stack_thing : Bag → Entry → ItemConfig → Option ℕ
unfolding find_stack
add_stack_thing b e config =
    find_stack b.store.obj e config (take b.container.max_thing_num b.container.things) 0

-- add_unstack_thing: the first empty slot at or after `begin`, walking from index `i`.
pub find_empty : ℕ → List Idx → ℕ → Option ℕ
find_empty begin [] i = none
find_empty begin (x ∷ xs) i =
    let rest = find_empty begin xs (i + 1) in
    if leb begin i then (elim x.p [ none ↦ some i | some t ↦ rest ]) else rest

pub add_unstack_thing : Bag → ℕ → Option ℕ
unfolding find_empty
add_unstack_thing b begin = find_empty begin (take b.container.max_thing_num b.container.things) 0

module _ (item_config : ℕ → Option ItemConfig) where
  -- The position of one entry: on a stack, or in an empty slot; with the next `empty_pos`.
  pub place : Bag → Entry → ItemConfig → ℕ → Option (ℕ × ℕ)
  unfolding add_stack_thing add_unstack_thing
  place b e config empty_pos =
      let stacked : Option ℕ =
        if ltb 1 config.stack_able then add_stack_thing b e config else none in
      elim stacked [
        | some pos ↦ some (pos, empty_pos)
        | none ↦ elim (add_unstack_thing b empty_pos) [
          | some pos ↦ some (pos, pos + 1)
          | none ↦ none
        ]
      ]

  -- The first pass.
  unfoldable pub plan : Bag → List Entry → ℕ → Code × List Entry
  unfolding place
  plan b [] empty_pos = (ok 0, [])
  plan b (e ∷ es) empty_pos = elim (item_config e.id) [
    | none ↦ (err 1, e ∷ es)
    | some config ↦ elim (place b e config empty_pos) [
      | none ↦ (err 10, e ∷ es)
      | some (pos, next) ↦
          let (code, placed) = plan b es next in (code, record e { pos = pos } ∷ placed)
    ]
  ]

-- The second pass. The amount of an entry has 32 bits and add_thing_bypos takes 16.
pub add_all : Bag → List Entry → Code × Bag
add_all b [] = (ok 0, b)
add_all b (e ∷ es) =
    let (code, b') = add_thing_bypos b e.pos e.id (e.num % u16_mod) in
    elim code [ ok n ↦ add_all b' es | err n ↦ (err 30, b') ]

-- The loop at `fail:`, for (j = 0; j < j; ++j).
pub roll_back : ℕ → Bag → List Entry → Bag
roll_back j b [] = b
roll_back j b (e ∷ es) = elim (ltb j j) [
  | true ↦ roll_back (j + 1) (delete_thing_bypos b e.pos (e.num % u16_mod)).1 es
  | false ↦ b
]

-- What follows the first pass.
pub carry_out : Bag → Code × List Entry → Code × Bag
unfolding add_all roll_back
carry_out b (err n, entries) = (err n, b)
carry_out b (ok n, entries) =
    let (code, b') = add_all b entries in
    elim code [ ok m ↦ (ok m, b') | err m ↦ (err m, roll_back 0 b' entries) ]

pub add_thing_list : (ℕ → Option ItemConfig) → Bag → List Entry → Code × Bag
unfolding plan carry_out
add_thing_list item_config b entries = carry_out b (plan item_config b entries 0)
