-- ===== src/Baggage/Answers.antt =====
-- What the requests on the containers do.
use txgg.Base.{
  ℕ, ◌%◌, ◌≡◌, ◌≢◌, inl, inr, refl, true, Bool-cases, Option, none, some, List, arith, ◌==◌, ◌>>=◌,
  Code, ok, err, u8_mod, u16_mod,
}
use txgg.Container.{Bag, delete_thing_bypos, swap_thing_pos}
use txgg.Container.Invariant.{IsValid}
use txgg.Container.Steady.{IsValid-asserts}
use txgg.Container.Remove.{Deletes, delete_thing_bypos-Deletes}
use txgg.Container.Swap.{Swaps, swap_thing_pos-Swaps}
use txgg.Container.Plan.{ItemConfig}
use txgg.Quest.{QuestInfo}
use txgg.Quest.Operate.{MainQuest, QuestRole, Output, bag_changed}
use txgg.Quest.Operate.Rewards.{HasNext, Stays, bag_changed-Stays}
use txgg.Baggage.{
  BagRole, DropContainerItemRequest, SwapContainerItemRequest, container_of, put_container,
  handle_drop_container_request, handle_swap_container_request, type_bag, type_store,
}

put_container_bag :
    (r : BagRole) (type : ℕ) (b : Bag)
    → (type == type_bag) ≡ true
    → put_container r type b ≡ record r { role = record r.role { bag = b } }
unfolding put_container
put_container_bag r type b e = rw e refl

-- A request that is not answered: its container is neither the bag nor the store.
abbrev pub Unanswered : BagRole → ℕ → Code → Option Code → BagRole → Type 0
Unanswered r type code answer r' =
    (code ≡ err 20) × (answer ≡ none) × (r' ≡ r) × (type ≢ type_bag) × (type ≢ type_store)

module _ (r : BagRole) (req : DropContainerItemRequest) where
  abbrev pub Drops : Option (Code × Option Code × BagRole × List Output) → Type 0
  Drops none = req.container_type ≡ type_store
  Drops (some (code, none, r', sent)) = Unanswered r req.container_type code none r'
  Drops (some (code, some result, r', sent)) =
      (code ≡ ok 0)
      × (req.container_type ≡ type_bag)
      × Deletes r.role.bag (req.thing_pos % u8_mod) (req.thing_num % u16_mod) (result, r'.role.bag)
      × HasNext r'.role
      × (r'.store ≡ r.store)

module _ (r : BagRole) (req : SwapContainerItemRequest) where
  abbrev pub Exchanges : Option (Code × Option Code × BagRole) → Type 0
  Exchanges none = req.container_type ≡ type_store
  Exchanges (some (code, none, r')) = Unanswered r req.container_type code none r'
  Exchanges (some (code, some result, r')) =
      (code ≡ ok 0)
      × (req.container_type ≡ type_bag)
      × Swaps r.role.bag (req.thing_pos1 % u8_mod) (req.thing_pos2 % u8_mod)
          (result, r'.role.bag.container)
      × (r' ≡ record r {
        role = record r.role { bag = record r.role.bag { container = r'.role.bag.container } };
      })

module _ (unset : QuestInfo) (config : ℕ → Option MainQuest)
    (item_config : ℕ → Option ItemConfig) where
  -- What delete_thing_bypos leaves has one owner of each thing.
  Deletes-IsValid :
      (b : Bag) (pos num : ℕ) (result : Code) (b' : Bag)
      → IsValid b
      → Deletes b pos num (result, b')
      → IsValid b'
  Deletes-IsValid b pos num (ok n) b' v (_, _, v', _, _) = v'
  Deletes-IsValid b pos num (err n) b' v (same, _) = rw same v

  told :
      (r : BagRole) (req : DropContainerItemRequest) (result : Code) (b : Bag)
      (o : Option (QuestRole × List Output))
      → req.container_type ≡ type_bag
      → Deletes r.role.bag (req.thing_pos % u8_mod) (req.thing_num % u16_mod) (result, b)
      → Stays (record r.role { bag = b }) o
      → Drops r req (o >>= λ (role, sent). some (ok 0, some result, record r { role = role }, sent))
  told r req result b none at d s = absurd s
  told r req result b (some (role, sent)) at d (h, _, _, k) = (refl, at, rw k d, h, refl)

  -- handle_drop_container_request of a role that has no store, that holds at most the next quest of
  -- the main line in an array of 64, and in whose bag each thing has one owner: it drops from the bag
  -- what delete_thing_bypos takes off the position and the number, cut to 8 and to 16 bits, the
  -- response tells how that ended, and the role still holds at most that quest; a container that is
  -- neither the bag nor the store is refused with -20 and nothing changes; and the server stops
  -- exactly for a request that names the store, at the assert of delete_thing_bypos that it has a
  -- container.
  pub handle_drop_container_request-Drops :
      (r : BagRole) (req : DropContainerItemRequest)
      → HasNext r.role
      → IsValid r.role.bag
      → r.store ≡ none
      → Drops r req (handle_drop_container_request unset config item_config r (some req))
  unfolding handle_drop_container_request container_of
  handle_drop_container_request-Drops r req h v e =
      let pos = req.thing_pos % u8_mod in
      let num = req.thing_num % u16_mod in
      elim (Bool-cases (req.container_type == type_bag)) [
        | inl f ↦
            let d = delete_thing_bypos-Deletes r.role.bag pos num v in
            let (code, b) = delete_thing_bypos r.role.bag pos num in
            rw
              (
                handle_drop_container_request,
                container_of,
                f,
                put_container_bag r req.container_type b f,
              )
              (told r req code b (bag_changed unset config item_config (record r.role { bag = b }))
                (ground (arith, f)) d
                (bag_changed-Stays unset config item_config (record r.role { bag = b }) h
                  (IsValid-asserts b (Deletes-IsValid r.role.bag pos num code b v d))))
        | inr f ↦ elim (Bool-cases (req.container_type == type_store)) [
          | inl g ↦ rw (handle_drop_container_request, container_of, f, g, e) (ground (arith, g))
          | inr g ↦
              rw (handle_drop_container_request, container_of, f, g)
                (refl, refl, refl, ground (arith, f), ground (arith, g))
        ]
      ]

-- handle_swap_container_request of a role that has no store and in whose bag each thing has one
-- owner: it swaps two slots of the bag as swap_thing_pos does, whose result is in the response, and changes nothing else; any
-- other container but the store is refused with -20 and nothing changes; and a request that names
-- the store ends in an access through NULL.
pub handle_swap_container_request-Exchanges :
    (r : BagRole) (req : SwapContainerItemRequest)
    → IsValid r.role.bag
    → r.store ≡ none
    → Exchanges r req (handle_swap_container_request r (some req))
unfolding handle_swap_container_request container_of
handle_swap_container_request-Exchanges r req v e =
    elim (Bool-cases (req.container_type == type_bag)) [
      | inl f ↦
          let c =
            (swap_thing_pos r.role.bag.container (req.thing_pos1 % u8_mod)
              (req.thing_pos2 % u8_mod)).1 in
          rw
            (
              handle_swap_container_request,
              container_of,
              f,
              put_container_bag r req.container_type (record r.role.bag { container = c }) f,
            )
            (
              refl,
              ground (arith, f),
              swap_thing_pos-Swaps r.role.bag (req.thing_pos1 % u8_mod) (req.thing_pos2 % u8_mod) v,
              refl,
            )
      | inr f ↦ elim (Bool-cases (req.container_type == type_store)) [
        | inl g ↦ rw (handle_swap_container_request, container_of, f, g, e) (ground (arith, g))
        | inr g ↦
            rw (handle_swap_container_request, container_of, f, g)
              (refl, refl, refl, ground (arith, f), ground (arith, g))
      ]
    ]
