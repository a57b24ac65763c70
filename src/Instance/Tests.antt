-- ===== src/Instance/Tests.antt =====
-- A board of three nodes in a row, and the theorems applied to it.
use txgg.Base.{
  ℕ, zero, suc, ◌+◌, ◌<◌, ◌≡◌, ◌⊎◌, refl, true, Option, none, some, List, [], ◌∷◌, arith, get_elem?,
  Code, ok, err,
}
use txgg.Instance.{
  InstanceNode, Board, InstanceData, CfgMapFunction, get_instance_node_type,
  handle_instance_move_request, do_instance_action,
}
use txgg.Instance.Walk.{IsClosed, HasTransport}
use txgg.Instance.Rules.{
  Makes, handle_instance_move_request-Makes, Turn, roll, go, Play, play, Ends, play-IsFair,
}
use txgg.Instance.Actions.{do_instance_action_once}

abbrev row_node : ℕ → ℕ → Option ℕ → Option ℕ → InstanceNode
row_node id action left right = record {
  id = 100 + id;
  seq_id = id;
  action = action;
  up_pos = none;
  down_pos = none;
  left_pos = left;
  right_pos = right;
}

-- The last node is a fight.
abbrev row : Board
row = record {
  node =
      row_node 0 0x20000 none (some 1)
      ∷ row_node 1 0x10000 (some 0) (some 2)
      ∷ row_node 2 0x40000 (some 1) none
      ∷ [];
  node_num = 3;
}

-- The middle node is a transport.
abbrev jumpy : Board
jumpy = record {
  node =
      row_node 0 0x20000 none (some 1)
      ∷ row_node 1 0x100000 (some 0) (some 2)
      ∷ row_node 2 0x40000 (some 1) none
      ∷ [];
  node_num = 3;
}

abbrev role : InstanceData
role = record {
  state = 0;
  action = 0;
  seq_id = 0;
  dice = 2;
  special_dice = 0;
  nowar_times = 0;
  back_steps = 0;
}

abbrev dice_and_place : Option (Code × InstanceData) → Option (Code × ℕ × ℕ)
dice_and_place none = none
dice_and_place (some (code, r)) = some (code, r.dice, r.seq_id)

two_steps :
    dice_and_place (handle_instance_move_request row role (101 ∷ 102 ∷ [])) ≡ some (ok 0, 0, 2)
unfolding handle_instance_move_request
two_steps = refl

-- A jump whose target is not there is refused, and yet gives dice to a role that has none.
free_dice :
    dice_and_place
      (handle_instance_move_request jumpy (record role { seq_id = 1; dice = 0 }) (999 ∷ []))
    ≡ some (err 40, 1, 1)
unfolding handle_instance_move_request
free_dice = refl

row-IsClosed : IsClosed row
row-IsClosed zero n e pos o =
    let q : n ≡ row_node 0 0x20000 none (some 1) = cc in let o' = rw q at o in ground arith
row-IsClosed (suc zero) n e pos o =
    let q : n ≡ row_node 1 0x10000 (some 0) (some 2) = cc in let o' = rw q at o in ground arith
row-IsClosed (suc (suc zero)) n e pos o =
    let q : n ≡ row_node 2 0x40000 (some 1) none = cc in let o' = rw q at o in ground arith
row-IsClosed (suc (suc (suc i))) n e pos o = cc

row-plain : ¬ HasTransport row
row-plain (n, zero, e, t) =
    let q : n ≡ row_node 0 0x20000 none (some 1) = cc in let t' = rw q at t in absurd (omega arith)
row-plain (n, suc zero, e, t) =
    let q : n ≡ row_node 1 0x10000 (some 0) (some 2) = cc in
    let t' = rw q at t in absurd (omega arith)
row-plain (n, suc (suc zero), e, t) =
    let q : n ≡ row_node 2 0x40000 (some 1) none = cc in let t' = rw q at t in absurd (omega arith)
row-plain (n, suc (suc (suc i)), e, t) = cc

row_places : (i : ℕ) (n : InstanceNode) → get_elem? row.node i ≡ some n → n.seq_id < 3
row_places zero n e = ground arith
row_places (suc zero) n e = ground arith
row_places (suc (suc zero)) n e = ground arith
row_places (suc (suc (suc i))) n e = cc

handle_instance_move_request-Makes_example :
    Makes row role (101 ∷ 102 ∷ []) (handle_instance_move_request row role (101 ∷ 102 ∷ []))
handle_instance_move_request-Makes_example =
    handle_instance_move_request-Makes row role row-IsClosed (omega arith) (101 ∷ 102 ∷ [])
      (omega arith)

abbrev beginning : Play
beginning = record { role = role; walked = 0; rolled = 0 }

abbrev turns : List Turn
turns = go (101 ∷ []) ∷ roll 5 ∷ go (102 ∷ []) ∷ roll 3 ∷ go (101 ∷ 100 ∷ 101 ∷ 102 ∷ []) ∷ []

play-IsFair_example : Ends row 2 (play row beginning turns)
play-IsFair_example =
    play-IsFair row row-IsClosed row-plain row_places 2 turns beginning (omega arith)
      (record { adds_up = refl; small = omega arith; special = omega arith; on = omega arith })

abbrev prize : CfgMapFunction
prize = record { drop = 70 ∷ []; hp = 0; move = 0 }

abbrev last_node : InstanceNode
last_node = row_node 2 0x40000 (some 1) none

do_instance_action_once_example :
    let (r1, node1, effects) =
      do_instance_action
        (some true)
        (some prize)
        (get_instance_node_type last_node.action)
        last_node
        role in
    let (r2, node2, effects') =
      do_instance_action (some true) (some prize) (get_instance_node_type node1.action) node1 r1 in
    (effects ≡ []) ⊎ (effects' ≡ [])
do_instance_action_once_example =
    do_instance_action_once (some true) (some true) (some prize) (some prize) last_node role
      (do_instance_action (some true) (some prize) (get_instance_node_type last_node.action)
        last_node role).0
