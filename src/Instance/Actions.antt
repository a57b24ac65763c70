-- ===== src/Instance/Actions.antt =====
-- What happens on a node.
use txgg.Base.{
  ℕ, ◌≡◌, ◌⊎◌, inl, inr, refl, Bool, true, false, Bool-cases, Option, none, some, List, [], arith,
  ◌==◌, if◌then◌else◌,
}
use txgg.Instance.{
  InstanceNode, InstanceData, CfgMapFunction, Effect, type_null, get_instance_node_type, act,
  one_war_less, do_instance_action,
}

-- A node that is not used up has no effect.
act_used :
    (fight : Option Bool) (type : ℕ) (f : CfgMapFunction) (action : ℕ) (r : InstanceData)
    → let (used, r', effects) = act fight type f action r in (used ≡ true) ⊎ (effects ≡ [])
unfolding act
act_used fight type f action r = ground arith

-- A node whose action has been reset has none.
used_up :
    (fight : Option Bool) (func : Option CfgMapFunction) (node : InstanceNode) (r : InstanceData)
    → node.action ≡ type_null
    → (do_instance_action fight func (get_instance_node_type node.action) node r).2 ≡ []
unfolding do_instance_action act
used_up fight none node r e = rw e refl
used_up fight (some f) node r e = rw e refl

-- A visit resets the action of the node, or has no effect.
first_visit :
    (fight : Option Bool) (func : Option CfgMapFunction) (node : InstanceNode) (r : InstanceData)
    → let (r', node', effects) =
        do_instance_action fight func (get_instance_node_type node.action) node r in
      (node'.action ≡ type_null) ⊎ (effects ≡ [])
unfolding do_instance_action
first_visit fight none node r =
    elim (Bool-cases (get_instance_node_type node.action == type_null)) [
      | inl e ↦ inr (rw e refl)
      | inr e ↦ inr (rw e refl)
    ]
first_visit fight (some f) node r =
    elim (Bool-cases (get_instance_node_type node.action == type_null)) [
      | inl e ↦ inr (rw e refl)
      | inr e ↦ rw e (
          visited (act fight (get_instance_node_type node.action) f node.action r)
            (act_used fight (get_instance_node_type node.action) f node.action r))
    ]
  where
    visited :
        (a : Bool × InstanceData × List Effect)
        → (a.0 ≡ true) ⊎ (a.2 ≡ [])
        → let result : InstanceData × InstanceNode × List Effect =
            if a.0
            then (one_war_less (record a.1 { action = 0 }), record node { action = type_null }, a.2)
            else (one_war_less a.1, node, a.2) in
          (result.1.action ≡ type_null) ⊎ (result.2 ≡ [])
    visited (true, r', effects) u = inl refl
    visited (false, r', effects) (inl u) = cc
    visited (false, r', effects) (inr n) = inr n

-- Nobody is rewarded twice for a node: of two visits, by the same role or by two, whatever the fights
-- and the tables say, at most one has an effect outside of the role's place in the instance.
pub do_instance_action_once :
    (fight fight' : Option Bool) (func func' : Option CfgMapFunction) (node : InstanceNode)
    (r r' : InstanceData)
    → let (r1, node1, effects) =
        do_instance_action fight func (get_instance_node_type node.action) node r in
      let (r2, node2, effects') =
        do_instance_action fight' func' (get_instance_node_type node1.action) node1 r' in
      (effects ≡ []) ⊎ (effects' ≡ [])
do_instance_action_once fight fight' func func' node r r' = elim (first_visit fight func node r) [
  | inl e ↦ inr (
      used_up fight' func'
        (do_instance_action fight func (get_instance_node_type node.action) node r).1 r' e)
  | inr e ↦ inl e
]
