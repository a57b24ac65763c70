-- ===== src/Registry/Tests.antt =====
-- Two roles online and a third one that comes, and the theorems applied to them.
use txgg.Base.{ℕ, ◌≡◌, refl, ap, List, [], ◌∷◌, arith}
use txgg.SortArray.Table.{erase}
use txgg.Registry.{
  Tree, leaf, node, RoleNode, Registry, inorder, get_role_by_id, get_role_by_session,
  role_rbdata_add, role_rbdata_del,
}
use txgg.Registry.Roles.{
  IsValid, IsEraser, Adds, role_rbdata_add-Adds, role_rbdata_del-role_rbdata_add,
}

-- Trees that never rebalance, and a removal that builds the tree anew.
abbrev keep : Tree RoleNode → Tree RoleNode
keep t = t

abbrev spine : List RoleNode → Tree RoleNode
spine [] = leaf
spine (x ∷ xs) = node leaf x (spine xs)

abbrev rebuild : (RoleNode → ℕ) → ℕ → Tree RoleNode → Tree RoleNode
rebuild key k t = spine (erase key k (inorder t))

inorder-spine : (xs : List RoleNode) → inorder (spine xs) ≡ xs
inorder-spine [] = refl
inorder-spine (x ∷ xs) = ap (◌∷◌ x) (inorder-spine xs)

rebuild-IsEraser : IsEraser rebuild
rebuild-IsEraser key k t = inorder-spine (erase key k (inorder t))

abbrev first_role : RoleNode
first_role = record { role_id = 10; session_id = 900; name = 0 }

abbrev second_role : RoleNode
second_role = record { role_id = 20; session_id = 800; name = 0 }

abbrev third_role : RoleNode
third_role = record { role_id = 15; session_id = 850; name = 0 }

abbrev online : Registry
online = record {
  by_id = node leaf first_role (node leaf second_role leaf);
  by_name = leaf;
  by_session = node leaf second_role (node leaf first_role leaf);
}

online-IsValid : IsValid online
online-IsValid = record { by_id = (omega arith, tt); by_name = tt; by_session = (omega arith, tt) }

role_rbdata_add-Adds_example : Adds online third_role (role_rbdata_add keep online third_role)
role_rbdata_add-Adds_example =
    role_rbdata_add-Adds keep (λ t. refl) online third_role online-IsValid

abbrev three : Registry
three = record {
  by_id = node leaf first_role (node (node leaf third_role leaf) second_role leaf);
  by_name = leaf;
  by_session = node leaf second_role (node (node leaf third_role leaf) first_role leaf);
}

role_rbdata_del-role_rbdata_add_example :
    let d = role_rbdata_del rebuild three third_role in
    ((k : ℕ) → get_role_by_id d k ≡ get_role_by_id online k)
    × ((k : ℕ) → get_role_by_session d k ≡ get_role_by_session online k)
    × (d.by_name ≡ online.by_name)
unfolding role_rbdata_add
role_rbdata_del-role_rbdata_add_example =
    role_rbdata_del-role_rbdata_add keep rebuild online three third_role (λ t. refl)
      rebuild-IsEraser online-IsValid refl refl
