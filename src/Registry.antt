-- ===== src/Registry.antt =====
-- server/game_srv/role.c, the roles that are online in three search trees: by id, by name and by
-- session. The trees are those of common-lib/lib/rbtree.c, a copy of the Linux kernel's: its
-- rb_insert_color and rb_erase are the parameters `insert_color` and `erase_node`, and the laws that
-- a theorem needs of them stand in `IsBalancer`. The walks from the root are the game server's own.
pub mod Walk
pub mod Roles
mod Tests
use txgg.Base.{
  ℕ, Ordering, compare, Option, none, some, List, [], ◌∷◌, ◌++◌, Code, ok, err, ◌==◌, if◌then◌else◌,
}

pub data Tree {ℓ} (A : Type ℓ) : Type ℓ where
  leaf : Tree A
  node : Tree A → A → Tree A → Tree A

-- The fields of a ROLE that the trees compare, and the name as a number in the order of strcmp.
pub record RoleNode : Type 0 where
  pub role_id : ℕ
  pub session_id : ℕ
  pub name : ℕ

-- The roles from the left to the right.
abbrev pub inorder {ℓ} : {A : Type ℓ} → Tree A → List A
inorder leaf = []
inorder (node l x r) = inorder l ++ (x ∷ inorder r)

module _ {ℓ} {A : Type ℓ} (key : A → ℕ) where
  -- The walk of get_role_by_session, get_role_by_id and get_role_by_name.
  pub find : ℕ → Tree A → Option A
  find k leaf = none
  find k (node l x r) =
      let left = find k l in
      let right = find k r in
      elim (compare k (key x)) [ Ordering.eq ↦ some x | Ordering.lt ↦ left | Ordering.gt ↦ right ]

  -- The walk of role_rbdata_add and role_rbdata_add_name with rb_link_node: `none` if the key is
  -- taken.
  pub link : A → Tree A → Option (Tree A)
  link y leaf = some (node leaf y leaf)
  link y (node l x r) =
      let left = link y l in
      let right = link y r in
      elim (compare (key y) (key x)) [
        | Ordering.eq ↦ none
        | Ordering.lt ↦ elim left [ none ↦ none | some l' ↦ some (node l' x r) ]
        | Ordering.gt ↦ elim right [ none ↦ none | some r' ↦ some (node l x r') ]
      ]

pub record Registry : Type 0 where
  pub by_id : Tree RoleNode
  pub by_name : Tree RoleNode
  pub by_session : Tree RoleNode

pub get_role_by_id : Registry → ℕ → Option RoleNode
unfolding find
get_role_by_id g id = find (λ x. x.role_id) id g.by_id

pub get_role_by_session : Registry → ℕ → Option RoleNode
unfolding find
get_role_by_session g session = find (λ x. x.session_id) session g.by_session

pub get_role_by_name : Registry → ℕ → Option RoleNode
unfolding find
get_role_by_name g name = find (λ x. x.name) name g.by_name

module _ (insert_color : Tree RoleNode → Tree RoleNode) where
  -- role_rbdata_add_name
  pub role_rbdata_add_name : Registry → RoleNode → Code × Registry
  unfolding link
  role_rbdata_add_name g role = elim (link (λ x. x.name) role g.by_name) [
    | none ↦ (err 1, g)
    | some t ↦ (ok 0, record g { by_name = insert_color t })
  ]

  -- The part of role_rbdata_add on the sessions.
  pub add_session : Registry → RoleNode → Option (Tree RoleNode) → Code × Registry
  add_session g role none = (err 1, g)
  add_session g role (some t) = (ok 0, record g { by_session = insert_color t })

  -- role_rbdata_add
  pub role_rbdata_add : Registry → RoleNode → Code × Registry
  unfolding link add_session
  role_rbdata_add g role = elim (link (λ x. x.role_id) role g.by_id) [
    | none ↦ (err 1, g)
    | some t ↦
        add_session (record g { by_id = insert_color t }) role
          (link (λ x. x.session_id) role g.by_session)
  ]

-- role_rbdata_del; a role without a name, whose name is empty, is not in the tree of the names.
pub role_rbdata_del :
    ((RoleNode → ℕ) → ℕ → Tree RoleNode → Tree RoleNode) → Registry → RoleNode → Registry
role_rbdata_del erase_node g role = record {
  by_id = erase_node (λ x. x.role_id) role.role_id g.by_id;
  by_name = if role.name == 0 then g.by_name else erase_node (λ x. x.name) role.name g.by_name;
  by_session = erase_node (λ x. x.session_id) role.session_id g.by_session;
}
