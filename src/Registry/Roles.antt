-- ===== src/Registry/Roles.antt =====
-- The three trees together.
use txgg.Base.{
  ℕ, ◌≡◌, ◌≢◌, ◌⊎◌, inl, inr, refl, ap, ◌∙◌, sym, subst, Option, none, some, ◌==◌, ==_self, ==_iff,
  Bool-cases, if◌then◌else◌, Code, ok, err,
}
use txgg.SortArray.Order.{IsSorted}
use txgg.SortArray.Table.{
  lookup, put, erase, lookup-put, lookup-erase, put-IsSorted, erase-IsSorted,
}
use txgg.Registry.{
  Tree, RoleNode, Registry, find, link, inorder, get_role_by_id, get_role_by_session, add_session,
  role_rbdata_add, role_rbdata_del,
}
use txgg.Registry.Walk.{find-lookup, Links, link-Links}

pub record IsValid (g : Registry) : Type 0 where
  pub by_id : IsSorted {A = RoleNode} (λ x. x.role_id) (inorder g.by_id)
  pub by_name : IsSorted {A = RoleNode} (λ x. x.name) (inorder g.by_name)
  pub by_session : IsSorted {A = RoleNode} (λ x. x.session_id) (inorder g.by_session)

-- rb_insert_color rotates: the order of the nodes stays.
abbrev pub IsBalancer : (Tree RoleNode → Tree RoleNode) → Type 0
IsBalancer insert_color = (t : Tree RoleNode) → inorder (insert_color t) ≡ inorder t

-- rb_erase takes the node with this key out, and keeps the order of the others.
abbrev pub IsEraser : ((RoleNode → ℕ) → ℕ → Tree RoleNode → Tree RoleNode) → Type 0
IsEraser erase_node =
    (key : RoleNode → ℕ) (k : ℕ) (t : Tree RoleNode)
    → inorder (erase_node key k t) ≡ erase key k (inorder t)

module _ (key : RoleNode → ℕ) (insert_color : Tree RoleNode → Tree RoleNode)
    (b : IsBalancer insert_color) where
  module _ (y : RoleNode) (t t' : Tree RoleNode) (c : IsSorted key (inorder t))
      (l : Links key y t (some t')) where
    linked : inorder (insert_color t') ≡ put key y (inorder t)
    linked = b t' ∙ l.1

    linked-IsSorted : IsSorted key (inorder (insert_color t'))
    linked-IsSorted = subst (IsSorted key) (sym linked) (put-IsSorted key y (inorder t) c)

    -- What is found once the node is in.
    find-linked :
        (k : ℕ) → find key k (insert_color t') ≡ (if key y == k then some y else find key k t)
    find-linked k =
        find-lookup key k (insert_color t') linked-IsSorted
        ∙ ap (lookup key k) linked
        ∙ lookup-put key y k (inorder t) l.0
        ∙ ap (λ o. if key y == k then some y else o) (sym (find-lookup key k t c))

-- What role_rbdata_add does, on each way out.
abbrev pub Adds : Registry → RoleNode → Code × Registry → Type 0
Adds g role (ok n, g') =
    (n ≡ 0)
    × IsValid g'
    × (get_role_by_id g role.role_id ≡ none)
    × (get_role_by_session g role.session_id ≡ none)
    × ((k : ℕ)
        → get_role_by_id g' k ≡ (if role.role_id == k then some role else get_role_by_id g k))
    × ((k : ℕ)
        → get_role_by_session g' k
          ≡ (if role.session_id == k then some role else get_role_by_session g k))
    × (g'.by_name ≡ g.by_name)
Adds g role (err n, g') =
    (n ≡ 1)
    × IsValid g'
    × (((get_role_by_id g role.role_id ≢ none) × (g' ≡ g))
        ⊎ ((get_role_by_id g role.role_id ≡ none)
            × (get_role_by_session g role.session_id ≢ none)
            × (get_role_by_id g' role.role_id ≡ some role)))

module _ (insert_color : Tree RoleNode → Tree RoleNode) (b : IsBalancer insert_color) (g : Registry)
    (role : RoleNode) (v : IsValid g) where
  by_session :
      (t o : Tree RoleNode) (s : Option (Tree RoleNode))
      → Links (λ x. x.role_id) role g.by_id (some t)
      → Links (λ x. x.session_id) role g.by_session s
      → Adds g role (add_session insert_color (record g { by_id = insert_color t }) role s)
  unfolding add_session get_role_by_id get_role_by_session
  by_session t o none l s = (
    refl,
    record {
      by_id = linked-IsSorted (λ x. x.role_id) insert_color b role g.by_id t v.by_id l;
      by_name = v.by_name;
      by_session = v.by_session;
    },
    inr (
      find-lookup (λ x. x.role_id) role.role_id g.by_id v.by_id ∙ l.0,
      (λ e.
          s (sym (find-lookup (λ x. x.session_id) role.session_id g.by_session v.by_session) ∙ e)),
      find-linked (λ x. x.role_id) insert_color b role g.by_id t v.by_id l role.role_id
          ∙ ap (λ q. if q then some role else find (λ x. x.role_id) role.role_id g.by_id)
              (==_self role.role_id),
    ),
  )
  by_session t o (some u) l s = (
    refl,
    record {
      by_id = linked-IsSorted (λ x. x.role_id) insert_color b role g.by_id t v.by_id l;
      by_name = v.by_name;
      by_session =
          linked-IsSorted (λ x. x.session_id) insert_color b role g.by_session u v.by_session s;
    },
    find-lookup (λ x. x.role_id) role.role_id g.by_id v.by_id ∙ l.0,
    find-lookup (λ x. x.session_id) role.session_id g.by_session v.by_session ∙ s.0,
    find-linked (λ x. x.role_id) insert_color b role g.by_id t v.by_id l,
    find-linked (λ x. x.session_id) insert_color b role g.by_session u v.by_session s,
    refl,
  )

  by_id :
      (s : Option (Tree RoleNode))
      → Links (λ x. x.role_id) role g.by_id s
      → Adds g role (elim s [
        | none ↦ (err 1, g)
        | some t ↦
            add_session insert_color
              (record g { by_id = insert_color t })
              role
              (link (λ x. x.session_id) role g.by_session)
      ])
  unfolding get_role_by_id
  by_id none l = (
    refl,
    v,
    inl ((λ e. l (sym (find-lookup (λ x. x.role_id) role.role_id g.by_id v.by_id) ∙ e)), refl),
  )
  by_id (some t) l =
      by_session t t (link (λ x. x.session_id) role g.by_session) l
        (link-Links (λ x. x.session_id) role g.by_session v.by_session)

  -- role_rbdata_add on trees in order, with a rebalancing that keeps the order: a role whose id and
  -- session are new is found under both, and nothing else changes. It returns -1 for an id that is
  -- taken, and changes nothing, and also for a session that is taken, and then the role is
  -- registered under its id all the same.
  pub role_rbdata_add-Adds : Adds g role (role_rbdata_add insert_color g role)
  unfolding role_rbdata_add
  role_rbdata_add-Adds =
      by_id (link (λ x. x.role_id) role g.by_id) (link-Links (λ x. x.role_id) role g.by_id v.by_id)

module _ (key : RoleNode → ℕ) (erase_node : (RoleNode → ℕ) → ℕ → Tree RoleNode → Tree RoleNode)
    (b : IsEraser erase_node) where
  module _ (j : ℕ) (t : Tree RoleNode) (c : IsSorted key (inorder t)) where
    erased-IsSorted : IsSorted key (inorder (erase_node key j t))
    erased-IsSorted = subst (IsSorted key) (sym (b key j t)) (erase-IsSorted key j (inorder t) c)

    find-erased :
        (k : ℕ) → find key k (erase_node key j t) ≡ (if j == k then none else find key k t)
    find-erased k =
        find-lookup key k (erase_node key j t) erased-IsSorted
        ∙ ap (lookup key k) (b key j t)
        ∙ lookup-erase key j k (inorder t) c
        ∙ ap (λ o. if j == k then none else o) (sym (find-lookup key k t c))

undone :
    (role : RoleNode) (j k : ℕ) (old : ℕ → Option RoleNode) (new : Option RoleNode)
    → old j ≡ none
    → new ≡ (if j == k then some role else old k)
    → (if j == k then none else new) ≡ old k
undone role j k old new free e = elim (Bool-cases (j == k)) [
  | inl t ↦ rw t (sym (rw ((==_iff j k).0 t) at free))
  | inr f ↦ rw f (rw f at e)
]

module _ (insert_color : Tree RoleNode → Tree RoleNode)
    (erase_node : (RoleNode → ℕ) → ℕ → Tree RoleNode → Tree RoleNode) where
  -- role_rbdata_del takes back a role_rbdata_add that returned 0, for a role without a name: every
  -- id and every session finds what it found before, if the two operations of the tree keep the
  -- order of the nodes.
  pub role_rbdata_del-role_rbdata_add :
      (g g' : Registry) (role : RoleNode)
      → IsBalancer insert_color
      → IsEraser erase_node
      → IsValid g
      → role.name ≡ 0
      → role_rbdata_add insert_color g role ≡ (ok 0, g')
      → let d = role_rbdata_del erase_node g' role in
        ((k : ℕ) → get_role_by_id d k ≡ get_role_by_id g k)
        × ((k : ℕ) → get_role_by_session d k ≡ get_role_by_session g k)
        × (d.by_name ≡ g.by_name)
  unfolding role_rbdata_del get_role_by_id get_role_by_session
  role_rbdata_del-role_rbdata_add g g' role b b' v empty e =
      let a : Adds g role (ok 0, g') = rw e at (role_rbdata_add-Adds insert_color b g role v) in
      (
        λ k.
            find-erased (λ x. x.role_id) erase_node b' role.role_id g'.by_id a.1.by_id k
            ∙ undone role role.role_id k (get_role_by_id g) _ a.2 (a.4 k),
        λ k.
            find-erased (λ x. x.session_id) erase_node b' role.session_id g'.by_session
              a.1.by_session k
            ∙ undone role role.session_id k (get_role_by_session g) _ a.3 (a.5 k),
        rw empty a.6,
      )
