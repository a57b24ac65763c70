-- ===== src/Instance/Walk.antt =====
-- What a move is: a walk from node to neighbouring node.
use txgg.Base.{
  ℕ, suc, ◌%◌, ◌<◌, ◌≡◌, ◌⊎◌, inl, inr, refl, Bool, true, false, Bool-cases, Option, none, some,
  List, [], ◌∷◌, arith, ◌==◌, ==_iff, ==_ne, not, length, get_elem?, get_elem?_lt, Code, ok, err,
  u8_mod, u16_mod, if◌then◌else◌, ◌>>=◌,
}
use txgg.Instance.{
  InstanceNode, Board, type_transport, get_instance_node_type, search_instance_node_byid, try_pos,
  try_all, exits, get_instance_next_node_byid, move_loop,
}

-- One of the ways out of a node.
abbrev pub OneOf : ℕ → List (Option ℕ) → Type 0
OneOf p [] = ⊥
OneOf p (q ∷ qs) = (q ≡ some p) ⊎ OneOf p qs

-- A neighbour whose id is this one, cut to 16 bits.
abbrev pub Neighbour : Board → InstanceNode → ℕ → InstanceNode → Type 0
Neighbour b n id n' =
    (pos : ℕ) × OneOf pos (exits n) × (get_elem? b.node pos ≡ some n') × (n'.id ≡ id % u16_mod)

abbrev pub IsTransport : InstanceNode → Type 0
IsTransport n = get_instance_node_type n.action ≡ type_transport

-- A path by its ids. From a transport node it leads anywhere, in its last step; `jumps` says whether
-- it does.
pub data Walks (b : Board) : Bool → InstanceNode → List ℕ → InstanceNode → Type 0 where
  here : (n : InstanceNode) → Walks b false n [] n
  step :
      {jumps : Bool} {n n' n'' : InstanceNode} {id : ℕ} {ids : List ℕ}
      → ¬ IsTransport n
      → Neighbour b n id n'
      → Walks b jumps n' ids n''
      → Walks b jumps n (id ∷ ids) n''
  jump :
      {n n' : InstanceNode} {id : ℕ}
      → IsTransport n
      → search_instance_node_byid b id ≡ some n'
      → Walks b true n (id ∷ []) n'

-- What a search for a neighbour gives.
abbrev Found : List InstanceNode → List (Option ℕ) → ℕ → Option (Option InstanceNode) → Type 0
Found nodes ps id none = ⊥
Found nodes ps id (some none) = Unit
Found nodes ps id (some (some n')) =
    (pos : ℕ) × OneOf pos ps × (get_elem? nodes pos ≡ some n') × (n'.id ≡ id)

try_pos-Found :
    (nodes : List InstanceNode) (pos : ℕ) (ps : List (Option ℕ)) (id : ℕ)
    → pos < length nodes
    → Found nodes (some pos ∷ ps) id (try_pos nodes (some pos) id)
unfolding try_pos
try_pos-Found nodes pos ps id l = split (get_elem? nodes pos) refl
  where
    split :
        (o : Option InstanceNode)
        → get_elem? nodes pos ≡ o
        → Found nodes (some pos ∷ ps) id (o >>= λ n. some (if n.id == id then some n else none))
    split none g = let (n, e) = get_elem?_lt nodes pos l in cc
    split (some n) g = elim (Bool-cases (n.id == id)) [
      | inl e ↦ rw e (pos, inl refl, g, (==_iff n.id id).0 e)
      | inr e ↦ rw e tt
    ]

first-Found :
    (nodes : List InstanceNode) (p : Option ℕ) (ps : List (Option ℕ)) (id : ℕ)
    (first rest : Option (Option InstanceNode))
    → Found nodes (p ∷ ps) id first
    → Found nodes ps id rest
    → Found nodes
        (p ∷ ps)
        id
        (elim first [ none ↦ none | some none ↦ rest | some (some n) ↦ some (some n) ])
first-Found nodes p ps id none rest f g = f
first-Found nodes p ps id (some (some n)) rest f g = f
first-Found nodes p ps id (some none) none f g = g
first-Found nodes p ps id (some none) (some none) f g = tt
first-Found nodes p ps id (some none) (some (some n)) f (pos, o, e, i) = (pos, inr o, e, i)

try_all-Found :
    (nodes : List InstanceNode) (ps : List (Option ℕ)) (id : ℕ)
    → ((pos : ℕ) → OneOf pos ps → pos < length nodes)
    → Found nodes ps id (try_all nodes ps id)
unfolding try_all try_pos
try_all-Found nodes [] id l = tt
try_all-Found nodes (none ∷ ps) id l =
    first-Found nodes none ps id (some none) (try_all nodes ps id) tt
      (try_all-Found nodes ps id (λ pos o. l pos (inr o)))
try_all-Found nodes (some pos ∷ ps) id l =
    first-Found nodes (some pos) ps id (try_pos nodes (some pos) id) (try_all nodes ps id)
      (try_pos-Found nodes pos ps id (l pos (inl refl)))
      (try_all-Found nodes ps id (λ pos' o. l pos' (inr o)))

-- Every way out of a node leads to a cell of the array.
abbrev pub IsClosed : Board → Type 0
IsClosed b =
    (i : ℕ) (n : InstanceNode)
    → get_elem? b.node i ≡ some n
    → (pos : ℕ) → OneOf pos (exits n)
    → pos < length b.node

abbrev pub OnBoard : Board → InstanceNode → Type 0
OnBoard b n = (i : ℕ) × (get_elem? b.node i ≡ some n)

abbrev pub HasTransport : Board → Type 0
HasTransport b = (n : InstanceNode) × (i : ℕ) × (get_elem? b.node i ≡ some n) × IsTransport n

pub Walks-HasTransport :
    {b : Board} {jumps : Bool} {n n' : InstanceNode} {ids : List ℕ}
    → Walks b jumps n ids n'
    → OnBoard b n
    → jumps ≡ true
    → HasTransport b
Walks-HasTransport (here n) on e = cc
Walks-HasTransport (step t (pos, _, g, _) w) on e = Walks-HasTransport w (pos, g) e
Walks-HasTransport (jump {n} t e') on e = (n, on.0, on.1, t)

pub Walks-OnBoard :
    {b : Board} {jumps : Bool} {n n' : InstanceNode} {ids : List ℕ}
    → ¬ HasTransport b
    → Walks b jumps n ids n'
    → OnBoard b n
    → OnBoard b n'
Walks-OnBoard plain (here n) on = on
Walks-OnBoard plain (step t (pos, _, g, _) w) on = Walks-OnBoard plain w (pos, g)
Walks-OnBoard plain (jump {n} t e) on = absurd (plain (n, on.0, on.1, t))

-- What the loop of a move gives: a path, and the dice, which a jump sets to the length of the request.
abbrev pub Moved : Board → ℕ → List ℕ → InstanceNode → ℕ → Option (Code × ℕ × InstanceNode) → Type 0
Moved b n_id ids node dice none = ⊥
Moved b n_id ids node dice (some (ok z, dice', node')) =
    (jumps : Bool) × Walks b jumps node ids node'
    × (dice' ≡ (if jumps then n_id % u8_mod else dice))
Moved b n_id ids node dice (some (err e, dice', node')) =
    (dice' ≡ dice) ⊎ ((e ≡ 40) × (dice' ≡ n_id % u8_mod) × HasTransport b)

module _ (b : Board) (n_id : ℕ) (closed : IsClosed b) where
  jumped :
      (id : ℕ) (node : InstanceNode) (dice : ℕ) (o : Option InstanceNode)
      → IsTransport node
      → OnBoard b node
      → search_instance_node_byid b id ≡ o
      → Moved b n_id (id ∷ []) node dice (elim o [
        | none ↦ some (err 40, n_id % u8_mod, node)
        | some node' ↦ some (ok 0, n_id % u8_mod, node')
      ])
  jumped id node dice none t on e = inr (refl, refl, (node, on.0, on.1, t))
  jumped id node dice (some node') t on e = (true, jump t e, refl)

  stepped :
      (id : ℕ) (ids : List ℕ) (node : InstanceNode) (dice : ℕ) (o : Option (Option InstanceNode))
      → ¬ IsTransport node
      → Found b.node (exits node) (id % u16_mod) o
      → ((node' : InstanceNode)
          → OnBoard b node'
          → Moved b n_id ids node' dice (move_loop b n_id ids node' dice))
      → Moved b n_id (id ∷ ids) node dice (elim o [
        | none ↦ none
        | some none ↦ some (err 50, dice, node)
        | some (some node') ↦ move_loop b n_id ids node' dice
      ])
  stepped id ids node dice none t f go = f
  stepped id ids node dice (some none) t f go = inl refl
  stepped id ids node dice (some (some node')) t f go =
      add (move_loop b n_id ids node' dice) (go node' (f.0, f.2))
    where
      add :
          (r : Option (Code × ℕ × InstanceNode))
          → Moved b n_id ids node' dice r
          → Moved b n_id (id ∷ ids) node dice r
      add none m = m
      add (some (ok z, dice', last)) (jumps, w, e) = (jumps, step t f w, e)
      add (some (err z, dice', last)) m = m

  pub move_loop-Moved :
      (ids : List ℕ) (node : InstanceNode) (dice : ℕ)
      → OnBoard b node
      → Moved b n_id ids node dice (move_loop b n_id ids node dice)
  unfolding move_loop search_instance_node_byid get_instance_next_node_byid
  move_loop-Moved [] node dice on = (false, here node, refl)
  move_loop-Moved (id ∷ ids) node dice on =
      elim (Bool-cases (get_instance_node_type node.action == type_transport)) [
        | inl e ↦ rw e (at_transport ids ((==_iff _ _).0 e))
        | inr e ↦ rw e (
            stepped id ids node dice (try_all b.node (exits node) (id % u16_mod))
              (λ t. cc ((==_iff _ _).1 t, e))
              (try_all-Found b.node (exits node) (id % u16_mod) (closed on.0 node on.1))
              (λ node' on'. move_loop-Moved ids node' dice on'))
      ]
    where
      at_transport :
          (ids' : List ℕ)
          → IsTransport node
          → Moved b n_id (id ∷ ids') node dice (
              if not (length ids' == 0)
              then some (err 30, dice, node)
              else elim (search_instance_node_byid b id) [
                | none ↦ some (err 40, n_id % u8_mod, node)
                | some node' ↦ some (ok 0, n_id % u8_mod, node')
              ])
      at_transport [] t = jumped id node dice (search_instance_node_byid b id) t on refl
      at_transport (id' ∷ ids') t = rw (==_ne (suc (length ids')) 0 (omega arith)) (inl refl)
