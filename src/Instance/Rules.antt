-- ===== src/Instance/Rules.antt =====
-- The rules of the game: what a move is worth, and where the dice go.
use txgg.Base.{
  ℕ, suc, ◌+◌, ◌%◌, ◌<◌, ◌≡◌, ◌⊎◌, inl, inr, refl, ap, Bool, true, false, Bool-cases, Option, none,
  some, List, [], ◌∷◌, arith, ltb, ==_ne, length, get_elem?, get_elem?_lt, Code, ok, err, u8_mod,
  ◌>>=◌,
}
use txgg.Instance.{
  InstanceNode, Board, InstanceData, move_loop, finish_move, handle_instance_move_request,
  handle_rand_dice_request,
}
use txgg.Instance.Walk.{
  Walks, IsClosed, HasTransport, Walks-HasTransport, Walks-OnBoard, Moved, move_loop-Moved,
}

-- What handle_instance_move_request does, on each way out.
abbrev pub Makes : Board → InstanceData → List ℕ → Option (Code × InstanceData) → Type 0
Makes b r ids none = ⊥
Makes b r ids (some (ok z, r')) =
    (start last : InstanceNode) × (jumps : Bool) × (get_elem? b.node r.seq_id ≡ some start)
    × Walks b jumps start ids last
    × (r' ≡ record r { dice = r'.dice; seq_id = last.seq_id; action = 1 })
    × (((jumps ≡ true) × (r'.dice ≡ 0)) ⊎ ((jumps ≡ false) × (r'.dice + length ids ≡ r.dice)))
Makes b r ids (some (err e, r')) =
    (r' ≡ r)
    ⊎ (((e ≡ 40) ⊎ (e ≡ 60)) × (r' ≡ record r { dice = length ids % u8_mod }) × HasTransport b)

module _ (b : Board) (r : InstanceData) (closed : IsClosed b) (small : r.dice < 256) where
  finished :
      (ids : List ℕ) (start : InstanceNode) (m : Option (Code × ℕ × InstanceNode))
      → get_elem? b.node r.seq_id ≡ some start
      → Moved b (length ids) ids start r.dice m
      → Makes b r ids (m >>= λ x. some (finish_move r (length ids) x))
  unfolding finish_move
  finished ids start none g m = m
  finished ids start (some (err e, dice, node)) g (inl d) = inl (ap (λ k. record r { dice = k }) d)
  finished ids start (some (err e, dice, node)) g (inr (e', d, t)) =
      inr (inl e', ap (λ k. record r { dice = k }) d, t)
  finished ids start (some (ok z, dice, node)) g (true, w, d) =
      elim (Bool-cases (ltb dice (length ids))) [
        | inl t ↦ rw t (
            inr (
              inr refl,
              ap (λ k. record r { dice = k }) d,
              Walks-HasTransport w (r.seq_id, g) refl,
            ))
        | inr t ↦ rw t (start, node, true, g, w, refl, inl (refl, ground (arith, t, d)))
      ]
  finished ids start (some (ok z, dice, node)) g (false, w, d) =
      elim (Bool-cases (ltb dice (length ids))) [
        | inl t ↦ rw t (inl (ap (λ k. record r { dice = k }) d))
        | inr t ↦ rw t (start, node, false, g, w, refl, inr (refl, ground (arith, t, d, small)))
      ]

  -- handle_instance_move_request on a board without ways off it, for a role that stands on a node: a
  -- move that is accepted is a path along neighbouring nodes, by the ids of the request cut to 16 bits,
  -- from where the role stands to where it stands afterwards, only its last step may jump, and only from a transport node; its length is
  -- taken off the dice, which a jump leaves at 0. A move that is refused changes nothing, but on a
  -- board with a transport node one that fails with -40 or -60 may set the dice to the length of the
  -- request.
  pub handle_instance_move_request-Makes :
      (ids : List ℕ)
      → r.seq_id < length b.node
      → Makes b r ids (handle_instance_move_request b r ids)
  unfolding handle_instance_move_request
  handle_instance_move_request-Makes [] on = inl refl
  handle_instance_move_request-Makes (id ∷ ids) on =
      let (start, g) = get_elem?_lt b.node r.seq_id on in
      rw (==_ne (suc (length ids)) 0 (omega arith), g)
        (finished (id ∷ ids) start (move_loop b (length (id ∷ ids)) (id ∷ ids) start r.dice) g
          (move_loop-Moved b (length (id ∷ ids)) closed (id ∷ ids) start r.dice (r.seq_id, g)))

-- The turns of one role: it rolls the dice, or moves.
pub data Turn : Type 0 where
  roll : ℕ → Turn
  go : List ℕ → Turn

-- The role, how far it has walked, and what it has rolled in all.
pub record Play : Type 0 where
  pub role : InstanceData
  pub walked : ℕ
  pub rolled : ℕ

abbrev pub rolled_more : Play → Code × InstanceData × Option ℕ → Play
rolled_more p (code, r, none) = record p { role = r }
rolled_more p (code, r, some n) = record p { role = r; rolled = p.rolled + n }

abbrev pub walked_more : Play → ℕ → Code × InstanceData → Play
walked_more p n (ok z, r) = record p { role = r; walked = p.walked + n }
walked_more p n (err e, r) = record p { role = r }

abbrev pub turn : Board → Play → Turn → Option Play
turn b p (roll rand) = some (rolled_more p (handle_rand_dice_request rand p.role))
turn b p (go ids) =
    handle_instance_move_request b p.role ids >>= λ x. some (walked_more p (length ids) x)

pub play : Board → Play → List Turn → Option Play
play b p [] = some p
play b p (t ∷ ts) = turn b p t >>= λ p'. play b p' ts

-- The walked steps and the dice that are left add up to what was rolled, and the role stands on a node.
pub record IsFair (b : Board) (start : ℕ) (p : Play) : Type 0 where
  pub adds_up : p.walked + p.role.dice ≡ p.rolled + start
  pub small : p.role.dice < 256
  pub special : p.role.special_dice < 256
  pub on : p.role.seq_id < length b.node

abbrev pub Ends : Board → ℕ → Option Play → Type 0
Ends b start none = ⊥
Ends b start (some p) = IsFair b start p

-- Every number that is rolled is one of a byte.
abbrev pub Rolls : List Turn → Type 0
Rolls [] = Unit
Rolls (roll n ∷ ts) = (n < 256) × Rolls ts
Rolls (go ids ∷ ts) = Rolls ts

module _ (b : Board) (closed : IsClosed b) (plain : ¬ HasTransport b)
    (seq : (i : ℕ) (n : InstanceNode) → get_elem? b.node i ≡ some n → n.seq_id < length b.node)
    (start : ℕ) where
  rolled-IsFair :
      (p : Play) (rand : ℕ)
      → rand < 256
      → IsFair b start p
      → IsFair b start (rolled_more p (handle_rand_dice_request rand p.role))
  unfolding handle_rand_dice_request
  rolled-IsFair p rand lt v = ground arith

  walked-IsFair :
      (p : Play) (ids : List ℕ) (m : Option (Code × InstanceData))
      → IsFair b start p
      → Makes b p.role ids m
      → Ends b start (m >>= λ x. some (walked_more p (length ids) x))
  walked-IsFair p ids none v m = m
  walked-IsFair p ids (some (ok z, r')) v (first, last, jumps, g, w, e, inl (j, _)) =
      absurd (plain (Walks-HasTransport w (p.role.seq_id, g) j))
  walked-IsFair p ids (some (ok z, r')) v (first, last, jumps, g, w, e, inr (_, count)) =
      let (i, g') = Walks-OnBoard plain w (p.role.seq_id, g) in
      let special : r'.special_dice ≡ p.role.special_dice = ap (λ q. q.special_dice) e in
      let place : r'.seq_id ≡ last.seq_id = ap (λ q. q.seq_id) e in
      record {
        adds_up = omega (arith, v.adds_up);
        small = omega (arith, v.small);
        special = rw special v.special;
        on = rw place (seq i last g');
      }
  walked-IsFair p ids (some (err e, r')) v (inl same) = rw same v
  walked-IsFair p ids (some (err e, r')) v (inr (_, _, t)) = absurd (plain t)

  turn-IsFair :
      (p : Play) (t : Turn) → Rolls (t ∷ []) → IsFair b start p → Ends b start (turn b p t)
  turn-IsFair p (roll rand) lt v = rolled-IsFair p rand lt.0 v
  turn-IsFair p (go ids) lt v =
      walked-IsFair p ids (handle_instance_move_request b p.role ids) v
        (handle_instance_move_request-Makes b p.role closed v.small ids v.on)

  -- On a board without transport nodes, whose ways and seq_ids lead to nodes of the board, a role that
  -- only rolls and moves walks as far as its dice allow and no further: after any turns, whatever moves
  -- it asks for, the steps that it has walked and the dice that it has left add up to what it has rolled
  -- and the dice that it began with. It stands on a node of the board, and no request reads outside it.
  pub play-IsFair :
      (ts : List Turn) (p : Play) → Rolls ts → IsFair b start p → Ends b start (play b p ts)
  unfolding play
  play-IsFair [] p lt v = v
  play-IsFair (t ∷ ts) p lt v =
      next (turn b p t) (turn-IsFair p t (first t lt) v)
        (λ p' v'. play-IsFair ts p' (later t lt) v')
    where
      first : (t' : Turn) → Rolls (t' ∷ ts) → Rolls (t' ∷ [])
      first (roll n) (l, _) = (l, tt)
      first (go ids) l = tt

      later : (t' : Turn) → Rolls (t' ∷ ts) → Rolls ts
      later (roll n) (_, l) = l
      later (go ids) l = l

      next :
          (o : Option Play)
          → Ends b start o
          → ((p' : Play) → IsFair b start p' → Ends b start (play b p' ts))
          → Ends b start (o >>= λ p'. play b p' ts)
      next none v' k = v'
      next (some p') v' k = k p' v'
