-- ===== src/OneRole/Exp.antt =====
-- give_role_exp of role.c: the experience of the figures of a role, and the levels that it makes.
pub mod Climb
mod Tests
use txgg.Base.{
  ℕ, zero, suc, ◌+◌, ◌%◌, ◌≤◌, ◌<◌, ◌≡◌, ◌⊎◌, inl, inr, refl, ap, sym, subst, ◌∙◌, Bool, true,
  false, Bool-cases, Option-cases, Option, none, some, List, [], ◌∷◌, ◌++◌, map, arith, ltb, ◌==◌,
  ==_iff, ltb→lt, if◌then◌else◌, ◌>>=◌, get_or, Code, u16_mod, add32,
}
use txgg.OneRole.{OneRole, Attribute, CfgAttribute, CfgPlayer}
use txgg.OneRole.Levels.{
  AttrChanged, reset_exp_levelup, reset_one_role_attribute, fill_one_role_attr_changed,
}

-- is_role_friend_exist
abbrev pub is_role_friend_exist : OneRole → Bool
is_role_friend_exist r = if get_or r.attr.name 0 0 == 0 then false else true

-- The notification: the experience of the first figure, `none` where it is not set, and the changes
-- that follow it.
pub record ExpNotify : Type 0 where
  pub exp : Option ℕ
  pub attr : List AttrChanged

module _ (get_player_config : ℕ → ℕ → Option CfgPlayer) where
  -- The body of the inner loop.
  unfoldable pub level_up : OneRole → OneRole
  unfolding reset_exp_levelup
  level_up r =
      let raised : OneRole = record r {
        attr = record r.attr { level = (r.attr.level + 1) % u16_mod };
      } in
      (reset_exp_levelup get_player_config raised).1

  -- The inner loop, `none` where the fuel is used up: the figure, and whether it is dirty.
  unfoldable pub level_loop : ℕ → OneRole → Bool → Option (OneRole × Bool)
  unfolding level_up
  level_loop zero r dirty = none
  level_loop (suc n) r dirty = elim (ltb r.exp r.exp_levelup) [
    | true ↦ some (r, dirty)
    | false ↦ level_loop n (level_up r) true
  ]

  -- The body of the first loop, for a figure that exists.
  pub give_exp : ℕ → OneRole → Option (OneRole × Bool)
  unfolding level_loop
  give_exp exp r = level_loop u16_mod (record r { exp = add32 r.exp exp }) false

  -- The first loop, which ends at the first figure that does not exist.
  unfoldable pub give_all : ℕ → List OneRole → Option (List (OneRole × Bool))
  unfolding give_exp
  give_all exp [] = some []
  give_all exp (r ∷ rs) =
      if is_role_friend_exist r
      then (give_exp exp r >>= λ x. give_all exp rs >>= λ xs. some (x ∷ xs))
      else some (map (λ x. (x, false)) (r ∷ rs))

  module _ (get_attribute_config : ℕ → Option CfgAttribute) where
    -- The second loop.
    unfoldable pub reset_dirty : ℕ → List (OneRole × Bool) → List OneRole × List AttrChanged
    reset_dirty pos [] = ([], [])
    reset_dirty pos ((r, dirty) ∷ rs) =
        let (rest, changes) = reset_dirty (suc pos) rs in
        let r' = reset_one_role_attribute get_player_config get_attribute_config r in
        if dirty
        then (r' ∷ rest, fill_one_role_attr_changed r' pos ++ changes)
        else (r ∷ rest, changes)

    -- give_role_exp on the figures of a role.
    pub give_role_exp : ℕ → List OneRole → Option (List OneRole × ExpNotify)
    unfolding give_all reset_dirty
    give_role_exp exp rs = give_all exp rs >>= λ given.
        let (rs', changes) = reset_dirty 0 given in
        some (rs', record { exp = first given; attr = changes })
      where
        first : List (OneRole × Bool) → Option ℕ
        first [] = none
        first ((r, dirty) ∷ xs) = if is_role_friend_exist r then some r.exp else none

  -- The experience that a level asks for.
  pub threshold : ℕ → ℕ → ℕ
  threshold profession level = elim (get_player_config profession level) [
    | none ↦ 0xffff_ffff
    | some row ↦ row.exp
  ]

  -- What the loop makes of a figure.
  pub Raised : OneRole → Option (OneRole × Bool) → Type 0
  Raised r none = ⊥
  Raised r (some (r', dirty)) =
      (r'
        ≡ record r { exp_levelup = r'.exp_levelup; attr = record r.attr { level = r'.attr.level } })
      × (r.exp < r'.exp_levelup)
      × (((dirty ≡ false) × (r'.attr.level ≡ r.attr.level) × (r'.exp_levelup ≡ r.exp_levelup))
          ⊎ ((dirty ≡ true)
              × (r.attr.level < r'.attr.level)
              × (r'.exp_levelup ≡ threshold r.profession r'.attr.level)
              × (r.exp_levelup ≤ r.exp)
              × ((k : ℕ)
                  → r.attr.level < k
                  → k < r'.attr.level
                  → threshold r.profession k ≤ r.exp)))
