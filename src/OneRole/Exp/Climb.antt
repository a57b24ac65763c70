-- ===== src/OneRole/Exp/Climb.antt =====
-- The loop of give_role_exp that raises the level.
use txgg.Base.{
  ℕ, zero, suc, ◌+◌, ◌%◌, ◌≤◌, ◌<◌, ◌≡◌, ◌⊎◌, inl, inr, refl, ap, sym, subst, ◌∙◌, Bool, true,
  false, Bool-cases, Option-cases, Option, none, some, arith, ltb, ◌==◌, ==_iff, ltb→lt, u16_mod,
  add32,
}
use txgg.OneRole.{OneRole, CfgPlayer}
use txgg.OneRole.Exp.{level_up, level_loop, give_exp, threshold, Raised}

mod_small : (n : ℕ) → n < u16_mod → n % u16_mod ≡ n
mod_small n small = omega arith

le_cases : (a b : ℕ) → a ≤ b → (a ≡ b) ⊎ (a + 1 ≤ b)
le_cases a b le = elim (Bool-cases (a == b)) [
  | inl e ↦ inl ((==_iff a b).0 e)
  | inr e ↦ inr (ground (arith, e, le))
]

module _ (get_player_config : ℕ → ℕ → Option CfgPlayer) where
  at_level : OneRole → ℕ → OneRole
  at_level r lv = record r {
    exp_levelup = threshold get_player_config r.profession lv;
    attr = record r.attr { level = lv };
  }

  raised : OneRole → OneRole
  raised r = at_level r (r.attr.level + 1)

  level_up_wraps :
      (r : OneRole) → level_up get_player_config r ≡ at_level r ((r.attr.level + 1) % u16_mod)
  unfolding level_up threshold at_level
  level_up_wraps r =
      elim (Option-cases (get_player_config r.profession ((r.attr.level + 1) % u16_mod))) [
        | inl e ↦ rw (level_up, threshold, e) refl
        | inr (row, e) ↦ rw (level_up, threshold, e) refl
      ]

  level_up_lem :
      (r : OneRole) → r.attr.level + 1 < u16_mod → level_up get_player_config r ≡ raised r
  unfolding raised
  level_up_lem r small = level_up_wraps r ∙ ap (at_level r) (mod_small (r.attr.level + 1) small)

  -- What the loop makes of a figure whose row has been looked up.
  Climbed : OneRole → Option (OneRole × Bool) → Type 0
  Climbed r none = ⊥
  Climbed r (some (r', dirty)) =
      (dirty ≡ true)
      × (r' ≡ record r {
        exp_levelup = r'.exp_levelup;
        attr = record r.attr { level = r'.attr.level };
      })
      × (r.exp < r'.exp_levelup)
      × (r.attr.level ≤ r'.attr.level)
      × (r'.exp_levelup ≡ threshold get_player_config r.profession r'.attr.level)
      × ((k : ℕ)
          → r.attr.level ≤ k
          → k < r'.attr.level
          → threshold get_player_config r.profession k ≤ r.exp)

  one_level_on :
      (r : OneRole) (o : Option (OneRole × Bool))
      → threshold get_player_config r.profession r.attr.level ≤ r.exp
      → Climbed (raised r) o
      → Climbed r o
  unfolding Climbed raised at_level
  one_level_on r none t c = c
  one_level_on r (some (r', dirty)) t (d, e, lt, le, at_row, passed) = (
    d,
    e,
    lt,
    omega (arith, le),
    at_row,
    λ k from to. elim (le_cases r.attr.level k from) [
      | inl same ↦ subst (λ x. threshold get_player_config r.profession x ≤ r.exp) same t
      | inr more ↦ passed k more to
    ],
  )

  loop_ends :
      (n : ℕ) (r : OneRole) (dirty : Bool)
      → ltb r.exp r.exp_levelup ≡ true
      → level_loop get_player_config (suc n) r dirty ≡ some (r, dirty)
  unfolding level_loop
  loop_ends n r dirty e = rw (level_loop, e) refl

  loop_goes :
      (n : ℕ) (r : OneRole) (dirty : Bool)
      → ltb r.exp r.exp_levelup ≡ false
      → r.attr.level + 1 < u16_mod
      → level_loop get_player_config (suc n) r dirty
        ≡ level_loop get_player_config n (raised r) true
  unfolding level_loop
  loop_goes n r dirty e small =
      rw (level_loop, e) (ap (λ x. level_loop get_player_config n x true) (level_up_lem r small))

  module _ (top : ℕ) (small : top < u16_mod) where
    climbs :
        (n : ℕ) (r : OneRole)
        → threshold get_player_config r.profession top ≡ 0xffff_ffff
        → r.exp < 0xffff_ffff
        → r.attr.level ≤ top
        → top < n + r.attr.level
        → r.exp_levelup ≡ threshold get_player_config r.profession r.attr.level
        → Climbed r (level_loop get_player_config n r true)
    unfolding Climbed raised at_level
    climbs zero r last few below fuel at_row = absurd (omega (arith, below, fuel))
    climbs (suc n) r last few below fuel at_row = elim (Bool-cases (ltb r.exp r.exp_levelup)) [
      | inl e ↦ subst (Climbed r) (sym (loop_ends n r true e)) (
        refl,
        refl,
        ltb→lt _ _ e,
        omega arith,
        at_row,
        λ k from to. absurd (omega (arith, from, to)),
      )
      | inr e ↦
          let more : threshold get_player_config r.profession r.attr.level ≤ r.exp =
            subst (λ x. x ≤ r.exp) at_row (ground (arith, e)) in
          let under = under_top more (le_cases r.attr.level top below) in
          subst (Climbed r) (sym (loop_goes n r true e (omega (arith, under, small))))
            (one_level_on r _ more (climbs n (raised r) last few under (omega (arith, fuel)) refl))
    ]
      where
        under_top :
            threshold get_player_config r.profession r.attr.level ≤ r.exp
            → (r.attr.level ≡ top) ⊎ (r.attr.level + 1 ≤ top)
            → r.attr.level + 1 ≤ top
        under_top more (inr le) = le
        under_top more (inl same) =
            absurd
              (omega (arith, few, more, last, ap (threshold get_player_config r.profession) same))

    raises :
        (n : ℕ) (r : OneRole)
        → threshold get_player_config r.profession top ≡ 0xffff_ffff
        → r.exp < 0xffff_ffff
        → r.attr.level < top
        → top < suc n + r.attr.level
        → Raised get_player_config r (level_loop get_player_config (suc n) r false)
    unfolding Raised raised at_level Climbed
    raises n r last few below fuel = elim (Bool-cases (ltb r.exp r.exp_levelup)) [
      | inl e ↦
          subst (Raised get_player_config r) (sym (loop_ends n r false e))
            (refl, ltb→lt _ _ e, inl (refl, refl, refl))
      | inr e ↦
          subst (Raised get_player_config r)
            (sym (loop_goes n r false e (omega (arith, below, small))))
            (whole_climb (level_loop get_player_config n (raised r) true) (ground (arith, e))
              (climbs n (raised r) last few (omega (arith, below)) (omega (arith, fuel)) refl))
    ]
      where
        whole_climb :
            (o : Option (OneRole × Bool))
            → r.exp_levelup ≤ r.exp
            → Climbed (raised r) o
            → Raised get_player_config r o
        whole_climb none more c = c
        whole_climb (some (r', dirty)) more (d, e, lt, le, row, passed) = (
          e,
          lt,
          inr (d, omega (arith, le), row, more, λ k from to. passed k (omega (arith, from)) to),
        )

    -- A figure that gains experience in give_role_exp, whose level is below a level `top` that the
    -- table does not have, and whose experience then is below 2 ^ 32 - 1: the loop ends, and the
    -- figure has less experience than its exp_levelup. Either it kept its level and its exp_levelup;
    -- or its experience had reached that bound, it is marked for new attributes, its exp_levelup is
    -- that of the row of its new level, and the new level is the first higher one whose row asks for
    -- more experience than it has. Nothing else of it changes.
    pub give_exp-Raised :
        (exp : ℕ) (r : OneRole)
        → get_player_config r.profession top ≡ none
        → r.attr.level < top
        → add32 r.exp exp < 0xffff_ffff
        → Raised get_player_config
            (record r { exp = add32 r.exp exp })
            (give_exp get_player_config exp r)
    unfolding give_exp threshold
    give_exp-Raised exp r last below few =
        raises 65535 (record r { exp = add32 r.exp exp }) (rw (threshold, last) refl) few below
          (omega arith)
