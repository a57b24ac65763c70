-- ===== src/OneRole/Buffs.antt =====
-- A buff comes and goes.
use txgg.Base.{
  ℕ, ◌≤◌, ◌<◌, ◌≡◌, ◌≢◌, ◌⊎◌, refl, ap, ◌∙◌, sym, false, Option, none, some, arith, compare, length,
  leb, Bool-cases, inl, inr, ==_self, ==_iff, leb→le, ◌>>=◌, ◌==◌, if◌then◌else◌, Code, ok, err,
  u32_mod, sub32-add32,
}
use txgg.SortArray.{Array, live}
use txgg.SortArray.Order.{KeyOrder}
use txgg.SortArray.Table.{lookup, lookup-put, lookup-erase, put-IsSorted, erase-IsSorted}
use txgg.SortArray.Update.{IsValid, Inserts, Deletes, array_insert-Inserts, array_delete-Deletes}
use txgg.OneRole.{
  BuffData, Power, OneRole, CfgAttribute, CfgSkill, max_buff_per_role, comp_role_buff, set_buff,
  set_power, add_one_role_buff, remove_one_role_buff, add_power, sub_power, buff_config, add_buff,
  remove_buff,
}

pub comp_role_buff_lem : (a b : BuffData) → comp_role_buff a b ≡ compare a.id b.id
unfolding comp_role_buff
comp_role_buff_lem a b = ground arith

abbrev pub buffs : KeyOrder BuffData
buffs = record { compar = comp_role_buff; key = λ b. b.id; compar_lem = comp_role_buff_lem }

-- The buffs are sorted and fit the array of the fighter.
pub record HasBuffs (r : OneRole) : Type 0 where
  pub sorted : IsValid {A = BuffData} (λ b. b.id) r.attr.buff
  pub size : length r.attr.buff.mem ≡ max_buff_per_role

abbrev pub find_buff : ℕ → OneRole → Option BuffData
find_buff id r = lookup (λ b. b.id) id (live r.attr.buff)

-- All ten values are those of 32 bits.
pub record IsWord (p : Power) : Type 0 where
  pub phy_attack : p.phy_attack < u32_mod
  pub phy_defence : p.phy_defence < u32_mod
  pub magic_attack : p.magic_attack < u32_mod
  pub magic_defence : p.magic_defence < u32_mod
  pub parry_rate : p.parry_rate < u32_mod
  pub counterattack_rate : p.counterattack_rate < u32_mod
  pub hit_rate : p.hit_rate < u32_mod
  pub jink_rate : p.jink_rate < u32_mod
  pub crit_rate : p.crit_rate < u32_mod
  pub speed : p.speed < u32_mod

Power-ext :
    (p q : Power)
    → p.phy_attack ≡ q.phy_attack
    → p.phy_defence ≡ q.phy_defence
    → p.magic_attack ≡ q.magic_attack
    → p.magic_defence ≡ q.magic_defence
    → p.parry_rate ≡ q.parry_rate
    → p.counterattack_rate ≡ q.counterattack_rate
    → p.hit_rate ≡ q.hit_rate
    → p.jink_rate ≡ q.jink_rate
    → p.crit_rate ≡ q.crit_rate
    → p.speed ≡ q.speed
    → p ≡ q
Power-ext p q a b c d e f g h i j = cc

sub_power-add_power : (p c : Power) → IsWord p → IsWord c → sub_power (add_power p c) c ≡ p
unfolding sub_power add_power
sub_power-add_power p c v w =
    Power-ext (sub_power (add_power p c) c) p
      (sub32-add32 p.phy_attack c.phy_attack v.phy_attack w.phy_attack)
      (sub32-add32 p.phy_defence c.phy_defence v.phy_defence w.phy_defence)
      (sub32-add32 p.magic_attack c.magic_attack v.magic_attack w.magic_attack)
      (sub32-add32 p.magic_defence c.magic_defence v.magic_defence w.magic_defence)
      (sub32-add32 p.parry_rate c.parry_rate v.parry_rate w.parry_rate)
      (sub32-add32 p.counterattack_rate c.counterattack_rate v.counterattack_rate
        w.counterattack_rate)
      (sub32-add32 p.hit_rate c.hit_rate v.hit_rate w.hit_rate)
      (sub32-add32 p.jink_rate c.jink_rate v.jink_rate w.jink_rate)
      (sub32-add32 p.crit_rate c.crit_rate v.crit_rate w.crit_rate)
      (sub32-add32 p.speed c.speed v.speed w.speed)

-- What add_buff does, given the row of the table.
abbrev pub Buffed : Option CfgAttribute → OneRole → ℕ → ℕ → Option (Code × OneRole) → Type 0
Buffed row r unset id none = ⊥
Buffed none r unset id (some (code, r')) = (code ≡ err 1) × (r' ≡ r)
Buffed (some cfg) r unset id (some (ok n, r')) =
    (find_buff id r ≡ none)
    × (r.attr.buff.nmemb < max_buff_per_role)
    × (r'.attr.power ≡ add_power r.attr.power cfg.power)
    × ((k : ℕ)
        → find_buff k r'
          ≡ (if id == k then some (record { id = id; continue_time = unset }) else find_buff k r))
    × HasBuffs r'
Buffed (some cfg) r unset id (some (err n, r')) =
    ((find_buff id r ≢ none) ⊎ (max_buff_per_role ≤ r.attr.buff.nmemb))
    × (n ≡ 1)
    × (r' ≡ set_power r (add_power r.attr.power cfg.power))

module _ (r : OneRole) (unset id : ℕ) (v : HasBuffs r) where
  buffed_row :
      (cfg : CfgAttribute) (a : Option (Code × Array BuffData))
      → r.attr.buff.nmemb < max_buff_per_role
      → Inserts buffs (record { id = id; continue_time = unset }) r.attr.buff a
      → Buffed (some cfg) r unset id (
          a >>= λ (code, buff).
          some (code, set_buff (set_power r (add_power r.attr.power cfg.power)) buff))
  buffed_row cfg none room i = i
  buffed_row cfg (some (ok n, arr)) room (free, e, _, count, len) = (
    free,
    room,
    refl,
    λ k. rw e (
        lookup-put (λ b. b.id) (record { id = id; continue_time = unset }) k (live r.attr.buff)
          free),
    record {
      sorted = record {
        sorted = rw e (put-IsSorted (λ b. b.id) _ (live r.attr.buff) v.sorted.sorted);
        fits = omega (arith, v.size);
      };
      size = len ∙ v.size;
    },
  )
  buffed_row cfg (some (err n, arr)) room (taken, z, same) =
      (inl taken, z, ap (set_buff (set_power r (add_power r.attr.power cfg.power))) same)

  buffed :
      (row : Option CfgAttribute)
      → Buffed row r unset id (elim row [
        | none ↦ some (err 1, r)
        | some cfg_attr ↦
            add_one_role_buff
              (set_power r (add_power r.attr.power cfg_attr.power))
              (record { id = id; continue_time = unset })
      ])
  unfolding add_one_role_buff
  buffed none = (refl, refl)
  buffed (some cfg) = elim (Bool-cases (leb max_buff_per_role r.attr.buff.nmemb)) [
    | inl e ↦ rw e (inr (leb→le _ _ e), refl, refl)
    | inr e ↦ rw e (
        buffed_row cfg _ (full e) (
          array_insert-Inserts buffs (record { id = id; continue_time = unset }) r.attr.buff
            v.sorted (omega (arith, full e, v.size))))
  ]
    where
      full : leb max_buff_per_role r.attr.buff.nmemb ≡ false → r.attr.buff.nmemb < max_buff_per_role
      full e = ground (arith, e)

  module _ (skills : ℕ → Option CfgSkill) (attributes : ℕ → Option CfgAttribute) where
    -- add_buff on a fighter with sorted buffs: without a row in the tables it returns -1 and changes
    -- nothing; a new buff joins the others and its attributes are added; a buff that the fighter has
    -- already, or one too many, is refused with -1, and yet its attributes are added.
    pub add_buff-Buffed :
        Buffed (buff_config skills attributes id) r unset id (add_buff skills attributes r unset id)
    unfolding add_buff
    add_buff-Buffed = buffed (buff_config skills attributes id)

-- The fighter is as `r` was, up to the order in memory.
abbrev pub Restored : OneRole → Option (Code × OneRole) → Type 0
Restored r none = ⊥
Restored r (some (err n, r')) = ⊥
Restored r (some (ok n, r')) =
    (n ≡ 0)
    × (r'.attr.power ≡ r.attr.power)
    × ((k : ℕ) → find_buff k r' ≡ find_buff k r)
    × HasBuffs r'

module _ (r : OneRole) (unset unset' id n : ℕ) (cfg : CfgAttribute) (r1 : OneRole) where
  module _ (w : IsWord r.attr.power) (w' : IsWord cfg.power) where
    unbuffed :
        (a : Option (Code × Array BuffData))
        → Buffed (some cfg) r unset id (some (ok n, r1))
        → Deletes buffs (record { id = id; continue_time = unset' }) r1.attr.buff a
        → Restored r (
            a >>= λ (code, buff).
            some (code, set_buff (set_power r1 (sub_power r1.attr.power cfg.power)) buff))
    unbuffed none b d = d
    unbuffed (some (err m, arr)) (free, _, _, found, _) (gone, _, _) =
        absurd (some≢none (sym (rw (==_self id) at (found id)) ∙ gone))
      where
        some≢none : {x : BuffData} → ¬ (◌≡◌ {A = Option BuffData} (some x) none)
        some≢none e = cc
    unbuffed (some (ok m, arr)) (free, _, power, found, b) (_, z, e, count, len) = (
      z,
      ap (λ p. sub_power p cfg.power) power ∙ sub_power-add_power r.attr.power cfg.power w w',
      λ k. rw e (lookup-erase (λ b. b.id) id k (live r1.attr.buff) b.sorted.sorted) ∙ back k,
      record {
        sorted = record {
          sorted = rw e (erase-IsSorted (λ b. b.id) id (live r1.attr.buff) b.sorted.sorted);
          fits = omega (arith, b.sorted.fits);
        };
        size = len ∙ b.size;
      },
    )
      where
        back : (k : ℕ) → (if id == k then none else find_buff k r1) ≡ find_buff k r
        back k = elim (Bool-cases (id == k)) [
          | inl t ↦ rw t (sym (rw ((==_iff id k).0 t) at free))
          | inr f ↦ rw f (rw f at (found k))
        ]

    -- remove_buff after an add_buff that succeeded: it returns 0, the ten attributes are what they
    -- were, also when they wrapped around, and so is what is found of every buff.
    pub remove_buff-add_buff :
        (skills : ℕ → Option CfgSkill) (attributes : ℕ → Option CfgAttribute)
        → HasBuffs r
        → buff_config skills attributes id ≡ some cfg
        → add_buff skills attributes r unset id ≡ some (ok n, r1)
        → Restored r (remove_buff skills attributes r1 unset' id)
    unfolding remove_buff remove_one_role_buff
    remove_buff-add_buff skills attributes v row e =
        let b : Buffed (some cfg) r unset id (some (ok n, r1)) =
          rw (row, e) at (add_buff-Buffed r unset id v skills attributes) in
        rw (row, Restored)
          (unbuffed _ b (
            array_delete-Deletes buffs (record { id = id; continue_time = unset' }) r1.attr.buff
              b.4.sorted))
