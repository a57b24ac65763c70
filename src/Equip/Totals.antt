-- ===== src/Equip/Totals.antt =====
-- How many of an item a role has: in its bag, and on all the members of its team.
use txgg.Base.{
  ℕ, zero, suc, ◌+◌, ◌≤◌, ◌<◌, ◌≡◌, inl, inr, refl, ap, Option, Bool-cases, none, some, arith, ◌==◌,
  ◌||◌, if◌then◌else◌,
}
use txgg.Container.{update, count_thing_num}
use txgg.Equip.{
  EquipRole, max_friend_per_role, max_equip_per_role, out_of_range, get_role_equip_id,
  set_role_equip_id,
}

-- The sum of `g` over the first `n` values of `h`.
abbrev pub sum_to {ℓ} : {A : Type ℓ} → (A → ℕ) → (ℕ → A) → ℕ → ℕ
sum_to g h zero = 0
sum_to g h (suc n) = g (h n) + sum_to g h n

sum_to-update_past {ℓ} :
    {A : Type ℓ} (g : A → ℕ) (h : ℕ → A) (i : ℕ) (a : A) (n : ℕ)
    → n ≤ i
    → sum_to g (update h i a) n ≡ sum_to g h n
sum_to-update_past g h i a zero l = refl
sum_to-update_past g h i a (suc n) l =
    ground (arith, sum_to-update_past g h i a n (omega (arith, l)))

sum_to-update {ℓ} :
    {A : Type ℓ} (g : A → ℕ) (h : ℕ → A) (i : ℕ) (a : A) (n : ℕ)
    → i < n
    → sum_to g (update h i a) n + g (h i) ≡ sum_to g h n + g a
sum_to-update g h i a zero l = absurd (omega (arith, l))
sum_to-update g h i a (suc n) l = elim (Bool-cases (i == n)) [
  | inl e ↦
      let q : i ≡ n = ground (arith, e) in
      let past = sum_to-update_past g h i a n (omega (arith, q)) in
      let same : g (h i) ≡ g (h n) = ap (λ k. g (h k)) q in rw (e, past, same) (omega arith)
  | inr e ↦
      let below = sum_to-update g h i a n (ground (arith, e, l)) in rw e (omega (arith, below))
]

-- One entry of a table of `n` rows of `m` changes.
sum_to-update_table :
    (g : ℕ → ℕ) (h : ℕ → ℕ → ℕ) (i k a n m : ℕ)
    → i < n
    → k < m
    → sum_to (λ row. sum_to g row m) (update h i (update (h i) k a)) n + g (h i k)
      ≡ sum_to (λ row. sum_to g row m) h n + g a
sum_to-update_table g h i k a n m p q =
    let row = sum_to-update g (h i) k a m q in
    let all = sum_to-update (λ r. sum_to g r m) h i (update (h i) k a) n p in
    omega (arith, row, all)

abbrev pub one_if : ℕ → ℕ → ℕ
one_if id worn = if worn == id then 1 else 0

abbrev pub worn_by : ℕ → (ℕ → ℕ) → ℕ
worn_by id row = sum_to (one_if id) row max_equip_per_role

-- How many of the item the role has.
unfoldable pub owned : EquipRole → ℕ → ℕ
owned role id = count_thing_num role.bag id + sum_to (worn_by id) role.equip max_friend_per_role

-- A position of the equipment that exists.
abbrev pub InRange : ℕ → ℕ → Type 0
InRange friend_pos equip_pos = (friend_pos < max_friend_per_role) × (equip_pos < max_equip_per_role)

module _ (role : EquipRole) (friend_pos equip_pos : ℕ) where
  get_role_equip_id_lem :
      InRange friend_pos equip_pos
      → get_role_equip_id role friend_pos equip_pos ≡ role.equip friend_pos equip_pos
  unfolding get_role_equip_id
  get_role_equip_id_lem r = ground (arith, r)

  -- set_role_equip_id: it fails out of range; else all that the role has stays, but for what the
  -- position loses and gets.
  abbrev pub Wears : ℕ → Option EquipRole → Type 0
  Wears id none = ¬ InRange friend_pos equip_pos
  Wears id (some role') =
      InRange friend_pos equip_pos
      × (role'.bag ≡ role.bag)
      × ((j : ℕ)
          → owned role' j + one_if j (get_role_equip_id role friend_pos equip_pos)
            ≡ owned role j + one_if j id)

  moved :
      (id j : ℕ)
      → InRange friend_pos equip_pos
      → owned
            (record role {
              equip = update role.equip friend_pos (update (role.equip friend_pos) equip_pos id);
            })
            j
          + one_if j (get_role_equip_id role friend_pos equip_pos)
        ≡ owned role j + one_if j id
  unfolding owned
  moved id j r = rw (get_role_equip_id_lem r) (
      added (count_thing_num role.bag j) _ _ _ _ (
        sum_to-update_table (one_if j) role.equip friend_pos equip_pos id max_friend_per_role
          max_equip_per_role r.0 r.1))
    where
      added : (c s a s' b : ℕ) → s + a ≡ s' + b → c + s + a ≡ c + s' + b
      added c s a s' b e = omega (arith, e)

  pub set_role_equip_id-Wears : (id : ℕ) → Wears id (set_role_equip_id role friend_pos equip_pos id)
  unfolding set_role_equip_id
  set_role_equip_id-Wears id =
      elim (Bool-cases (
        out_of_range max_friend_per_role friend_pos || out_of_range max_equip_per_role equip_pos)) [
          | inl e ↦ rw e (λ r. ground (arith, r, e))
          | inr e ↦
              let r : InRange friend_pos equip_pos = ground (arith, e) in
              rw e (r, refl, λ j. moved id j r)
        ]
