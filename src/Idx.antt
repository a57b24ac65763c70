-- ===== src/Idx.antt =====
-- common-lib/lib/idx.h and idx.c: a pointer into a pool together with the pool index of what it
-- points to, which outlives a restart. A pointer is modelled by the index of its object; `none` is
-- NULL, or the list head where the pointer is a link of a circular list.
use txgg.Base.{ℕ, Option, none, some, Ordering, ◌==◌, ltb, if◌then◌else◌}

abbrev pub max_idx : ℕ
max_idx = 0xffff_ffff

-- struct idx_struct
pub record Idx : Type 0 where
  pub p : Option ℕ
  pub idx : ℕ

abbrev pub null_idx : Idx
null_idx = record { p = none; idx = max_idx }

-- The slot that points to an object: GET_IDX is its pool index.
abbrev pub idx_of : Option ℕ → Idx
idx_of none = null_idx
idx_of (some t) = record { p = some t; idx = t }

-- comp_idx
unfoldable pub comp_idx : Idx → Idx → Ordering
comp_idx a b =
    if a.idx == b.idx then Ordering.eq else if ltb a.idx b.idx then Ordering.lt else Ordering.gt

-- One write to a store.
abbrev pub update {ℓ} : {A : Type ℓ} → (ℕ → A) → ℕ → A → ℕ → A
update f i a j = if i == j then a else f j
