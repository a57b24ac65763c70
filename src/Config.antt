-- ===== src/Config.antt =====
-- server/game_srv/config.c: the tables that are read from the disk at the start, an array of pointers
-- to rows for each; a pointer is the row, and `none` is NULL. Opening, reading and unpacking the files
-- come before the modelled part: a load begins with the rows of the file, in its order. An id is a
-- bit pattern of 32 bits, so a negative one is large.
mod Tests
use txgg.Base.{
  ℕ, ◌≡◌, ◌<◌, refl, ◌∙◌, sym, subst, Bool, true, false, Bool-cases, inl, inr, Option, none, some,
  List, [], ◌∷◌, arith, zero, suc, ltb, ltb→lt, lt→ltb, ◌==◌, ==_iff, if◌then◌else◌, get_or, set,
  replicate, length, length-set, ap,
}

abbrev pub max_instance_map_config : ℕ
max_instance_map_config = 128

abbrev pub max_drop_config : ℕ
max_drop_config = 10240

abbrev pub max_attribute_config : ℕ
max_attribute_config = 40960

abbrev pub max_item_config : ℕ
max_item_config = 65535

abbrev pub max_npc_config : ℕ
max_npc_config = 10240

abbrev pub max_quest_main_config : ℕ
max_quest_main_config = 1000

abbrev pub max_map_config : ℕ
max_map_config = 256

abbrev pub max_skill_config : ℕ
max_skill_config = 256

abbrev pub max_player_prof_config : ℕ
max_player_prof_config = 8

abbrev pub max_player_level_config : ℕ
max_player_level_config = 256

module _ {A : Type 0} (size : ℕ) where
  -- The common shape of the lookups below.
  pub get_config_byid : List (Option A) → ℕ → Option A
  get_config_byid table id = if ltb id size then get_or table id none else none

  -- The loop of load_all_quest_main_config and of the other functions of its shape, over the rows.
  pub load_rows : (A → ℕ) → List A → List (Option A) → List (Option A)
  load_rows id_of [] table = table
  load_rows id_of (row ∷ rows) table =
      load_rows id_of rows
        (if ltb (id_of row) size then set table (id_of row) (some row) else table)

pub get_instance_map_config_byid : {A : Type 0} → List (Option A) → ℕ → Option A
unfolding get_config_byid
get_instance_map_config_byid table id = get_config_byid max_instance_map_config table id

pub get_drop_config_byid : {A : Type 0} → List (Option A) → ℕ → Option A
unfolding get_config_byid
get_drop_config_byid table id = get_config_byid max_drop_config table id

pub get_attribute_config_byid : {A : Type 0} → List (Option A) → ℕ → Option A
unfolding get_config_byid
get_attribute_config_byid table id = get_config_byid max_attribute_config table id

pub get_item_config_byid : {A : Type 0} → List (Option A) → ℕ → Option A
unfolding get_config_byid
get_item_config_byid table id = get_config_byid max_item_config table id

pub get_npc_config_byid : {A : Type 0} → List (Option A) → ℕ → Option A
unfolding get_config_byid
get_npc_config_byid table id = get_config_byid max_npc_config table id

pub get_quest_main_config_byid : {A : Type 0} → List (Option A) → ℕ → Option A
unfolding get_config_byid
get_quest_main_config_byid table id = get_config_byid max_quest_main_config table id

pub get_map_config_byid : {A : Type 0} → List (Option A) → ℕ → Option A
unfolding get_config_byid
get_map_config_byid table id = get_config_byid max_map_config table id

pub get_skill_config_byid : {A : Type 0} → List (Option A) → ℕ → Option A
unfolding get_config_byid
get_skill_config_byid table id = get_config_byid max_skill_config table id

-- get_player_config_byid; the table has a row of cells for each profession.
pub get_player_config_byid : {A : Type 0} → List (List (Option A)) → ℕ → ℕ → Option A
unfolding get_config_byid
get_player_config_byid table prof level =
    if ltb prof max_player_prof_config
    then get_config_byid max_player_level_config (get_or table prof []) level
    else none

-- The last row with an id.
pub last_row : {A : Type 0} → (A → ℕ) → ℕ → List A → Option A → Option A
last_row id_of id [] found = found
last_row id_of id (row ∷ rows) found =
    last_row id_of id rows (if id_of row == id then some row else found)

get_or-set :
    {A : Type 0} (t : List (Option A)) (i j : ℕ) (v : Option A)
    → i < length t
    → get_or (set t i v) j none ≡ (if i == j then v else get_or t j none)
get_or-set [] i j v h = absurd (omega arith)
get_or-set (x ∷ t) zero zero v h = refl
get_or-set (x ∷ t) zero (suc j) v h = ground arith
get_or-set (x ∷ t) (suc i) zero v h = ground arith
get_or-set (x ∷ t) (suc i) (suc j) v h = ground (arith, get_or-set t i j v (omega arith))

module _ {A : Type 0} (size : ℕ) (id_of : A → ℕ) where
  unfoldable store_row : A → List (Option A) → List (Option A)
  store_row row table = if ltb (id_of row) size then set table (id_of row) (some row) else table

  store_row-get_or :
      (row : A) (table : List (Option A)) (id : ℕ)
      → length table ≡ size
      → id < size
      → get_or (store_row row table) id none
        ≡ (if id_of row == id then some row else get_or table id none)
  unfolding store_row
  store_row-get_or row table id len h = elim (Bool-cases (ltb (id_of row) size)) [
    | inl e ↦
        rw e (
          get_or-set table (id_of row) id (some row)
            (omega (arith, len, ltb→lt (id_of row) size e)))
    | inr e ↦ rw e (ground (arith, e))
  ]

  store_row-length :
      (row : A) (table : List (Option A)) → length (store_row row table) ≡ length table
  unfolding store_row
  store_row-length row table = elim (Bool-cases (ltb (id_of row) size)) [
    | inl e ↦ rw e (length-set table (id_of row) (some row))
    | inr e ↦ rw e refl
  ]

  load_rows-get_or :
      (rows : List A) (table : List (Option A)) (id : ℕ)
      → length table ≡ size
      → id < size
      → get_or (load_rows size id_of rows table) id none
        ≡ last_row id_of id rows (get_or table id none)
  unfolding load_rows last_row store_row
  load_rows-get_or [] table id len h = refl
  load_rows-get_or (row ∷ rows) table id len h =
      load_rows-get_or rows (store_row row table) id (store_row-length row table ∙ len) h
      ∙ ap (last_row id_of id rows) (store_row-get_or row table id len h)

  -- After loading into an empty table, a lookup gives the last row of the file with that id, if the
  -- id is below the size, and else nothing.
  pub get_config_byid-load_rows :
      (rows : List A) (id : ℕ)
      → get_config_byid size (load_rows size id_of rows (replicate size none)) id
        ≡ (if ltb id size then last_row id_of id rows none else none)
  unfolding get_config_byid
  get_config_byid-load_rows rows id = elim (Bool-cases (ltb id size)) [
    | inl e ↦ rw e (
        load_rows-get_or rows (replicate size none) id (length-replicate size) (ltb→lt id size e)
        ∙ ap (last_row id_of id rows) (get_or-replicate size id))
    | inr e ↦ rw e refl
  ]
    where
      length-replicate : (n : ℕ) → length (replicate {A = Option A} n none) ≡ n
      length-replicate zero = refl
      length-replicate (suc n) = ap suc (length-replicate n)

      get_or-replicate : (n i : ℕ) → get_or (replicate {A = Option A} n none) i none ≡ none
      get_or-replicate zero i = refl
      get_or-replicate (suc n) zero = refl
      get_or-replicate (suc n) (suc i) = get_or-replicate n i

  HasId : ℕ → Option A → Type 0
  HasId id none = Unit
  HasId id (some row) = id_of row ≡ id

  last_row-HasId :
      (id : ℕ) (rows : List A) (found : Option A)
      → HasId id found
      → HasId id (last_row id_of id rows found)
  unfolding last_row HasId
  last_row-HasId id [] found h = h
  last_row-HasId id (row ∷ rows) found h =
      last_row-HasId id rows _ (elim (Bool-cases (id_of row == id)) [
        | inl e ↦ rw e ((==_iff (id_of row) id).0 e)
        | inr e ↦ rw e h
      ])

  -- The row that a lookup gives has the id.
  pub get_config_byid-same_id :
      (rows : List A) (id : ℕ) (row : A)
      → get_config_byid size (load_rows size id_of rows (replicate size none)) id ≡ some row
      → (id_of row ≡ id) × (id < size)
  unfolding HasId
  get_config_byid-same_id rows id row e =
      let q = sym (get_config_byid-load_rows rows id) ∙ e in
      elim (Bool-cases (ltb id size)) [
        | inl h ↦ (subst (HasId id) (rw h at q) (last_row-HasId id rows none tt), ltb→lt id size h)
        | inr h ↦ absurd (none_ne (rw h at q))
      ]
    where
      none_ne : ◌≡◌ {A = Option A} none (some row) → ⊥
      none_ne p = cc
