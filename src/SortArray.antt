-- ===== src/SortArray.antt =====
-- common-lib/lib/sortarray.c: arrays kept sorted under a comparison function. The memory behind
-- `base` is the list `mem`, of which the first `nmemb` cells are the members; the element size only
-- turns an index into a byte offset. `none` is an access outside `mem`, or a loop out of fuel.
pub mod Order
pub mod Search
pub mod Table
pub mod Update
pub mod Keyed
mod Tests
use txgg.Base.{
  ℕ, zero, suc, ◌+◌, ◌-◌, ◌/◌, Ordering, Bool, true, false, ◌&&◌, Option, none, some, List, ◌++◌,
  ltb, leb, ◌==◌, if◌then◌else◌, ◌>>=◌, length, get_elem?, set, take, drop, Code, ok, err,
}

pub record Array {ℓ} (A : Type ℓ) : Type ℓ where
  pub mem : List A
  pub nmemb : ℕ

-- comp_uint32, comp_uint64 and every other comparison of an unsigned field: 0, 1 or -1.
unfoldable pub comp_uint : ℕ → ℕ → Ordering
comp_uint a b = if a == b then Ordering.eq else if ltb b a then Ordering.gt else Ordering.lt

module _ {ℓ} {A : Type ℓ} where
  -- The members of an array.
  abbrev pub live : Array A → List A
  live arr = take arr.nmemb arr.mem

  -- memmove of `n` cells from index `src` to index `dst`, within one block.
  abbrev pub memmove : List A → ℕ → ℕ → ℕ → Option (List A)
  memmove mem dst src n =
      if leb (src + n) (length mem) && leb (dst + n) (length mem)
      then some (take dst mem ++ (take n (drop src mem) ++ drop (dst + n) mem))
      else none

  -- memcpy of one element to index `i`.
  abbrev pub store : List A → ℕ → A → Option (List A)
  store mem i a = if ltb i (length mem) then some (set mem i a) else none

  -- array_delete_index; the index is unsigned here, so `0 > index` cannot hold.
  unfoldable pub array_delete_index : Array A → ℕ → Option (Code × Array A)
  array_delete_index arr index =
      if leb arr.nmemb index
      then some (err 1, arr)
      else (memmove arr.mem index (index + 1) (arr.nmemb - index - 1) >>= λ mem.
          some (ok 0, record { mem = mem; nmemb = arr.nmemb - 1 }))

  -- array_delete after the search, and array_insert after the search.
  unfoldable pub delete_found : Array A → Bool × ℕ → Option (Code × Array A)
  delete_found arr (find, index) = if find then array_delete_index arr index else some (err 1, arr)

  -- The shift in array_insert that frees the cell `index`.
  unfoldable pub make_room : Array A → ℕ → Option (List A)
  make_room arr index =
      if ltb index arr.nmemb
      then memmove arr.mem (index + 1) index (arr.nmemb - index)
      else some arr.mem

  unfoldable pub insert_found : A → Array A → Bool → Bool × ℕ → Option (Code × Array A)
  insert_found key arr unique (find, index) =
      if find && unique
      then some (err 1, arr)
      else (make_room arr index >>= λ moved. store moved index key >>= λ mem.
          some (ok index, record { mem = mem; nmemb = arr.nmemb + 1 }))

  module _ (compar : A → A → Ordering) where
    -- The loop of array_bsearch: `find` and the index returned.
    unfoldable pub bsearch_loop : List A → A → ℕ → ℕ → ℕ → Option (Bool × ℕ)
    bsearch_loop mem key zero l u = none
    bsearch_loop mem key (suc fuel) l u = elim (ltb l u) [
      | false ↦ some (false, u)
      | true ↦
          let idx = (l + u) / 2 in
          elim (get_elem? mem idx) [
            | none ↦ none
            | some p ↦ elim (compar key p) [
              | Ordering.eq ↦ some (true, idx)
              | Ordering.gt ↦ bsearch_loop mem key fuel (idx + 1) u
              | Ordering.lt ↦ elim (idx == 0) [
                | true ↦ some (false, idx)
                | false ↦ elim (get_elem? mem (idx - 1)) [
                  | none ↦ none
                  | some p2 ↦ elim (compar key p2) [
                    | Ordering.gt ↦ some (false, idx)
                    | _ ↦ bsearch_loop mem key fuel l idx
                  ]
                ]
              ]
            ]
          ]
    ]

    -- array_bsearch. The range `u - l` shrinks in each round, so `nmemb + 1` rounds are enough.
    unfoldable pub array_bsearch : A → List A → ℕ → Option (Bool × ℕ)
    array_bsearch key mem nmemb =
        if nmemb == 0 then some (false, 0) else bsearch_loop mem key (suc nmemb) 0 nmemb

    -- array_delete
    unfoldable pub array_delete : A → Array A → Option (Code × Array A)
    array_delete key arr = array_bsearch key arr.mem arr.nmemb >>= delete_found arr

    -- array_insert. The code does not test the capacity; a write past it is `none`.
    unfoldable pub array_insert : A → Array A → Bool → Option (Code × Array A)
    array_insert key arr unique =
        array_bsearch key arr.mem arr.nmemb >>= insert_found key arr unique
