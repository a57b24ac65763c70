-- ===== src/Travel/Party.antt =====
-- Who is in an instance.
use txgg.Base.{
  ℕ, true, ◌<◌, ◌≡◌, ◌≢◌, ◌∙◌, refl, Option, none, some, arith, length, ◌==◌, if◌then◌else◌, Code,
  ok, err,
}
use txgg.Idx.{Idx, idx_of, comp_idx}
use txgg.SortArray.{Array, live, array_insert, array_delete}
use txgg.SortArray.Table.{lookup, lookup-put, lookup-erase, put-IsSorted, erase-IsSorted}
use txgg.SortArray.Update.{IsValid, Inserts, Deletes, array_insert-Inserts, array_delete-Deletes}
use txgg.Scene.Members.{members}
use txgg.Travel.{max_role_per_instance}

-- The role object is among the members.
abbrev pub found : ℕ → Array Idx → Option Idx
found role arr = lookup (λ i. i.idx) role (live arr)

pub record IsParty (arr : Array Idx) : Type 0 where
  pub sorted : IsValid {A = Idx} (λ i. i.idx) arr
  pub size : length arr.mem ≡ max_role_per_instance

module _ (arr : Array Idx) (role : ℕ) (v : IsParty arr) where
  abbrev pub Comes : Option (Code × Array Idx) → Type 0
  Comes none = ⊥
  Comes (some (ok n, arr')) =
      IsParty arr'
      × ((k : ℕ) → found k arr' ≡ (if role == k then some (idx_of (some role)) else found k arr))
  Comes (some (err n, arr')) = (arr' ≡ arr) × (found role arr ≢ none)

  abbrev pub Goes : Option (Code × Array Idx) → Type 0
  Goes none = ⊥
  Goes (some (ok n, arr')) =
      IsParty arr' × ((k : ℕ) → found k arr' ≡ (if role == k then none else found k arr))
  Goes (some (err n, arr')) = (arr' ≡ arr) × (found role arr ≡ none)

  inserted :
      (r : Option (Code × Array Idx))
      → arr.nmemb < max_role_per_instance
      → Inserts members (idx_of (some role)) arr r
      → Comes r
  inserted none room i = i
  inserted (some (err n, arr')) room (taken, z, same) = (same, taken)
  inserted (some (ok n, arr')) room (free, e, _, count, len) = (
    record {
      sorted = record {
        sorted = rw e (put-IsSorted (λ i. i.idx) (idx_of (some role)) (live arr) v.sorted.sorted);
        fits = omega (arith, v.size);
      };
      size = len ∙ v.size;
    },
    λ k. rw e (lookup-put (λ i. i.idx) (idx_of (some role)) k (live arr) free),
  )

  pub array_insert-Comes :
      arr.nmemb < max_role_per_instance
      → Comes (array_insert comp_idx (idx_of (some role)) arr true)
  array_insert-Comes room =
      inserted _ room (
        array_insert-Inserts members (idx_of (some role)) arr v.sorted
          (omega (arith, room, v.size)))

  deleted : (r : Option (Code × Array Idx)) → Deletes members (idx_of (some role)) arr r → Goes r
  deleted none d = d
  deleted (some (err n, arr')) (gone, z, same) = (same, gone)
  deleted (some (ok n, arr')) (_, _, e, count, len) = (
    record {
      sorted = record {
        sorted = rw e (erase-IsSorted (λ i. i.idx) role (live arr) v.sorted.sorted);
        fits = omega (arith, v.sorted.fits);
      };
      size = len ∙ v.size;
    },
    λ k. rw e (lookup-erase (λ i. i.idx) role k (live arr) v.sorted.sorted),
  )

  pub array_delete-Goes : Goes (array_delete comp_idx (idx_of (some role)) arr)
  array_delete-Goes = deleted _ (array_delete-Deletes members (idx_of (some role)) arr v.sorted)

-- Nobody is in an instance whose role_num is 0.
pub found-empty : (arr : Array Idx) (k : ℕ) → arr.nmemb ≡ 0 → found k arr ≡ none
unfolding lookup
found-empty arr k e = rw e refl
