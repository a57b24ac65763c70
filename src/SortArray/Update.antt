-- ===== src/SortArray/Update.antt =====
-- array_insert and array_delete on a valid array: each returns, stays inside the memory, and does
-- to the members what `put` and `erase` do to the table.
use native.Mathlib.Numerals.{add-one}
use txgg.Base.{
  ℕ, zero, suc, ◌+◌, ◌-◌, ◌≤◌, ◌<◌, ◌≡◌, ◌≢◌, refl, ap, ◌∙◌, subst, Bool, true, false, Option, none,
  some, List, [], ◌∷◌, ◌++◌, arith, length, get_elem?, take, drop, set, Code, ok, err, lt→ltb,
  le→ltb, length-take, length-drop, length-append, length-set, ◌>>=◌, get_elem?_lt, lt→leb,
  trichotomy, below, same, above, le→leb,
}
use txgg.SortArray.{
  Array, live, memmove, store, array_delete_index, array_delete, array_insert, make_room,
  insert_found, delete_found,
}
use txgg.SortArray.Order.{KeyOrder, IsSorted}
use txgg.SortArray.Search.{Splits, Hits, Locates, array_bsearch-Locates}
use txgg.SortArray.Table.{lookup, put, erase, Splits-put, Splits-lookup, Hits-lookup, Hits-erase}

module _ {ℓ} {A : Type ℓ} where
  take-take-append :
      (n : ℕ) (xs rest : List A) → n ≤ length xs → take n (take n xs ++ rest) ≡ take n xs
  take-take-append zero xs rest h = refl
  take-take-append (suc n) [] rest h = absurd (omega arith)
  take-take-append (suc n) (x ∷ xs) rest h = ap (◌∷◌ x) (take-take-append n xs rest (omega arith))

  -- The block after the gap was opened at `r` and filled.
  open_gap :
      (r c n : ℕ) (mem rest : List A) (x : A)
      → c + r ≡ n
      → n < length mem
      → take (suc n) (set (take (suc r) mem ++ (take c (drop r mem) ++ rest)) r x)
        ≡ take r (take n mem) ++ (x ∷ drop r (take n mem))
  open_gap r c n [] rest x e h = absurd (omega arith)
  open_gap zero c n (m ∷ mem) rest x e h =
      let e' : c ≡ n = omega arith in
      rw e' (ap (◌∷◌ x) (take-take-append n (m ∷ mem) rest (omega arith)))
  open_gap (suc r) c zero (m ∷ mem) rest x e h = absurd (omega arith)
  open_gap (suc r) c (suc n) (m ∷ mem) rest x e h =
      ap (◌∷◌ m) (open_gap r c n mem rest x (omega arith) (omega arith))

  -- Writing at the end.
  grow_end :
      (n : ℕ) (mem : List A) (x : A)
      → n < length mem
      → take (suc n) (set mem n x) ≡ take n (take n mem) ++ (x ∷ drop n (take n mem))
  grow_end zero [] x h = absurd (omega arith)
  grow_end zero (m ∷ mem) x h = refl
  grow_end (suc n) [] x h = absurd (omega arith)
  grow_end (suc n) (m ∷ mem) x h = ap (◌∷◌ m) (grow_end n mem x (omega arith))

  -- The block after the cell `r` was closed.
  close_gap :
      (r c d : ℕ) (mem rest : List A)
      → c + r ≡ d
      → d < length mem
      → take d (take r mem ++ (take c (drop (suc r) mem) ++ rest))
        ≡ take r (take (suc d) mem) ++ drop (suc r) (take (suc d) mem)
  close_gap r c d [] rest e h = absurd (omega arith)
  close_gap zero c d (m ∷ mem) rest e h =
      let e' : c ≡ d = omega arith in rw e' (take-take-append d mem rest (omega arith))
  close_gap (suc r) c zero (m ∷ mem) rest e h = absurd (omega arith)
  close_gap (suc r) c (suc d) (m ∷ mem) rest e h =
      ap (◌∷◌ m) (close_gap r c d mem rest (omega arith) (omega arith))

  length-moved :
      (r c d : ℕ) (mem : List A)
      → c + r ≤ length mem
      → c + d ≤ length mem
      → length (take d mem ++ (take c (drop r mem) ++ drop (d + c) mem)) ≡ length mem
  length-moved r c d mem h h' = omega (
    arith,
    length-append (take d mem) (take c (drop r mem) ++ drop (d + c) mem),
    length-append (take c (drop r mem)) (drop (d + c) mem),
    length-take d mem,
    length-take c (drop r mem),
    length-drop r mem,
    length-drop (d + c) mem,
  )

  memmove-some :
      (mem : List A) (dst src n : ℕ)
      → src + n ≤ length mem
      → dst + n ≤ length mem
      → memmove mem dst src n ≡ some (take dst mem ++ (take n (drop src mem) ++ drop (dst + n) mem))
  memmove-some mem dst src n h h' = rw (le→leb _ _ h, le→leb _ _ h')

  store_some : (mem : List A) (i : ℕ) (a : A) → i < length mem → store mem i a ≡ some (set mem i a)
  store_some mem i a h = rw (lt→ltb _ _ h)

  get_elem?-middle :
      (r : ℕ) (xs ys : List A) (x : A)
      → r ≤ length xs
      → get_elem? (take r xs ++ (x ∷ ys)) r ≡ some x
  get_elem?-middle zero xs ys x h = refl
  get_elem?-middle (suc r) [] ys x h = absurd (omega arith)
  get_elem?-middle (suc r) (y ∷ xs) ys x h = get_elem?-middle r xs ys x (omega arith)

-- An array whose members are sorted and lie inside its memory.
pub record IsValid {A : Type 0} (key : A → ℕ) (arr : Array A) : Type 0 where
  pub sorted : IsSorted key (live arr)
  pub fits : arr.nmemb ≤ length arr.mem

module _ {A : Type 0} (o : KeyOrder A) where
  -- What array_insert does, on each way out.
  abbrev pub Inserts : A → Array A → Option (Code × Array A) → Type 0
  Inserts x arr none = ⊥
  Inserts x arr (some (ok i, arr')) =
      (lookup o.key (o.key x) (live arr) ≡ none)
      × (live arr' ≡ put o.key x (live arr))
      × (get_elem? (live arr') i ≡ some x)
      × (arr'.nmemb ≡ arr.nmemb + 1)
      × (length arr'.mem ≡ length arr.mem)
  Inserts x arr (some (err n, arr')) =
      (lookup o.key (o.key x) (live arr) ≢ none) × (n ≡ 1) × (arr' ≡ arr)

  module _ (x : A) (arr : Array A) (v : IsValid o.key arr) where
    -- The write of the new member, once its place is free.
    insert_store :
        (r : ℕ) (moved : List A)
        → Splits o.key (live arr) (o.key x) r
        → arr.nmemb < length arr.mem
        → r ≤ arr.nmemb
        → length moved ≡ length arr.mem
        → take (suc arr.nmemb) (set moved r x) ≡ take r (live arr) ++ (x ∷ drop r (live arr))
        → Inserts x arr
            (store moved r x >>= λ mem. some (ok r, record { mem = mem; nmemb = arr.nmemb + 1 }))
    insert_store r moved s room h len e = rw (store_some moved r x (omega arith)) (
      Splits-lookup o.key (o.key x) (live arr) r s,
      rw (add-one, e) (Splits-put o.key x (live arr) r s),
      rw (add-one, e) (get_elem?-middle r (live arr) (drop r (live arr)) x s.inside),
      refl,
      length-set moved r x ∙ len,
    )

    found_ne_none :
        (r : ℕ) → Hits o.key (live arr) (o.key x) r → lookup o.key (o.key x) (live arr) ≢ none
    found_ne_none r h e =
        let (a, q) = get_elem?_lt (live arr) r h.inside in
        cc (Hits-lookup o.key (o.key x) (live arr) r v.sorted h)

    make_room_shift :
        (r : ℕ)
        → r < arr.nmemb
        → arr.nmemb < length arr.mem
        → make_room arr r
          ≡ some (
              take (r + 1) arr.mem
              ++ (take (arr.nmemb - r) (drop r arr.mem) ++ drop (r + 1 + (arr.nmemb - r)) arr.mem))
    unfolding make_room
    make_room_shift r h room =
        rw (lt→ltb r arr.nmemb h)
          (memmove-some arr.mem (r + 1) r (arr.nmemb - r) (omega arith) (omega arith))

    make_room_end : (r : ℕ) → arr.nmemb ≤ r → make_room arr r ≡ some arr.mem
    unfolding make_room
    make_room_end r h = rw (le→ltb r arr.nmemb h)

    insert_found-Inserts :
        (r : Option (Bool × ℕ))
        → Locates o.key (live arr) (o.key x) r
        → arr.nmemb < length arr.mem
        → Inserts x arr (r >>= insert_found x arr true)
    unfolding insert_found
    insert_found-Inserts none l room = l
    insert_found-Inserts (some (true, r)) l room = (found_ne_none r l, refl, refl)
    insert_found-Inserts (some (false, r)) l room = elim (trichotomy r arr.nmemb) [
      | below p e ↦ rw (make_room_shift r p room) (
          insert_store r _ l room (omega arith)
            (length-moved r (arr.nmemb - r) (r + 1) arr.mem (omega arith) (omega arith))
            (rw (add-one r) (open_gap r (arr.nmemb - r) arr.nmemb arr.mem _ x (omega arith) room)))
      | same p e ↦ rw (make_room_end r (omega arith)) (
          insert_store r arr.mem l room (omega arith) refl
            (rw p (grow_end arr.nmemb arr.mem x room)))
      | above p e ↦ absurd (omega (arith, l.inside, length-take arr.nmemb arr.mem))
    ]

    -- array_insert with `unique` set, on a valid array with a free cell: it returns; it refuses a
    -- key that is taken and changes nothing, and otherwise puts the member at the index returned.
    pub array_insert-Inserts :
        arr.nmemb < length arr.mem → Inserts x arr (array_insert o.compar x arr true)
    unfolding array_insert
    array_insert-Inserts room =
        insert_found-Inserts _ (array_bsearch-Locates o x arr v.sorted v.fits) room

    delete_index_some :
        (r : ℕ)
        → r < arr.nmemb
        → array_delete_index arr r
          ≡ some (
            ok 0,
            record {
              mem =
                  take r arr.mem
                  ++ (take (arr.nmemb - r - 1) (drop (r + 1) arr.mem)
                      ++ drop (r + (arr.nmemb - r - 1)) arr.mem);
              nmemb = arr.nmemb - 1;
            },
          )
    unfolding array_delete_index
    delete_index_some r h = rw (
      lt→leb arr.nmemb r h,
      memmove-some arr.mem r (r + 1) (arr.nmemb - r - 1) (omega (arith, v.fits))
          (omega (arith, v.fits)),
    )

  -- What array_delete does, on each way out.
  abbrev pub Deletes : A → Array A → Option (Code × Array A) → Type 0
  Deletes x arr none = ⊥
  Deletes x arr (some (ok n, arr')) =
      (lookup o.key (o.key x) (live arr) ≢ none)
      × (n ≡ 0)
      × (live arr' ≡ erase o.key (o.key x) (live arr))
      × (arr'.nmemb + 1 ≡ arr.nmemb)
      × (length arr'.mem ≡ length arr.mem)
  Deletes x arr (some (err n, arr')) =
      (lookup o.key (o.key x) (live arr) ≡ none) × (n ≡ 1) × (arr' ≡ arr)

  module _ (x : A) (arr : Array A) (v : IsValid o.key arr) where
    shrink :
        (r : ℕ)
        → r < arr.nmemb
        → take (arr.nmemb - 1) (
            take r arr.mem
            ++ (take (arr.nmemb - r - 1) (drop (suc r) arr.mem)
                ++ drop (r + (arr.nmemb - r - 1)) arr.mem))
          ≡ take r (live arr) ++ drop (suc r) (live arr)
    shrink r h =
        let last : suc (arr.nmemb - 1) ≡ arr.nmemb = omega arith in
        subst
          (λ n.
            take (arr.nmemb - 1) (
              take r arr.mem
              ++ (take (arr.nmemb - r - 1) (drop (suc r) arr.mem)
                  ++ drop (r + (arr.nmemb - r - 1)) arr.mem))
            ≡ take r (take n arr.mem) ++ drop (suc r) (take n arr.mem))
          last
          (close_gap r (arr.nmemb - r - 1) (arr.nmemb - 1) arr.mem _ (omega arith)
            (omega (arith, v.fits)))

    delete_found-Deletes :
        (r : Option (Bool × ℕ))
        → Locates o.key (live arr) (o.key x) r
        → Deletes x arr (r >>= delete_found arr)
    unfolding delete_found
    delete_found-Deletes none l = l
    delete_found-Deletes (some (false, r)) l =
        (Splits-lookup o.key (o.key x) (live arr) r l, refl, refl)
    delete_found-Deletes (some (true, r)) l =
        let h : r < arr.nmemb = omega (arith, l.inside, length-take arr.nmemb arr.mem) in
        rw (delete_index_some x arr v r h) (
          found_ne_none x arr v r l,
          refl,
          rw (add-one r) (shrink r h) ∙ Hits-erase o.key (o.key x) (live arr) r v.sorted l,
          omega arith,
          length-moved (r + 1) (arr.nmemb - r - 1) r arr.mem (omega (arith, v.fits))
              (omega (arith, v.fits)),
        )

    -- array_delete on a valid array returns; it removes the member of that key, or reports that
    -- there is none and changes nothing.
    pub array_delete-Deletes : Deletes x arr (array_delete o.compar x arr)
    unfolding array_delete
    array_delete-Deletes = delete_found-Deletes _ (array_bsearch-Locates o x arr v.sorted v.fits)
