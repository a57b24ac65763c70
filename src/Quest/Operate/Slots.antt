-- ===== src/Quest/Operate/Slots.antt =====
-- The array of quests, which never holds more than the next quest of the main line.
use txgg.Base.{
  ℕ, zero, suc, ◌≤◌, ◌≡◌, ◌≢◌, inl, inr, refl, compare, ap, ◌∙◌, sym, subst, Bool, true, false,
  Option, none, some, List, [], ◌∷◌, arith, length, length-take, length-set, get_elem?, take, set,
  ==_iff, lt→leb, ◌==◌, ◌>>=◌, if◌then◌else◌, Code, ok, err, Bool-cases,
}
use txgg.SortArray.{Array, live}
use txgg.SortArray.Order.{KeyOrder, IsSorted, comp_uint_lem}
use txgg.SortArray.Search.{Hits, Locates, array_bsearch-Locates}
use txgg.SortArray.Table.{lookup, put, erase, Splits-lookup}
use txgg.SortArray.Update.{IsValid, Inserts, Deletes, array_insert-Inserts, array_delete-Deletes}
use txgg.Quest.{QuestInfo}
use txgg.Quest.Operate.{
  QuestRole, max_quest_per_role, comp_role_quest, add_role_quest, remove_role_quest, get_role_quest,
  put_back, quest_of,
}

pub comp_role_quest_lem : (a b : QuestInfo) → comp_role_quest a b ≡ compare a.id b.id
unfolding comp_role_quest
comp_role_quest_lem a b = comp_uint_lem a.id b.id

abbrev pub quests : KeyOrder QuestInfo
quests = record { compar = comp_role_quest; key = λ q. q.id; compar_lem = comp_role_quest_lem }

-- No quest, or one, which is the next of the main line.
abbrev pub AtMost : ℕ → List QuestInfo → Type 0
AtMost next [] = Unit
AtMost next (q ∷ []) = q.id ≡ next
AtMost next (q ∷ p ∷ qs) = ⊥

pub record HoldsNext (next : ℕ) (arr : Array QuestInfo) : Type 0 where
  pub only : AtMost next (live arr)
  pub fits : arr.nmemb ≤ length arr.mem
  pub size : length arr.mem ≡ max_quest_per_role

pub AtMost-IsSorted : (next : ℕ) (qs : List QuestInfo) → AtMost next qs → IsSorted (λ q. q.id) qs
AtMost-IsSorted next [] a = tt
AtMost-IsSorted next (q ∷ []) a = tt
AtMost-IsSorted next (q ∷ p ∷ qs) a = absurd a

AtMost-length : (next : ℕ) (qs : List QuestInfo) → AtMost next qs → length qs ≤ 1
AtMost-length next [] a = omega arith
AtMost-length next (q ∷ []) a = omega arith
AtMost-length next (q ∷ p ∷ qs) a = absurd a

AtMost-tail : (next : ℕ) (q : QuestInfo) (qs : List QuestInfo) → AtMost next (q ∷ qs) → qs ≡ []
AtMost-tail next q [] a = refl
AtMost-tail next q (p ∷ qs) a = absurd a

-- A hit of the search is the quest, at index 0.
Alone : ℕ → ℕ → List QuestInfo → ℕ → Type 0
Alone id n mem r =
    (q : QuestInfo) × (get_elem? mem r ≡ some q) × (r ≡ 0) × (q.id ≡ id) × (take n mem ≡ q ∷ [])

hit-Alone :
    (next id n : ℕ) (mem : List QuestInfo) (r : ℕ)
    → AtMost next (take n mem)
    → Hits (λ q. q.id) (take n mem) id r
    → Alone id n mem r
unfolding Alone
hit-Alone next id zero mem r a h = absurd (omega (arith, h.inside))
hit-Alone next id (suc n) [] r a h = absurd (omega (arith, h.inside))
hit-Alone next id (suc n) (q ∷ mem) zero a h =
    (q, refl, refl, h.equal, ap (λ qs. q ∷ qs) (AtMost-tail next q (take n mem) a))
hit-Alone next id (suc n) (q ∷ mem) (suc r) a h =
    absurd (omega (arith, h.inside, ap length (AtMost-tail next q (take n mem) a)))

changed_single :
    (next n : ℕ) (mem : List QuestInfo) (q q' : QuestInfo)
    → take n mem ≡ q ∷ []
    → q'.id ≡ next
    → AtMost next (take n (set mem 0 q'))
changed_single next zero mem q q' e e' = absurd (omega (arith, ap length e))
changed_single next (suc n) [] q q' e e' = absurd (omega (arith, ap length e))
changed_single next (suc n) (p ∷ mem) q q' e e' = let rest : take n mem ≡ [] = cc in rw rest e'

some_ne_none : {q : QuestInfo} → some q ≢ none
some_ne_none e = cc

put_single :
    (next : ℕ) (quest : QuestInfo) (qs : List QuestInfo)
    → AtMost next qs
    → quest.id ≡ next
    → lookup (λ q. q.id) quest.id qs ≡ none
    → AtMost next (put (λ q. q.id) quest qs)
unfolding lookup put
put_single next quest [] a e free = e
put_single next quest (q ∷ []) a e free =
    absurd (some_ne_none (rw ((==_iff q.id quest.id).1 (a ∙ sym e)) at free))
put_single next quest (q ∷ p ∷ qs) a e free = absurd a

erase_single :
    (next id : ℕ) (qs : List QuestInfo)
    → AtMost next qs
    → AtMost next (erase (λ q. q.id) id qs) × (id ≡ next → erase (λ q. q.id) id qs ≡ [])
unfolding erase
erase_single next id [] a = (tt, λ e. refl)
erase_single next id (q ∷ []) a = elim (Bool-cases (q.id == id)) [
  | inl e ↦ rw e (tt, λ h. refl)
  | inr e ↦ rw e (a, λ h. absurd (ground (arith, e, h, a)))
]
erase_single next id (q ∷ p ∷ qs) a = absurd a

none_single :
    (next id : ℕ) (qs : List QuestInfo)
    → AtMost next qs
    → lookup (λ q. q.id) id qs ≡ none
    → id ≡ next
    → qs ≡ []
unfolding lookup
none_single next id [] a free e = refl
none_single next id (q ∷ []) a free e =
    absurd (some_ne_none (rw ((==_iff q.id id).1 (a ∙ sym e)) at free))
none_single next id (q ∷ p ∷ qs) a free e = absurd a

module _ (next : ℕ) (arr : Array QuestInfo) (v : HoldsNext next arr) where
  pub HoldsNext-IsValid : IsValid {A = QuestInfo} (λ q. q.id) arr
  HoldsNext-IsValid = record { sorted = AtMost-IsSorted next (live arr) v.only; fits = v.fits }

  -- The array never holds more than one quest.
  pub HoldsNext-nmemb : arr.nmemb ≤ 1
  HoldsNext-nmemb =
      omega (arith, AtMost-length next (live arr) v.only, length-take arr.nmemb arr.mem, v.fits)

-- What get_role_quest finds is the quest that the array holds.
abbrev pub Finds : Array QuestInfo → ℕ → Option (Option (ℕ × QuestInfo)) → Type 0
Finds arr id none = ⊥
Finds arr id (some none) = lookup (λ q. q.id) id (live arr) ≡ none
Finds arr id (some (some (i, q))) = (i ≡ 0) × (q.id ≡ id) × (live arr ≡ q ∷ [])

module _ (next : ℕ) (role : QuestRole) (v : HoldsNext next role.quest) where
  found :
      (id : ℕ) (r : Option (Bool × ℕ))
      → Locates (λ q. q.id) (live role.quest) id r
      → Finds role.quest id (
          r >>= λ (find, index).
          if find
          then (get_elem? role.quest.mem index >>= λ q. some (some (index, q)))
          else some none)
  unfolding Alone
  found id none l = l
  found id (some (false, r)) l = Splits-lookup (λ q. q.id) id (live role.quest) r l
  found id (some (true, r)) l =
      let (q, e, z, same, alone) = hit-Alone next id role.quest.nmemb role.quest.mem r v.only l in
      rw e (z, same, alone)

  pub get_role_quest-Finds :
      (unset : QuestInfo) (id : ℕ) → Finds role.quest id (get_role_quest unset role id)
  unfolding get_role_quest
  get_role_quest-Finds unset id = found id _ (
      array_bsearch-Locates quests (record unset { id = id }) role.quest
        (HoldsNext-IsValid next role.quest v).sorted v.fits)

  -- A quest that is changed in place, but for its id, is still the next one.
  pub put_back-HoldsNext :
      (id : ℕ) (found : Option (ℕ × QuestInfo)) (q' : Option QuestInfo)
      → Finds role.quest id (some found)
      → ((p q : QuestInfo) → quest_of found ≡ some p → q' ≡ some q → q.id ≡ p.id)
      → HoldsNext next (put_back role found q').quest
  unfolding put_back
  put_back-HoldsNext id none q' f same = v
  put_back-HoldsNext id (some (i, q)) none f same = v
  put_back-HoldsNext id (some (i, q)) (some q') (z, e, alone) same = record {
    only =
        subst (λ k. AtMost next (take role.quest.nmemb (set role.quest.mem k q'))) (sym z)
          (changed_single next role.quest.nmemb role.quest.mem q q' alone
            (same q q' refl refl ∙ subst (AtMost next) alone v.only));
    fits = omega (arith, v.fits, length-set role.quest.mem i q');
    size = length-set role.quest.mem i q' ∙ v.size;
  }

  pub put_back_lem :
      (found : Option (ℕ × QuestInfo)) (q' : Option QuestInfo)
      → (put_back role found q').main_quest_index ≡ role.main_quest_index
  unfolding put_back
  put_back_lem none q' = refl
  put_back_lem (some (i, q)) none = refl
  put_back_lem (some (i, q)) (some q') = refl

  abbrev pub Added : Option QuestRole → Type 0
  Added none = ⊥
  Added (some role') =
      HoldsNext next role'.quest
      × (role'.main_quest_index ≡ role.main_quest_index)
      × (role'.bag ≡ role.bag)

  pub add_role_quest-Added :
      (quest : QuestInfo) → quest.id ≡ next → Added (add_role_quest role quest)
  unfolding add_role_quest
  add_role_quest-Added quest e =
      let few = HoldsNext-nmemb next role.quest v in
      rw (lt→leb 64 role.quest.nmemb (omega (arith, few))) (
        added _ (
          array_insert-Inserts quests quest role.quest (HoldsNext-IsValid next role.quest v)
            (omega (arith, few, v.size))))
    where
      added :
          (r : Option (Code × Array QuestInfo))
          → Inserts quests quest role.quest r
          → Added (r >>= λ (code, arr). some (record role { quest = arr }))
      added none i = i
      added (some (ok n, arr)) (free, e', _, count, len) = (
        record {
          only = rw e' (put_single next quest (live role.quest) v.only e free);
          fits = omega (arith, count, len, v.size, HoldsNext-nmemb next role.quest v);
          size = len ∙ v.size;
        },
        refl,
        refl,
      )
      added (some (err n, arr)) (taken, _, same) = (subst (HoldsNext next) (sym same) v, refl, refl)

  abbrev pub Removed : ℕ → Option QuestRole → Type 0
  Removed id none = ⊥
  Removed id (some role') =
      HoldsNext next role'.quest
      × (id ≡ next → live role'.quest ≡ [])
      × (role'.main_quest_index ≡ role.main_quest_index)
      × (role'.bag ≡ role.bag)

  pub remove_role_quest-Removed :
      (unset : QuestInfo) (id : ℕ) → Removed id (remove_role_quest unset role id)
  unfolding remove_role_quest
  remove_role_quest-Removed unset id = removed _ (
      array_delete-Deletes quests (record unset { id = id }) role.quest
        (HoldsNext-IsValid next role.quest v))
    where
      removed :
          (r : Option (Code × Array QuestInfo))
          → Deletes quests (record unset { id = id }) role.quest r
          → Removed id (r >>= λ (code, arr). some (record role { quest = arr }))
      removed none d = d
      removed (some (ok n, arr)) (there, _, e, count, len) =
          let (a, gone) = erase_single next id (live role.quest) v.only in
          (
            record { only = rw e a; fits = omega (arith, count, len, v.fits); size = len ∙ v.size },
            λ h. e ∙ gone h,
            refl,
            refl,
          )
      removed (some (err n, arr)) (free, _, same) = (
        subst (HoldsNext next) (sym same) v,
        λ h. ap live same ∙ none_single next id (live role.quest) v.only free h,
        refl,
        refl,
      )
