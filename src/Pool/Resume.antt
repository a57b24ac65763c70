-- ===== src/Pool/Resume.antt =====
-- resume_##name after a restart: the pool stands in shared memory at a new address, so that every
-- pointer in it is garbage and every index is as it was.
use txgg.Base.{
  ℕ, zero, suc, ◌+◌, ◌≤◌, ◌<◌, ◌≡◌, ◌≢◌, refl, ap, ◌∙◌, sym, subst, true, ◌||◌, ◌&&◌, Option, none,
  some, List, [], ◌∷◌, arith, ◌==◌, ==_self, ==_ne, ==_iff, Bool-cases, inl, inr, trichotomy, below,
  same, above, if◌then◌else◌, lt→ltb, le→ltb, ltb→lt,
}
use txgg.Idx.{Idx, max_idx, idx_of}
use txgg.Pool.{
  Entry, Circle, Pool, resume_link, resume_entry, resume_at, resume_object, resume_objects,
  resume_head, resume_pool,
}
use txgg.Pool.Ring.{holds, first_of, last_of, Linked, Ring}
use txgg.Pool.Alloc.{IsValid}

-- The same indices, whatever the pointers.
pub record SameIndices (c c' : Circle) : Type 0 where
  pub first : c'.first.idx ≡ c.first.idx
  pub last : c'.last.idx ≡ c.last.idx
  pub own : (i : ℕ) → (c'.entry i).idx ≡ (c.entry i).idx
  pub next : (i : ℕ) → (c'.entry i).next.idx ≡ (c.entry i).next.idx
  pub prev : (i : ℕ) → (c'.entry i).prev.idx ≡ (c.entry i).prev.idx

module _ (max : ℕ) (small : max ≤ max_idx) where
  abbrev Inside : Option ℕ → Type 0
  Inside none = Unit
  Inside (some x) = x < max

  -- The index alone gives the link back.
  resumed :
      (o : Option ℕ) (l : Idx) → Inside o → l.idx ≡ (idx_of o).idx → resume_link max l ≡ idx_of o
  resumed none l b e = rw (e, le→ltb max_idx max small) refl
  resumed (some x) l b e = rw (e, lt→ltb x max b) refl

  first-below : (xs : List ℕ) → ((i : ℕ) → holds i xs ≡ true → i < max) → Inside (first_of xs)
  first-below [] h = tt
  first-below (x ∷ xs) h = h x (ground arith)

  last-below :
      (p : Option ℕ) (xs : List ℕ)
      → Inside p
      → ((i : ℕ) → holds i xs ≡ true → i < max)
      → Inside (last_of p xs)
  last-below p [] b h = b
  last-below p (x ∷ xs) b h =
      last-below (some x) xs (h x (ground arith)) (λ i m. h i (ground (arith, m)))

  resumed-Linked :
      (c c' : Circle) (g : ℕ → Entry) (p : Option ℕ) (xs : List ℕ)
      → SameIndices c c'
      → ((i : ℕ) → i < max → g i ≡ resume_entry max (c'.entry i))
      → Inside p
      → ((i : ℕ) → holds i xs ≡ true → i < max)
      → Linked c.entry p xs
      → Linked g p xs
  resumed-Linked c c' g p [] s r b h l = tt
  resumed-Linked c c' g p (x ∷ xs) s r b h l =
      let rest : (i : ℕ) → holds i xs ≡ true → i < max = λ i m. h i (ground (arith, m)) in
      let at = r x (h x (ground arith)) in
      (
        l.0,
        ap (λ e. e.prev) at ∙ resumed p (c'.entry x).prev b (s.prev x ∙ ap (λ k. k.idx) l.1),
        ap (λ e. e.next) at
            ∙ resumed (first_of xs) (c'.entry x).next (first-below xs rest)
                (s.next x ∙ ap (λ k. k.idx) l.2),
        resumed-Linked c c' g (some x) xs s r (h x (ground arith)) rest l.3,
      )

  resumed-Ring :
      (c c' d : Circle) (xs : List ℕ)
      → SameIndices c c'
      → ((i : ℕ) → i < max → d.entry i ≡ resume_entry max (c'.entry i))
      → d.first ≡ c'.first
      → d.last ≡ c'.last
      → ((i : ℕ) → holds i xs ≡ true → i < max)
      → Ring c xs
      → Ring (resume_head max d) xs
  resumed-Ring c c' d xs s r e e' h ring = record {
    first =
        resumed (first_of xs) d.first (first-below xs h)
          (ap (λ k. k.idx) e ∙ s.first ∙ ap (λ k. k.idx) ring.first);
    last =
        resumed (last_of none xs) d.last (last-below none xs tt h)
          (ap (λ k. k.idx) e' ∙ s.last ∙ ap (λ k. k.idx) ring.last);
    linked = resumed-Linked c c' d.entry none xs s r tt h ring.linked;
  }

  -- What the loop does to one list: it resumes the objects from `i` on and leaves the others.
  record Looped (c d : Circle) (n i : ℕ) : Type 0 where
    entries : (j : ℕ) → i ≤ j → j < n + i → d.entry j ≡ resume_entry max (c.entry j)
    before : (j : ℕ) → j < i → d.entry j ≡ c.entry j
    first : d.first ≡ c.first
    last : d.last ≡ c.last

  at_self : (c : Circle) (i : ℕ) → (resume_at max c i).entry i ≡ resume_entry max (c.entry i)
  at_self c i = rw (==_self i) refl

  at_other : (c : Circle) (i j : ℕ) → i ≢ j → (resume_at max c i).entry j ≡ c.entry j
  at_other c i j h = rw (==_ne i j h) refl

  own_at : (c : Circle) (i j : ℕ) → ((resume_at max c i).entry j).idx ≡ (c.entry j).idx
  own_at c i j = elim (Bool-cases (i == j)) [
    | inl e ↦ rw e (ap (λ k. (c.entry k).idx) ((==_iff i j).0 e))
    | inr e ↦ rw e refl
  ]

  step-Looped :
      (c d : Circle) (n i : ℕ) → Looped (resume_at max c i) d n (i + 1) → Looped c d (suc n) i
  step-Looped c d n i l = record {
    entries = λ j h h'. elim (trichotomy i j) [
      | below q _ ↦
          l.entries j (omega arith) (omega arith)
          ∙ ap (resume_entry max) (at_other c i j (λ e. omega arith))
      | same q _ ↦
          subst (λ k. d.entry k ≡ resume_entry max (c.entry k)) q
            (l.before i (omega arith) ∙ at_self c i)
      | above q _ ↦ absurd (omega arith)
    ];
    before = λ j h. l.before j (omega arith) ∙ at_other c i j (λ e. omega arith);
    first = l.first;
    last = l.last;
  }

  loop :
      (n i : ℕ) (p : Pool)
      → ((j : ℕ) → i ≤ j → j < n + i → ((p.used.entry j).idx ≡ j) × ((p.freed.entry j).idx ≡ j))
      → (q : Pool) × (resume_objects max n i p ≡ some q)
        × Looped p.used q.used n i
        × Looped p.freed q.freed n i
  unfolding resume_objects
  loop zero i p own = (p, refl, idle p.used, idle p.freed)
    where
      idle : (c : Circle) → Looped c c 0 i
      idle c = record {
        entries = λ j h h'. absurd (omega arith);
        before = λ j h. refl;
        first = refl;
        last = refl;
      }
  loop (suc n) i p own =
      let (own_u, own_f) = own i (omega arith) (omega arith) in
      let (q, done, l, l') = loop n (i + 1) (resume_object max p i) (λ j h h'. (
        own_at p.used i j ∙ (own j (omega arith) (omega arith)).0,
        own_at p.freed i j ∙ (own j (omega arith) (omega arith)).1,
      )) in
      (
        q,
        ap (λ t. if t then resume_objects max n (i + 1) (resume_object max p i) else none)
              (both (p.freed.entry i).idx (p.used.entry i).idx own_f own_u)
            ∙ done,
        step-Looped p.used q.used n i l,
        step-Looped p.freed q.freed n i l',
      )
    where
      both : (a b : ℕ) → a ≡ i → b ≡ i → (a == i && b == i) ≡ true
      both a b e e' = rw (e, e', ==_self i) refl

  own_after :
      (c d : Circle)
      → Looped c d max 0
      → ((i : ℕ) → i < max → (c.entry i).idx ≡ i)
      → (i : ℕ) → i < max
      → (d.entry i).idx ≡ i
  own_after c d l own i h = ap (λ e. e.idx) (l.entries i (omega arith) (omega arith)) ∙ own i h

  -- From the indices of a pool alone, resume_##name rebuilds every pointer: the lists hold the same
  -- objects in the same order as before the restart.
  pub resume_pool-IsValid :
      (p p' : Pool) (us fs : List ℕ)
      → IsValid max p us fs
      → SameIndices p.used p'.used
      → SameIndices p.freed p'.freed
      → (q : Pool) × (resume_pool max p' ≡ some q) × IsValid max q us fs
  unfolding resume_pool
  resume_pool-IsValid p p' us fs v s s' =
      let own_u : (i : ℕ) → i < max → (p'.used.entry i).idx ≡ i = λ i h. s.own i ∙ v.own_used i h in
      let own_f : (i : ℕ) → i < max → (p'.freed.entry i).idx ≡ i =
        λ i h. s'.own i ∙ v.own_freed i h in
      let (q, done, l, l') =
        loop max 0 p' (λ j h h'. (own_u j (omega arith), own_f j (omega arith))) in
      (
        record { used = resume_head max q.used; freed = resume_head max q.freed },
        rw done refl,
        record {
          used =
              resumed-Ring p.used p'.used q.used us s
                (λ i h. l.entries i (omega arith) (omega arith)) l.first l.last
                (λ i m. ltb→lt i max (sym (v.all i) ∙ in_used i m)) v.used;
          freed =
              resumed-Ring p.freed p'.freed q.freed fs s'
                (λ i h. l'.entries i (omega arith) (omega arith)) l'.first l'.last
                (λ i m. ltb→lt i max (sym (v.all i) ∙ in_freed i m)) v.freed;
          own_used = own_after p'.used q.used l own_u;
          own_freed = own_after p'.freed q.freed l' own_f;
          all = v.all;
          apart = v.apart;
        },
      )
    where
      in_used : (i : ℕ) → holds i us ≡ true → (holds i us || holds i fs) ≡ true
      in_used i m = rw m refl

      in_freed : (i : ℕ) → holds i fs ≡ true → (holds i us || holds i fs) ≡ true
      in_freed i m = ground (arith, m)
