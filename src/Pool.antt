-- ===== src/Pool.antt =====
-- server/lib/game_queue.h and POOL_DEF of server/lib/mempool.h: a pool of objects, of which some are
-- on the circular list of the used ones and the others on that of the free ones. An object is its
-- pool index. A link is an IDX: the pointer, `none` for the list head, and the index next to it.
-- An operation that would write through the list head as if it were an object is `none`.
pub mod Ring
pub mod Unlink
pub mod Alloc
pub mod History
pub mod Start
pub mod Resume
mod Tests
use txgg.Base.{
  ℕ, zero, suc, ◌+◌, Bool, true, false, Option, none, some, ◌>>=◌, ltb, ◌&&◌, ◌==◌, if◌then◌else◌,
}
use txgg.Idx.{Idx, max_idx, null_idx, idx_of, update}

-- GAME_CIRCLEQ_ENTRY
pub record Entry : Type 0 where
  pub idx : ℕ
  pub next : Idx
  pub prev : Idx

-- GAME_CIRCLEQ_HEAD, and the entries of all objects for this list.
pub record Circle : Type 0 where
  pub first : Idx
  pub last : Idx
  pub entry : ℕ → Entry

-- GAME_CIRCLEQ_INIT
pub circle_init : Circle → Circle
circle_init c = record c { first = null_idx; last = null_idx }

-- A pointer to the object `e`, with the index that its entry holds.
abbrev pub self_idx : Circle → ℕ → Idx
self_idx c e = record { p = some e; idx = (c.entry e).idx }

abbrev pub set_idx : Circle → ℕ → ℕ → Circle
set_idx c e i = record c { entry = update c.entry e (record (c.entry e) { idx = i }) }

abbrev pub set_next : Circle → ℕ → Idx → Circle
set_next c e l = record c { entry = update c.entry e (record (c.entry e) { next = l }) }

abbrev pub set_prev : Circle → ℕ → Idx → Circle
set_prev c e l = record c { entry = update c.entry e (record (c.entry e) { prev = l }) }

-- The first writes of GAME_CIRCLEQ_INSERT_HEAD, to the new object, and its last ones.
abbrev pub before_first : Circle → ℕ → Circle
before_first c e = set_prev (set_next c e c.first) e null_idx

abbrev pub set_first : Circle → ℕ → Circle
set_first c e = record c { first = self_idx c e }

-- The test on the last object, and the write to the first one.
abbrev pub link_first : Circle → ℕ → Option ℕ → Option ℕ → Option Circle
link_first c e none f = some (set_first (record c { last = self_idx c e }) e)
link_first c e (some l) none = none
link_first c e (some l) (some f) = some (set_first (set_prev c f (self_idx c e)) e)

-- GAME_CIRCLEQ_INSERT_HEAD
pub insert_head : Circle → ℕ → Option Circle
insert_head c e = let c1 = before_first c e in link_first c1 e c1.last.p c1.first.p

-- The first branch of GAME_CIRCLEQ_REMOVE: what comes after gets the `prev` of the object.
abbrev pub close_next : Circle → Idx → Option ℕ → Circle
close_next c l none = record c { last = l }
close_next c l (some n) = set_prev c n l

-- The second branch: what comes before gets its `next`.
abbrev pub close_prev : Circle → Idx → Option ℕ → Circle
close_prev c l none = record c { first = l }
close_prev c l (some b) = set_next c b l

-- GAME_CIRCLEQ_REMOVE
pub remove : Circle → ℕ → Circle
remove c e =
    let c1 = close_next c (c.entry e).prev (c.entry e).next.p in
    close_prev c1 (c1.entry e).next (c1.entry e).prev.p

-- POOL_DEF
pub record Pool : Type 0 where
  pub used : Circle
  pub freed : Circle

-- The loop of init_##name, from the object `i` on: its body sets the two indices and frees it.
pub init_objects : ℕ → ℕ → Pool → Option Pool
unfolding insert_head
init_objects zero i p = some p
init_objects (suc n) i p =
    let freed = set_idx p.freed i i in
    let used = set_idx p.used i i in
    insert_head freed i >>= λ freed'.
    init_objects n (i + 1) (record { used = used; freed = freed' })

module _ (max : ℕ) where
  -- init_##name
  pub init_pool : Pool → Option Pool
  unfolding init_objects
  init_pool p =
      init_objects max 0 (record { used = circle_init p.used; freed = circle_init p.freed })

  -- get_##name##_byidx
  abbrev pub get_byidx : ℕ → Option ℕ
  get_byidx idx = if ltb idx max then some idx else none

-- create_##name, before init_##name##_data, given its `first`: `some none` is NULL.
abbrev pub take_free : Pool → Option ℕ → Option (Option ℕ × Pool)
take_free p none = some (none, p)
take_free p (some first) =
    let freed = remove p.freed first in
    insert_head p.used first >>= λ used. some (some first, record { used = used; freed = freed })

pub create : Pool → Option (Option ℕ × Pool)
create p = take_free p p.freed.first.p

-- destory_##name
pub destory : Pool → ℕ → Option Pool
destory p e =
    let used = remove p.used e in
    insert_head p.freed e >>= λ freed. some (record { used = used; freed = freed })

module _ (max : ℕ) where
  -- One pointer of resume_##name: the object of the index, or the list head.
  abbrev pub resume_link : Idx → Idx
  resume_link l = record l { p = get_byidx max l.idx }

  abbrev pub resume_entry : Entry → Entry
  resume_entry e = record e { next = resume_link e.next; prev = resume_link e.prev }

  abbrev pub resume_at : Circle → ℕ → Circle
  resume_at c i = record c { entry = update c.entry i (resume_entry (c.entry i)) }

  -- The body of its loop for the object `i`, without the two assertions.
  abbrev pub resume_object : Pool → ℕ → Pool
  resume_object p i = record { used = resume_at p.used i; freed = resume_at p.freed i }

  -- The loop, from the object `i` on; an assertion that fails is `none`.
  pub resume_objects : ℕ → ℕ → Pool → Option Pool
  resume_objects zero i p = some p
  resume_objects (suc n) i p =
      let rest = resume_objects n (i + 1) (resume_object p i) in
      if ((p.freed.entry i).idx == i) && ((p.used.entry i).idx == i) then rest else none

  abbrev pub resume_head : Circle → Circle
  resume_head c = record c { first = resume_link c.first; last = resume_link c.last }

  -- resume_##name, before resume_##name##_data of the used objects.
  pub resume_pool : Pool → Option Pool
  unfolding resume_objects
  resume_pool p = resume_objects max 0 p >>= λ p'.
      some (record { used = resume_head p'.used; freed = resume_head p'.freed })
