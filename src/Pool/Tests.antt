-- ===== src/Pool/Tests.antt =====
-- A pool of three objects, and the theorems applied to it.
use txgg.Base.{◌≡◌, refl, none, some, List, [], ◌∷◌, arith}
use txgg.Idx.{Idx}
use txgg.Pool.{Circle, Pool, resume_pool}
use txgg.Pool.Alloc.{IsValid}
use txgg.Pool.Start.{init_pool-IsValid}
use txgg.Pool.History.{Request, obtain, release, Served, serve, serve-Served}
use txgg.Pool.Resume.{SameIndices, resume_pool-IsValid}

-- Memory as the system gives it.
abbrev zero_idx : Idx
zero_idx = record { p = some 0; idx = 0 }

abbrev zero_circle : Circle
zero_circle = record {
  first = zero_idx;
  last = zero_idx;
  entry = λ i. record { idx = 0; next = zero_idx; prev = zero_idx };
}

abbrev zero_pool : Pool
zero_pool = record { used = zero_circle; freed = zero_circle }

abbrev started : Pool
started = (init_pool-IsValid 3 zero_pool).0

started-IsValid : IsValid 3 started [] (2 ∷ 1 ∷ 0 ∷ [])
started-IsValid = (init_pool-IsValid 3 zero_pool).2

abbrev history : List Request
history = obtain ∷ obtain ∷ release 2 ∷ obtain ∷ obtain ∷ obtain ∷ []

serve-Served_example :
    Served 3 (record { used = []; freed = 2 ∷ 1 ∷ 0 ∷ [] }) history (serve started history)
serve-Served_example =
    serve-Served 3 started (record { used = []; freed = 2 ∷ 1 ∷ 0 ∷ [] }) history started-IsValid
      (refl, tt)

-- The pool after a restart: every pointer is replaced.
abbrev lost_circle : Circle → Circle
lost_circle c = record {
  first = record c.first { p = some 77 };
  last = record c.last { p = some 77 };
  entry = λ i. record {
    idx = (c.entry i).idx;
    next = record { p = some 77; idx = (c.entry i).next.idx };
    prev = record { p = none; idx = (c.entry i).prev.idx };
  };
}

same : (c : Circle) → SameIndices c (lost_circle c)
same c = record { first = refl; last = refl; own = λ i. refl; next = λ i. refl; prev = λ i. refl }

resume_pool-IsValid_example :
    (q : Pool) × (resume_pool 3
        (record { used = lost_circle started.used; freed = lost_circle started.freed })
      ≡ some q)
    × IsValid 3 q [] (2 ∷ 1 ∷ 0 ∷ [])
resume_pool-IsValid_example =
    resume_pool-IsValid 3 (omega arith) started
      (record { used = lost_circle started.used; freed = lost_circle started.freed }) []
      (2 ∷ 1 ∷ 0 ∷ []) started-IsValid (same started.used) (same started.freed)
