-- ===== src/Friend/Restore.antt =====
-- Taking back an addition.
use txgg.Base.{ℕ, ◌≡◌, ◌≢◌, refl, List, [], ◌∷◌, arith, ok}
use txgg.Friend.{add_id, shift_down, del_id}
use txgg.Friend.Slots.{Zeros, Compact}

shift-Zeros : (x : ℕ) (xs : List ℕ) → Zeros xs → shift_down (x ∷ xs) ≡ 0 ∷ xs
unfolding shift_down
shift-Zeros x [] z = refl
shift-Zeros x (y ∷ ys) z = ground (arith, shift-Zeros y ys)

-- The free slots keep their place in an array that holds ids only in front.
pub del_id-add_id :
    (id : ℕ) (xs : List ℕ)
    → Compact xs
    → id ≢ 0
    → (add_id id xs).0 ≡ ok 0
    → del_id id (add_id id xs).1 ≡ (ok 0, xs)
unfolding add_id del_id
del_id-add_id id [] c h e = absurd (cc)
del_id-add_id id (x ∷ xs) c h e = ground (arith, shift-Zeros id xs, del_id-add_id id xs)
