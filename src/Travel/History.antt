-- ===== src/Travel/History.antt =====
-- Any number of roles that come and go.
use txgg.Base.{ℕ, Option, none, some, List, [], ◌∷◌, ◌>>=◌, Code}
use txgg.Travel.{World, handle_enter_instance_request, handle_leave_instance_request}
use txgg.Travel.Places.{Placed}

-- A request: the role of its session, and the instance that it names.
pub data Visit : Type 0 where
  enter : Option ℕ → Option ℕ → Visit
  leave : Option ℕ → Visit

pub visit : World → Visit → Option (Code × World)
visit w (enter role instance_id) = handle_enter_instance_request w role instance_id
visit w (leave role) = handle_leave_instance_request w role

unfoldable pub run : World → List Visit → Option World
unfolding visit
run w [] = some w
run w (x ∷ xs) = visit w x >>= λ (code, w'). run w' xs

abbrev Keeps : Option (Code × World) → Type 0
Keeps none = ⊥
Keeps (some (code, w')) = Placed w'

abbrev pub KeepsPlaces : Option World → Type 0
KeepsPlaces none = ⊥
KeepsPlaces (some w') = Placed w'
