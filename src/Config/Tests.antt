-- ===== src/Config/Tests.antt =====
-- A table of two cells from a file of three rows.
use txgg.Base.{ℕ, ◌≡◌, refl, Option, none, some, List, [], ◌∷◌, replicate}
use txgg.Config.{get_config_byid, load_rows}

abbrev first_of : ℕ × ℕ → ℕ
first_of (a, b) = a

abbrev small_table : List (Option (ℕ × ℕ))
small_table = load_rows 2 first_of ((1, 7) ∷ (5, 8) ∷ (1, 9) ∷ []) (replicate 2 none)

last_wins : get_config_byid 2 small_table 1 ≡ some (1, 9)
unfolding get_config_byid load_rows
last_wins = refl

too_large : get_config_byid 2 small_table 5 ≡ none
unfolding get_config_byid load_rows
too_large = refl
