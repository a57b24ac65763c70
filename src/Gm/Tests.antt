-- ===== src/Gm/Tests.antt =====
-- Commands of a game master, and the theorems applied to them.
use txgg.Base.{ℕ, ◌≡◌, ◌≢◌, refl, List, [], ◌∷◌, ◌++◌, arith, ok, err}
use txgg.Gm.{
  space, Params, GmHandle, parse_gm_parameter, copy_word, get_gm_handle, called, run_gm_command,
}
use txgg.Gm.Words.{IsParam, AllParams, spaced, write_text}
use txgg.Gm.Parse.{Parsed, parse_gm_parameter-Parsed}
use txgg.Gm.Command.{Calls, run_gm_command-Calls, run_gm_command_repeats}

-- hp and item
abbrev hp : List ℕ
hp = 104 ∷ 112 ∷ []

abbrev item : List ℕ
item = 105 ∷ 116 ∷ 101 ∷ 109 ∷ []

abbrev handles : List GmHandle
handles = record { cmd = item; handle = 1 } ∷ record { cmd = hp; handle = 2 } ∷ []

abbrev fresh : Params
fresh = record { num = 0; mem = λ k. 0 }

-- hp, and 9 after two spaces
abbrev hp_9 : List ℕ
hp_9 = hp ++ spaced ((1, 57 ∷ []) ∷ []) 1

short-IsParam : (c d : ℕ) → c ≢ space → c ≢ 0 → d ≢ space → d ≢ 0 → IsParam (c ∷ d ∷ [])
short-IsParam c d s z s' z' = record {
  text = (s, z, (s', z', tt));
  some_byte = omega arith;
  fits = omega arith;
}

hp-IsParam : IsParam hp
hp-IsParam = short-IsParam 104 112 (omega arith) (omega arith) (omega arith) (omega arith)

nine-AllParams : AllParams ((1, 57 ∷ []) ∷ [])
nine-AllParams = (
  record { text = (omega arith, omega arith, tt); some_byte = omega arith; fits = omega arith },
  tt,
)

parse_gm_parameter-Parsed_example :
    Parsed ((0, hp) ∷ (1, 57 ∷ []) ∷ []) (parse_gm_parameter hp_9 fresh)
parse_gm_parameter-Parsed_example =
    parse_gm_parameter-Parsed 0 hp ((1, 57 ∷ []) ∷ []) 1 fresh hp-IsParam nine-AllParams

run_gm_command-Calls_example :
    Calls handles hp ((1, 57 ∷ []) ∷ []) (run_gm_command handles hp_9 fresh)
run_gm_command-Calls_example =
    run_gm_command-Calls handles 0 hp ((1, 57 ∷ []) ∷ []) 1 fresh hp-IsParam nine-AllParams

calls_hp : run_gm_command handles hp_9 fresh ≡ called 2 (ok 1)
unfolding run_gm_command parse_gm_parameter copy_word get_gm_handle
calls_hp = refl

abbrev after_hp : Params
after_hp = record { num = 1; mem = write_text (λ k. 0) 0 hp }

run_gm_command_repeats_example :
    (run_gm_command handles hp fresh ≡ called 2 (ok 0))
    × (run_gm_command handles (space ∷ []) after_hp ≡ called 2 (err 1))
unfolding parse_gm_parameter copy_word get_gm_handle write_text
run_gm_command_repeats_example =
    run_gm_command_repeats handles hp 1 fresh after_hp (record { cmd = hp; handle = 2 }) refl refl
