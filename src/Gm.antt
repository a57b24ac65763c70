-- ===== src/Gm.antt =====
-- server/game_srv/gm.c: the commands of game masters, texts of a name and parameters that stand
-- between spaces. gm_param is 16 rows of 64 bytes, one after the other, and keeps what an earlier
-- command left; it is a function from byte indices here, and a write to a row that does not exist is
-- the outcome `overrun`. A text is the list of its bytes without the closing 0.
pub mod Words
pub mod Parse
pub mod Command
mod Tests
use txgg.Base.{
  ℕ, zero, suc, ◌+◌, ◌-◌, ◌*◌, Bool, true, false, not, ◌&&◌, Option, none, some, List, [], ◌∷◌,
  ◌++◌, ltb, leb, ◌==◌, if◌then◌else◌, length, Code, ok, err,
}
use txgg.Idx.{update}

abbrev pub max_gamemaster_parameter_number : ℕ
max_gamemaster_parameter_number = 16

abbrev pub max_gamemaster_per_parameter_length : ℕ
max_gamemaster_per_parameter_length = 64

abbrev pub max_gamemaster_handler_number : ℕ
max_gamemaster_handler_number = 128

abbrev pub space : ℕ
space = 32

-- gm_param_num and gm_param
pub record Params : Type 0 where
  pub num : ℕ
  pub mem : ℕ → ℕ

-- GM_HANDLE: the length is that of the name, and a handler is a number.
pub record GmHandle : Type 0 where
  pub cmd : List ℕ
  pub handle : ℕ

-- How a parse ends: with the parameters, by a write behind gm_param, or out of fuel.
pub data Outcome : Type 0 where
  parsed : Params → Outcome
  overrun out_of_fuel : Outcome

-- gm_param[gm_param_num][i] = c
unfoldable pub write_param : Params → ℕ → ℕ → Params
write_param s i c = record s {
  mem = update s.mem (max_gamemaster_per_parameter_length * s.num + i) c;
}

abbrev pub has_row : Params → Bool
has_row s = ltb s.num max_gamemaster_parameter_number

-- The inner loop, from `i` on and with the `n` cells of the row that are left: the parameters, and
-- the rest of the text.
unfoldable pub copy_word : ℕ → ℕ → List ℕ → Params → Option (Params × List ℕ)
unfolding write_param
copy_word zero i cmd s = some (s, cmd)
copy_word (suc n) i [] s =
    if has_row s then some (record (write_param s i 0) { num = s.num + 1 }, []) else none
copy_word (suc n) i (c ∷ cs) s =
    let rest = copy_word n (i + 1) cs (write_param s i c) in
    if not (has_row s)
    then none
    else if c == space
    then some (record (write_param s i 0) { num = s.num + 1 }, c ∷ cs)
    else rest

-- What follows the inner loop.
abbrev pub or_overrun : Option (Params × List ℕ) → (Params → List ℕ → Outcome) → Outcome
or_overrun none go = overrun
or_overrun (some (s, rest)) go = go s rest

-- The outer loop. Each round takes at least one byte off the text.
unfoldable pub parse_loop : ℕ → List ℕ → Params → Outcome
parse_loop zero cmd s = out_of_fuel
parse_loop (suc fuel) [] s = parsed s
parse_loop (suc fuel) (c ∷ cs) s = elim (c == space) [
  | true ↦ parse_loop fuel cs s
  | false ↦
      or_overrun (copy_word max_gamemaster_per_parameter_length 0 (c ∷ cs) s)
        (λ s' rest. parse_loop fuel rest s')
]

-- parse_gm_parameter
pub parse_gm_parameter : List ℕ → Params → Outcome
unfolding parse_loop
parse_gm_parameter cmd s = parse_loop (suc (length cmd)) cmd (record s { num = 0 })

-- strlen of the text at `k`, in at most `n` bytes.
unfoldable pub strlen : ℕ → (ℕ → ℕ) → ℕ → ℕ
strlen zero mem k = 0
strlen (suc n) mem k = let rest = strlen n mem (k + 1) in if mem k == 0 then 0 else suc rest

-- memcmp(gm_param[0], cmd, len) == 0, from byte `k` on
unfoldable pub same_bytes : (ℕ → ℕ) → ℕ → List ℕ → Bool
same_bytes mem k [] = true
same_bytes mem k (c ∷ cs) =
    let rest = same_bytes mem (k + 1) cs in if mem k == c then rest else false

-- The loop of get_gm_handle, for a name of `len` bytes.
unfoldable pub search_handle : ℕ → (ℕ → ℕ) → List GmHandle → Option GmHandle
unfolding same_bytes
search_handle len mem [] = none
search_handle len mem (h ∷ hs) =
    let rest = search_handle len mem hs in
    if not (len == length h.cmd) then rest else if same_bytes mem 0 h.cmd then some h else rest

-- get_gm_handle
unfoldable pub get_gm_handle : List GmHandle → Params → Option GmHandle
unfolding strlen search_handle
get_gm_handle handles s =
    search_handle
      (strlen (max_gamemaster_parameter_number * max_gamemaster_per_parameter_length) s.mem 0) s.mem
      handles

-- What run_gm_command does: it returns, or calls a handler with a number of parameters, which is -1
-- where the text has no word; or the parse does not end well.
pub data Run : Type 0 where
  returned : Code → Run
  called : ℕ → Code → Run
  failed : Outcome → Run

abbrev pub one_less : ℕ → Code
one_less zero = err 1
one_less (suc n) = ok n

abbrev pub call : Option GmHandle → Params → Run
call none s = returned (err 10)
call (some h) s = called h.handle (one_less s.num)

-- run_gm_command
pub run_gm_command : List GmHandle → List ℕ → Params → Run
unfolding parse_gm_parameter get_gm_handle
run_gm_command handles cmd s = elim (parse_gm_parameter cmd s) [
  | parsed s' ↦ call (get_gm_handle handles s') s'
  | overrun ↦ failed overrun
  | out_of_fuel ↦ failed out_of_fuel
]

-- register_gm_handle
pub register_gm_handle : List GmHandle → GmHandle → Code × List GmHandle
register_gm_handle handles h =
    if leb max_gamemaster_handler_number (length handles)
    then (err 1, handles)
    else if leb max_gamemaster_per_parameter_length (length h.cmd)
    then (err 10, handles)
    else (ok 0, handles ++ (h ∷ []))
