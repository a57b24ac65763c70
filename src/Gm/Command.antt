-- ===== src/Gm/Command.antt =====
-- The handler that a command of a game master runs.
use txgg.Base.{
  ℕ, zero, suc, ◌+◌, ◌≤◌, ◌<◌, ◌≡◌, ◌≢◌, ◌⊎◌, refl, ap, ◌∙◌, sym, subst, Bool, true, false,
  Bool-cases, inl, inr, Option, none, some, List, [], ◌∷◌, ◌++◌, arith, length, replicate, ◌==◌,
  ==_iff, ==_ne, if◌then◌else◌, ok, err,
}
use txgg.Gm.{
  space, Params, GmHandle, Outcome, parsed, overrun, out_of_fuel, strlen, same_bytes, search_handle,
  get_gm_handle, Run, returned, called, failed, call, one_less, run_gm_command, parse_gm_parameter,
}
use txgg.Gm.Words.{IsText, IsParam, AllParams, spaced, TextAt}
use txgg.Gm.Parse.{parse_gm_parameter-blanks, Parsed, parse_gm_parameter-Parsed}

strlen_lem :
    (w : List ℕ) (mem : ℕ → ℕ) (n k : ℕ)
    → IsText w
    → TextAt mem k w
    → length w < n
    → strlen n mem k ≡ length w
unfolding strlen
strlen_lem w mem zero k t a h = absurd (omega (arith, h))
strlen_lem [] mem (suc n) k t a h = rw a refl
strlen_lem (c ∷ w) mem (suc n) k (ns, nz, t) (e, a) h =
    rw (e, ==_ne c 0 nz) (ap suc (strlen_lem w mem n (k + 1) t a (omega (arith, h))))

-- Texts of one length are the same bytes exactly if they are the same text.
Same : List ℕ → List ℕ → Bool → Type 0
Same w cmd true = cmd ≡ w
Same w cmd false = cmd ≢ w

head_same : {c d : ℕ} {cs ds : List ℕ} → d ∷ ds ≡ c ∷ cs → d ≡ c
head_same e = cc

tail_same : {c d : ℕ} {cs ds : List ℕ} → d ∷ ds ≡ c ∷ cs → ds ≡ cs
tail_same e = cc

same_bytes-Same :
    (w cmd : List ℕ) (mem : ℕ → ℕ) (k : ℕ)
    → TextAt mem k w
    → length w ≡ length cmd
    → Same w cmd (same_bytes mem k cmd)
unfolding same_bytes Same
same_bytes-Same [] [] mem k a e = refl
same_bytes-Same [] (d ∷ cmd) mem k a e = absurd (omega (arith, e))
same_bytes-Same (c ∷ w) [] mem k a e = absurd (omega (arith, e))
same_bytes-Same (c ∷ w) (d ∷ cmd) mem k (at, a) e = rw at (elim (Bool-cases (c == d)) [
  | inl q ↦ rw q (
      longer ((==_iff c d).0 q) (same_bytes mem (k + 1) cmd)
        (same_bytes-Same w cmd mem (k + 1) a (omega (arith, e))))
  | inr q ↦ rw q (λ p. let same_head = head_same p in ground (arith, q, same_head))
])
  where
    longer : c ≡ d → (b : Bool) → Same w cmd b → Same (c ∷ w) (d ∷ cmd) b
    longer q true p = rw (q, p) refl
    longer q false p = λ r. p (tail_same r)

-- The handler that is found: the first with the name, or none has it.
abbrev pub Named : List ℕ → List GmHandle → Option GmHandle → Type 0
Named w [] none = Unit
Named w [] (some h) = ⊥
Named w (h ∷ hs) o = ((h.cmd ≡ w) × (o ≡ some h)) ⊎ ((h.cmd ≢ w) × Named w hs o)

search_handle-Named :
    (hs : List GmHandle) (w : List ℕ) (mem : ℕ → ℕ)
    → TextAt mem 0 w
    → Named w hs (search_handle (length w) mem hs)
unfolding search_handle Same
search_handle-Named [] w mem a = tt
search_handle-Named (h ∷ hs) w mem a = elim (Bool-cases (length w == length h.cmd)) [
  | inl e ↦ rw e (
      found (same_bytes mem 0 h.cmd) (search_handle-Named hs w mem a)
        (same_bytes-Same w h.cmd mem 0 a ((==_iff (length w) (length h.cmd)).0 e)))
  | inr e ↦ rw e (inr (λ q. ground (arith, e, ap length q), search_handle-Named hs w mem a))
]
  where
    found :
        (b : Bool)
        → Named w hs (search_handle (length w) mem hs)
        → Same w h.cmd b
        → Named w (h ∷ hs) (if b then some h else search_handle (length w) mem hs)
    found true later p = inl (p, refl)
    found false later p = inr (p, later)

-- What a command of these words does.
abbrev pub Calls : List GmHandle → List ℕ → List (ℕ × List ℕ) → Run → Type 0
Calls hs w ws (returned (ok n)) = ⊥
Calls hs w ws (returned (err n)) = (n ≡ 10) × (length ws ≤ 15) × Named w hs none
Calls hs w ws (called handle (ok n)) =
    (n ≡ length ws)
    × (length ws ≤ 15)
    × ((h : GmHandle) × (h.handle ≡ handle) × Named w hs (some h))
Calls hs w ws (called handle (err n)) = ⊥
Calls hs w ws (failed overrun) = 15 < length ws
Calls hs w ws (failed out_of_fuel) = ⊥
Calls hs w ws (failed (parsed s)) = ⊥

module _ (hs : List GmHandle) where
  run_lem :
      (cmd : List ℕ) (s : Params)
      → run_gm_command hs cmd s ≡ elim (parse_gm_parameter cmd s) [
        | parsed s' ↦ call (get_gm_handle hs s') s'
        | overrun ↦ failed overrun
        | out_of_fuel ↦ failed out_of_fuel
      ]
  unfolding run_gm_command
  run_lem cmd s = refl

  chosen :
      (n : ℕ) (w : List ℕ) (ws : List (ℕ × List ℕ)) (o : Outcome)
      → IsParam w
      → Parsed ((n, w) ∷ ws) o
      → Calls hs w ws (elim o [
        | parsed s' ↦ call (get_gm_handle hs s') s'
        | overrun ↦ failed overrun
        | out_of_fuel ↦ failed out_of_fuel
      ])
  unfolding get_gm_handle
  chosen n w ws overrun p a = omega (arith, a)
  chosen n w ws out_of_fuel p a = a
  chosen n w ws (parsed s) p (few, count, (at, rows)) = rw count (
      rw (strlen_lem w s.mem 1024 0 p.text at (omega (arith, p.fits)))
        (named (search_handle (length w) s.mem hs) (search_handle-Named hs w s.mem at)))
    where
      named :
          (o : Option GmHandle)
          → Named w hs o
          → Calls hs w ws (call o (record { num = suc (length ws); mem = s.mem }))
      named none q = (refl, omega (arith, few), q)
      named (some h) q = (refl, omega (arith, few), (h, refl, q))

  -- A command whose first word is `w`, of words of less than 64 bytes with spaces between, before and
  -- after them: with at most 15 further words, the first handler that was registered under `w` is
  -- called with their number, and without one the result is -10; with more the code writes behind its
  -- array of parameters.
  pub run_gm_command-Calls :
      (n : ℕ) (w : List ℕ) (ws : List (ℕ × List ℕ)) (k : ℕ) (s : Params)
      → IsParam w
      → AllParams ws
      → Calls hs w ws (run_gm_command hs (replicate n space ++ (w ++ spaced ws k)) s)
  run_gm_command-Calls n w ws k s p a =
      subst (Calls hs w ws) (sym (run_lem (replicate n space ++ (w ++ spaced ws k)) s))
        (chosen n w ws _ p (parse_gm_parameter-Parsed n w ws k s p a))

  same_name : (s : Params) → get_gm_handle hs (record s { num = 0 }) ≡ get_gm_handle hs s
  unfolding get_gm_handle
  same_name s = refl

  -- A text of spaces only, or none at all, calls the handler of the command before once more, and
  -- tells it that there are -1 parameters.
  pub run_gm_command_repeats :
      (cmd : List ℕ) (k : ℕ) (s s' : Params) (h : GmHandle)
      → parse_gm_parameter cmd s ≡ parsed s'
      → get_gm_handle hs s' ≡ some h
      → (run_gm_command hs cmd s ≡ called h.handle (one_less s'.num))
        × (run_gm_command hs (replicate k space) s' ≡ called h.handle (err 1))
  run_gm_command_repeats cmd k s s' h e f = (
    run_lem cmd s ∙ rw (e, f) refl,
    run_lem (replicate k space) s' ∙ rw (parse_gm_parameter-blanks k s', same_name s', f) refl,
  )
