-- ===== src/Gm/Parse.antt =====
-- What parse_gm_parameter makes of a text of words.
use txgg.Base.{
  ℕ, zero, suc, ◌+◌, ◌*◌, ◌≤◌, ◌<◌, ◌≡◌, ◌≢◌, refl, ap, ◌∙◌, sym, subst, Bool, true, false,
  Bool-cases, inl, inr, Option, none, some, List, [], ◌∷◌, ◌++◌, arith, length, length-append,
  replicate, ltb, leb, ltb→lt, leb→le, lt→leb, le→leb, ==_iff, ==_ne, if◌then◌else◌,
}
use txgg.Idx.{update}
use txgg.Gm.{
  space, Params, Outcome, parsed, overrun, out_of_fuel, write_param, has_row, copy_word, or_overrun,
  parse_loop, parse_gm_parameter,
}
use txgg.Gm.Words.{
  IsText, IsParam, AllParams, spaced, write_text, write_rows, RowsAt, write_rows-RowsAt,
}

-- What ends a word.
abbrev Ends : List ℕ → Type 0
Ends [] = Unit
Ends (c ∷ cs) = c ≡ space

spaced-Ends : (ws : List (ℕ × List ℕ)) (k : ℕ) → Ends (spaced ws k)
spaced-Ends [] zero = tt
spaced-Ends [] (suc k) = refl
spaced-Ends ((n, w) ∷ ws) k = refl

-- A word is copied into its row.
copy_word-copies :
    (w rest : List ℕ) (n i : ℕ) (s : Params)
    → IsText w
    → length w < n
    → Ends rest
    → has_row s ≡ true
    → copy_word n i (w ++ rest) s
      ≡ some (record { num = s.num + 1; mem = write_text s.mem (64 * s.num + i) w }, rest)
unfolding copy_word write_param write_text
copy_word-copies w rest zero i s t h e r = absurd (omega (arith, h))
copy_word-copies [] [] (suc n) i s t h e r = rw r refl
copy_word-copies [] (c ∷ cs) (suc n) i s t h e r = rw (r, (==_iff c space).1 e) refl
copy_word-copies (c ∷ w) rest (suc n) i s (ns, nz, t) h e r =
    rw (r, ==_ne c space ns)
      (copy_word-copies w rest n (i + 1) (write_param s i c) t (omega (arith, h)) e r
        ∙ ap
            (λ k. some (
              record { num = s.num + 1; mem = write_text (update s.mem (64 * s.num + i) c) k w },
              rest,
            ))
            (omega arith))

-- Without a row the first byte is already written behind the parameters.
copy_word-overruns :
    (n i c : ℕ) (cs : List ℕ) (s : Params)
    → has_row s ≡ false
    → copy_word (suc n) i (c ∷ cs) s ≡ none
unfolding copy_word
copy_word-overruns n i c cs s r = rw r refl

-- The outcome for words that are copied from the row `s.num` on.
abbrev pub result : Params → List (ℕ × List ℕ) → Outcome
result s ws =
    if leb (s.num + length ws) 16
    then parsed (record { num = s.num + length ws; mem = write_rows s.mem s.num ws })
    else overrun

blanks : (k fuel : ℕ) (s : Params) → k < fuel → parse_loop fuel (replicate k space) s ≡ parsed s
unfolding parse_loop
blanks k zero s h = absurd (omega (arith, h))
blanks zero (suc fuel) s h = refl
blanks (suc k) (suc fuel) s h = blanks k fuel s (omega (arith, h))

-- After some spaces, on the rest of the text and with fuel that is enough for it.
Skipped : ℕ → List ℕ → List ℕ → Params → Type 0
Skipped fuel cs rest s = (f : ℕ) × (length rest < f) × (parse_loop fuel cs s ≡ parse_loop f rest s)

skip :
    (n fuel : ℕ) (rest : List ℕ) (s : Params)
    → length (replicate n space ++ rest) < fuel
    → Skipped fuel (replicate n space ++ rest) rest s
unfolding parse_loop Skipped
skip n zero rest s h = absurd (omega (arith, h))
skip zero (suc fuel) rest s h = (suc fuel, h, refl)
skip (suc n) (suc fuel) rest s h = skip n fuel rest s (omega (arith, h))

Spells : List (ℕ × List ℕ) → List ℕ → Type 0
Spells ws cmd =
    (fuel : ℕ) (s : Params) → length cmd < fuel → s.num ≤ 16 → parse_loop fuel cmd s ≡ result s ws

row_full : (n : ℕ) → ltb n 16 ≡ false → 16 ≤ n
row_full n e = ground (arith, e)

length-blanks : (k : ℕ) → length (replicate k space) ≡ k
length-blanks zero = refl
length-blanks (suc k) = ap suc (length-blanks k)

parse_word :
    (fuel c : ℕ) (cs : List ℕ) (s : Params)
    → c ≢ space
    → parse_loop (suc fuel) (c ∷ cs) s
      ≡ or_overrun (copy_word 64 0 (c ∷ cs) s) (λ s' rest. parse_loop fuel rest s')
unfolding parse_loop
parse_word fuel c cs s h = ap go (==_ne c space h)
  where
    go : Bool → Outcome
    go b = elim b [
      | true ↦ parse_loop fuel cs s
      | false ↦ or_overrun (copy_word 64 0 (c ∷ cs) s) (λ s' rest. parse_loop fuel rest s')
    ]

word_first :
    (n : ℕ) (w rest : List ℕ) (ws : List (ℕ × List ℕ))
    → IsParam w
    → Ends rest
    → Spells ws rest
    → Spells ((n, w) ∷ ws) (w ++ rest)
unfolding Spells write_rows
word_first n [] rest ws p e ih fuel s h few = absurd (omega (arith, p.some_byte))
word_first n (c ∷ w) rest ws p e ih zero s h few = absurd (omega (arith, h))
word_first n (c ∷ w) rest ws p e ih (suc fuel) s h few =
    parse_word fuel c (w ++ rest) s p.text.0 ∙ elim (Bool-cases (has_row s)) [
      | inl r ↦
          ap after (copy_word-copies (c ∷ w) rest 64 0 s p.text p.fits e r)
          ∙ ih fuel (record { num = s.num + 1; mem = write_text s.mem (64 * s.num + 0) (c ∷ w) })
              (omega (arith, h, length-append w rest)) (omega (arith, ltb→lt _ _ r))
          ∙ moved
      | inr r ↦ ap after (copy_word-overruns 63 0 c (w ++ rest) s r) ∙ full r
    ]
  where
    after : Option (Params × List ℕ) → Outcome
    after o = or_overrun o (λ s' rest'. parse_loop fuel rest' s')

    -- The state after the word leads to the same result.
    moved :
        result (record { num = s.num + 1; mem = write_text s.mem (64 * s.num + 0) (c ∷ w) }) ws
        ≡ result s ((n, c ∷ w) ∷ ws)
    moved =
        let at : 64 * s.num + 0 ≡ 64 * s.num = omega arith in
        let count : s.num + 1 + length ws ≡ s.num + suc (length ws) = omega arith in
        rw (at, count) refl

    full : has_row s ≡ false → overrun ≡ result s ((n, c ∷ w) ∷ ws)
    full r = rw (lt→leb (s.num + suc (length ws)) 16 (omega (arith, row_full s.num r))) refl

spaced-Spells : (ws : List (ℕ × List ℕ)) (k : ℕ) → AllParams ws → Spells ws (spaced ws k)
unfolding Spells write_rows parse_loop Skipped
spaced-Spells [] k a fuel s h few =
    blanks k fuel s (omega (arith, h, length-blanks k))
    ∙ (let same_num : s.num + 0 ≡ s.num = omega arith in rw (same_num, le→leb s.num 16 few) refl)
spaced-Spells ((n, w) ∷ ws) k (p, a) zero s h few = absurd (omega (arith, h))
spaced-Spells ((n, w) ∷ ws) k (p, a) (suc fuel) s h few =
    let (f, enough, e) = skip n fuel (w ++ spaced ws k) s (omega (arith, h)) in
    e ∙ word_first n w (spaced ws k) ws p (spaced-Ends ws k) (spaced-Spells ws k a) f s enough few

-- How the parse of a text of these words ends.
abbrev pub Parsed : List (ℕ × List ℕ) → Outcome → Type 0
Parsed ws (parsed s) = (length ws ≤ 16) × (s.num ≡ length ws) × RowsAt s.mem 0 ws
Parsed ws overrun = 16 < length ws
Parsed ws out_of_fuel = ⊥

module _ (n : ℕ) (w : List ℕ) (ws : List (ℕ × List ℕ)) (k : ℕ) (s : Params) where
  result-Parsed :
      IsParam w → AllParams ws → Parsed ((n, w) ∷ ws) (result (record s { num = 0 }) ((n, w) ∷ ws))
  result-Parsed p a = elim (Bool-cases (leb (0 + suc (length ws)) 16)) [
    | inl e ↦ rw e (
      omega (arith, leb→le (0 + suc (length ws)) 16 e),
      omega arith,
      write_rows-RowsAt ((n, w) ∷ ws) s.mem 0 (p, a),
    )
    | inr e ↦ rw e (ground (arith, e))
  ]

  -- parse_gm_parameter on a text of words of less than 64 bytes, with spaces between, before and
  -- after them, whatever an earlier command has left: up to 16 words are the parameters, each in its
  -- row and closed by a 0; with more words the code writes behind the array.
  pub parse_gm_parameter-Parsed :
      IsParam w
      → AllParams ws
      → Parsed ((n, w) ∷ ws) (parse_gm_parameter (replicate n space ++ (w ++ spaced ws k)) s)
  unfolding parse_gm_parameter Skipped Spells
  parse_gm_parameter-Parsed p a =
      let cmd = replicate n space ++ (w ++ spaced ws k) in
      let start : Params = record s { num = 0 } in
      let (f, enough, e) = skip n (suc (length cmd)) (w ++ spaced ws k) start (omega arith) in
      subst (Parsed ((n, w) ∷ ws))
        (sym (
          e
          ∙ word_first n w (spaced ws k) ws p (spaced-Ends ws k) (spaced-Spells ws k a) f start
              enough (omega arith)))
        (result-Parsed p a)

-- A text of spaces leaves the parameters of the command before, and says that there are none.
pub parse_gm_parameter-blanks :
    (k : ℕ) (s : Params) → parse_gm_parameter (replicate k space) s ≡ parsed (record s { num = 0 })
unfolding parse_gm_parameter
parse_gm_parameter-blanks k s =
    blanks k (suc (length (replicate k space))) (record s { num = 0 })
      (omega (arith, length-blanks k))
