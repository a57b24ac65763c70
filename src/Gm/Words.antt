-- ===== src/Gm/Words.antt =====
-- Texts in the memory of the parameters.
use txgg.Base.{
  ℕ, ◌+◌, ◌*◌, ◌<◌, ◌≡◌, ◌≢◌, refl, ◌∙◌, List, [], ◌∷◌, ◌++◌, arith, length, replicate, ==_ne,
  ==_self,
}
use txgg.Idx.{update}
use txgg.Gm.{space}

-- Bytes that are no space and do not end a text.
abbrev pub IsText : List ℕ → Type 0
IsText [] = Unit
IsText (c ∷ cs) = (c ≢ space) × (c ≢ 0) × IsText cs

-- A word fits into a row, with the closing 0.
pub record IsParam (w : List ℕ) : Type 0 where
  pub text : IsText w
  pub some_byte : 0 < length w
  pub fits : length w < 64

abbrev pub AllParams : List (ℕ × List ℕ) → Type 0
AllParams [] = Unit
AllParams ((n, w) ∷ ws) = IsParam w × AllParams ws

-- Words, each after at least one space, and `k` spaces at the end.
abbrev pub spaced : List (ℕ × List ℕ) → ℕ → List ℕ
spaced [] k = replicate k space
spaced ((n, w) ∷ ws) k = space ∷ (replicate n space ++ (w ++ spaced ws k))

-- The memory with a text and its closing 0 written at `k`.
unfoldable pub write_text : (ℕ → ℕ) → ℕ → List ℕ → ℕ → ℕ
write_text mem k [] = update mem k 0
write_text mem k (c ∷ cs) = write_text (update mem k c) (k + 1) cs

-- The memory with words in the rows from `num` on.
unfoldable pub write_rows : (ℕ → ℕ) → ℕ → List (ℕ × List ℕ) → ℕ → ℕ
unfolding write_text
write_rows mem num [] = mem
write_rows mem num ((n, w) ∷ ws) = write_rows (write_text mem (64 * num) w) (num + 1) ws

-- The text at `k` is `w`.
abbrev pub TextAt : (ℕ → ℕ) → ℕ → List ℕ → Type 0
TextAt mem k [] = mem k ≡ 0
TextAt mem k (c ∷ cs) = (mem k ≡ c) × TextAt mem (k + 1) cs

update_ne : (mem : ℕ → ℕ) (k c j : ℕ) → k ≢ j → update mem k c j ≡ mem j
update_ne mem k c j h = rw (==_ne k j h) refl

write_text-below : (w : List ℕ) (mem : ℕ → ℕ) (k j : ℕ) → j < k → write_text mem k w j ≡ mem j
unfolding write_text
write_text-below [] mem k j h = update_ne mem k 0 j (omega (arith, h))
write_text-below (c ∷ cs) mem k j h =
    write_text-below cs (update mem k c) (k + 1) j (omega arith)
    ∙ update_ne mem k c j (omega (arith, h))

write_text-TextAt : (w : List ℕ) (mem : ℕ → ℕ) (k : ℕ) → TextAt (write_text mem k w) k w
unfolding write_text
write_text-TextAt [] mem k = rw (==_self k) refl
write_text-TextAt (c ∷ cs) mem k = (
  write_text-below cs (update mem k c) (k + 1) k (omega arith) ∙ rw (==_self k) refl,
  write_text-TextAt cs (update mem k c) (k + 1),
)

-- Texts below the first row that is written stay.
TextAt-same :
    (w : List ℕ) (mem mem' : ℕ → ℕ) (k top : ℕ)
    → ((j : ℕ) → j < top → mem' j ≡ mem j)
    → k + length w < top
    → TextAt mem k w
    → TextAt mem' k w
TextAt-same [] mem mem' k top same h t = same k (omega (arith, h)) ∙ t
TextAt-same (c ∷ cs) mem mem' k top same h (e, t) =
    (same k (omega (arith, h)) ∙ e, TextAt-same cs mem mem' (k + 1) top same (omega (arith, h)) t)

write_rows-below :
    (ws : List (ℕ × List ℕ)) (mem : ℕ → ℕ) (num j : ℕ)
    → j < 64 * num
    → write_rows mem num ws j ≡ mem j
unfolding write_rows
write_rows-below [] mem num j h = refl
write_rows-below ((n, w) ∷ ws) mem num j h =
    write_rows-below ws (write_text mem (64 * num) w) (num + 1) j (omega (arith, h))
    ∙ write_text-below w mem (64 * num) j h

-- The words stand in the rows from `num` on.
abbrev pub RowsAt : (ℕ → ℕ) → ℕ → List (ℕ × List ℕ) → Type 0
RowsAt mem num [] = Unit
RowsAt mem num ((n, w) ∷ ws) = TextAt mem (64 * num) w × RowsAt mem (num + 1) ws

pub write_rows-RowsAt :
    (ws : List (ℕ × List ℕ)) (mem : ℕ → ℕ) (num : ℕ)
    → AllParams ws
    → RowsAt (write_rows mem num ws) num ws
unfolding write_rows
write_rows-RowsAt [] mem num a = tt
write_rows-RowsAt ((n, w) ∷ ws) mem num (p, a) = (
  TextAt-same w (write_text mem (64 * num) w) _ (64 * num) (64 * (num + 1))
      (λ j h. write_rows-below ws (write_text mem (64 * num) w) (num + 1) j h)
      (omega (arith, p.fits)) (write_text-TextAt w mem (64 * num)),
  write_rows-RowsAt ws (write_text mem (64 * num) w) (num + 1) a,
)
