-- ===== src/Net/Bytes.antt =====
-- The bytes of a buffer, as lists.
use txgg.Base.{
  ℕ, zero, suc, ◌+◌, ◌*◌, ◌≤◌, ◌<◌, ◌≡◌, refl, ap, List, [], ◌∷◌, ◌++◌, arith, length, take-append,
  drop-append, length-append, sym, ◌∙◌,
}
use txgg.Idx.{update}
use txgg.Net.{window, put_bytes, memmove, read_net}

-- The length that a message says it has.
abbrev pub len_field : List ℕ → ℕ
len_field [] = 0
len_field (a ∷ []) = 0
len_field (a ∷ b ∷ bs) = a * 256 + b

pub length-window : (buf : ℕ → ℕ) (i n : ℕ) → length (window buf i n) ≡ n
unfolding window
length-window buf i zero = refl
length-window buf i (suc n) = ap suc (length-window buf (i + 1) n)

pub window_eq :
    (f g : ℕ → ℕ) (i k n : ℕ)
    → ((j : ℕ) → j < n → f (i + j) ≡ g (k + j))
    → window f i n ≡ window g k n
unfolding window
window_eq f g i k zero h = refl
window_eq f g i k (suc n) h =
    let head : f i ≡ g k = ground (arith, h 0) in
    rw (head, window_eq f g (i + 1) (k + 1) n (λ j l. ground (arith, h (suc j)))) refl

pub window-append :
    (buf : ℕ → ℕ) (i m n : ℕ) → window buf i (m + n) ≡ window buf i m ++ window buf (i + m) n
unfolding window
window-append buf i zero n = ground arith
window-append buf i (suc m) n =
    let count : suc m + n ≡ suc (m + n) = omega arith in
    let start : i + suc m ≡ i + 1 + m = omega arith in
    rw (count, start) (ap (◌∷◌ (buf i)) (window-append buf (i + 1) m n))

pub put_bytes_below :
    (buf : ℕ → ℕ) (i : ℕ) (bs : List ℕ) (j : ℕ) → j < i → put_bytes buf i bs j ≡ buf j
unfolding put_bytes
put_bytes_below buf i [] j h = refl
put_bytes_below buf i (b ∷ bs) j h = ground (arith, put_bytes_below (update buf i b) (i + 1) bs j)

pub window-put_bytes :
    (buf : ℕ → ℕ) (i : ℕ) (bs : List ℕ) → window (put_bytes buf i bs) i (length bs) ≡ bs
unfolding window put_bytes
window-put_bytes buf i [] = refl
window-put_bytes buf i (b ∷ bs) = ground (
  arith,
  put_bytes_below (update buf i b) (i + 1) bs i,
  window-put_bytes (update buf i b) (i + 1) bs,
)

pub window-memmove :
    (buf : ℕ → ℕ) (dst src n : ℕ) → window (memmove buf dst src n) dst n ≡ window buf src n
unfolding memmove
window-memmove buf dst src n = window_eq (memmove buf dst src n) buf dst src n (λ j l. ground arith)

pub len_field-window : (buf : ℕ → ℕ) (i n : ℕ) → 2 ≤ n → len_field (window buf i n) ≡ read_net buf i
unfolding window
len_field-window buf i zero h = absurd (omega arith)
len_field-window buf i (suc zero) h = absurd (omega arith)
len_field-window buf i (suc (suc n)) h = refl

-- The two parts of a list that the buffer holds.
pub window-split :
    (buf : ℕ → ℕ) (i : ℕ) (xs ys : List ℕ)
    → window buf i (length (xs ++ ys)) ≡ xs ++ ys
    → (window buf i (length xs) ≡ xs) × (window buf (i + length xs) (length ys) ≡ ys)
window-split buf i xs ys h =
    let parts : window buf i (length xs) ++ window buf (i + length xs) (length ys) ≡ xs ++ ys =
      sym (window-append buf i (length xs) (length ys)) ∙ rw (← length-append xs ys) h in
    let len : length (window buf i (length xs)) ≡ length xs = length-window buf i (length xs) in
    (
      sym (take-append (window buf i (length xs)) (window buf (i + length xs) (length ys)))
          ∙ rw (len, parts) (take-append xs ys),
      sym (drop-append (window buf i (length xs)) (window buf (i + length xs) (length ys)))
          ∙ rw (len, parts) (drop-append xs ys),
    )

pub window-join :
    (buf : ℕ → ℕ) (i : ℕ) (xs ys : List ℕ)
    → window buf i (length xs) ≡ xs
    → window buf (i + length xs) (length ys) ≡ ys
    → window buf i (length (xs ++ ys)) ≡ xs ++ ys
window-join buf i xs ys h k =
    rw (length-append xs ys, window-append buf i (length xs) (length ys), h, k) refl

pub window-receive :
    (buf : ℕ → ℕ) (i : ℕ) (xs ys : List ℕ)
    → window buf i (length xs) ≡ xs
    → window (put_bytes buf (i + length xs) ys) i (length (xs ++ ys)) ≡ xs ++ ys
window-receive buf i xs ys h =
    window-join (put_bytes buf (i + length xs) ys) i xs ys
      (window_eq (put_bytes buf (i + length xs) ys) buf i i (length xs)
          (λ j l. put_bytes_below buf (i + length xs) ys (i + j) (omega arith))
        ∙ h)
      (window-put_bytes buf (i + length xs) ys)
