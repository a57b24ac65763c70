-- ===== src/Conn/Loop.antt =====
-- The loop of the receive callbacks: the messages that are whole are passed on in order and leave the
-- buffer, whatever the transfer does with each.
use txgg.Base.{
  ℕ, zero, suc, ◌+◌, ◌≤◌, ◌≡◌, refl, sym, ap, ◌∙◌, true, false, Bool-cases, inl, inr, Option, none,
  some, List, [], ◌∷◌, ◌++◌, arith, le→leb, length, length-append,
}
use mathlib.Core.List.{flatten, foldl}
use txgg.Net.{Client, head_len, is_complete, remove_front, remove_one_buf}
use txgg.Net.Bytes.{len_field}
use txgg.Net.Frames.{
  Buffered, has_message, is_complete-Buffered, head_len_eq, remove_front-Buffered,
}
use txgg.Conn.{recv_loop}

-- A message whose header gives its length, of so many bytes.
pub record IsMessage (least most : ℕ) (msg : List ℕ) : Type 0 where
  pub long : least ≤ length msg
  pub short : length msg ≤ most
  pub len_lem : len_field msg ≡ length msg

abbrev pub All {ℓ κ} : {A : Type ℓ} → (A → Type κ) → List A → Type κ
All P [] = Unit
All P (x ∷ xs) = P x × All P xs

pub All-append {ℓ κ} : {A : Type ℓ} (P : A → Type κ) (xs ys : List A) → All P (xs ++ ys) → All P ys
All-append P [] ys a = a
All-append P (x ∷ xs) ys (_, a) = All-append P xs ys a

-- The first message of the buffer, and what is behind it, in two parts.
front_split :
    (held rest msg more : List ℕ)
    → held ++ rest ≡ msg ++ more
    → length msg ≤ length held
    → (behind : List ℕ) × (held ≡ msg ++ behind) × (behind ++ rest ≡ more)
front_split held rest [] more e l = (held, refl, e)
front_split [] rest (x ∷ xs) more e l = absurd (omega arith)
front_split (h ∷ hs) rest (x ∷ xs) more e l =
    let (behind, e', e'') = front_split hs rest xs more (cc) (omega arith) in
    (behind, ground (arith, e), e'')

-- The header says the same of the buffer and of the message.
pub front_len :
    (held rest msg more : List ℕ)
    → held ++ rest ≡ msg ++ more
    → 2 ≤ length held
    → 2 ≤ length msg
    → len_field held ≡ len_field msg
front_len [] rest msg more e l l' = absurd (omega arith)
front_len (a ∷ []) rest msg more e l l' = absurd (omega arith)
front_len (a ∷ b ∷ held) rest [] more e l l' = absurd (omega arith)
front_len (a ∷ b ∷ held) rest (c ∷ []) more e l l' = absurd (omega arith)
front_len (a ∷ b ∷ held) rest (c ∷ d ∷ msg) more e l l' = ground arith

pub len_field-append : (xs ys : List ℕ) → 2 ≤ length xs → len_field (xs ++ ys) ≡ len_field xs
len_field-append [] ys l = absurd (omega arith)
len_field-append (a ∷ []) ys l = absurd (omega arith)
len_field-append (a ∷ b ∷ xs) ys l = refl

has_message_long :
    (held : List ℕ) → has_message held ≡ true → (4 ≤ length held) × (len_field held ≤ length held)
has_message_long held h = ground arith

pub has_message_front :
    (msg rest : List ℕ)
    → 4 ≤ length msg
    → len_field msg ≡ length msg
    → has_message (msg ++ rest) ≡ true
has_message_front msg rest four e =
    let field : len_field (msg ++ rest) ≡ length msg =
      len_field-append msg rest (omega arith) ∙ e in
    let len : length (msg ++ rest) ≡ length msg + length rest = length-append msg rest in
    rw
      (
        le→leb 4 (length (msg ++ rest)) (omega arith),
        le→leb (len_field (msg ++ rest)) (length (msg ++ rest)) (omega arith),
      )
      refl

remove_one :
    (client : Client)
    → is_complete client ≡ true
    → remove_one_buf client ≡ some (is_complete (remove_front client), remove_front client)
unfolding remove_one_buf
remove_one client h = rw h refl

-- The transfer of one message acts on the state as `step` does, and keeps the length of the message
-- in the buffer and what stands behind it.
pub record Passes {S : Type 0} (fd start : ℕ) (Good : List ℕ → Type 0) (step : S → List ℕ → S)
    (transfer : S → Client → S × Client) : Type 0 where
  pub pass :
      (s : S) (client : Client) (msg rest : List ℕ)
      → Good msg
      → Buffered fd start (msg ++ rest) client
      → ((transfer s client).0 ≡ step s msg)
        × (msg' : List ℕ) × (length msg' ≡ length msg)
        × (len_field msg' ≡ length msg)
        × Buffered fd start (msg' ++ rest) (transfer s client).1

module _ {S : Type 0} (fd start : ℕ) (step : S → List ℕ → S) where
  -- Some of the messages have been passed on, and the buffer holds a part of what is left of the
  -- stream, without a whole message.
  abbrev pub Drained : S → List (List ℕ) → List ℕ → S × Client → Type 0
  Drained s msgs rest (s', client) =
      (now later : List (List ℕ)) × (held : List ℕ) × (msgs ≡ now ++ later)
      × (s' ≡ foldl step s now)
      × (held ++ rest ≡ flatten later)
      × (has_message held ≡ false)
      × Buffered fd start held client

  abbrev pub Loops : S → List (List ℕ) → List ℕ → Option (S × Client) → Type 0
  Loops s msgs rest none = ⊥
  Loops s msgs rest (some r) = Drained s msgs rest r

module _ {S : Type 0} (fd start least most : ℕ) (Good : List ℕ → Type 0)
    (good : (msg : List ℕ) → Good msg → IsMessage least most msg) (step : S → List ℕ → S)
    (transfer : S → Client → S × Client) (four : 4 ≤ least)
    (passes : Passes fd start Good step transfer) where
  -- One round of the loop.
  one_round :
      (fuel : ℕ) (s : S) (client : Client) (msg behind : List ℕ)
      → Good msg
      → Buffered fd start (msg ++ behind) client
      → (client' : Client) × Buffered fd start behind client'
        × (recv_loop transfer (suc fuel) s client ≡ elim (has_message behind) [
          | true ↦ recv_loop transfer fuel (transfer s client).0 client'
          | false ↦ some ((transfer s client).0, client')
        ])
  unfolding recv_loop
  one_round fuel s client msg behind m b =
      let (e, msg', len, field, b') = passes.pass s client msg behind m b in
      let client1 : Client = (transfer s client).1 in
      let whole : is_complete client1 ≡ true =
        is_complete-Buffered fd start client1 (msg' ++ behind) b'
        ∙ has_message_front msg' behind (omega (arith, (good msg m).long)) (field ∙ sym len) in
      let size : head_len client1 ≡ length msg' =
        head_len_eq fd start client1 (msg' ++ behind) b'
          (omega (arith, (good msg m).long, length-append msg' behind))
        ∙ len_field-append msg' behind (omega (arith, (good msg m).long))
        ∙ field
        ∙ sym len in
      let after = remove_front-Buffered fd start client1 msg' behind b' size in
      (
        remove_front client1,
        after,
        rw
            (
              remove_one client1 whole,
              recv_loop,
              is_complete-Buffered fd start (remove_front client1) behind after,
            )
            refl,
      )

  after_one :
      (s : S) (msg : List ℕ) (msgs : List (List ℕ)) (rest : List ℕ) (r : Option (S × Client))
      → Loops fd start step (step s msg) msgs rest r
      → Loops fd start step s (msg ∷ msgs) rest r
  after_one s msg msgs rest none l = l
  after_one s msg msgs rest (some r) (now, later, held, e, acts, left, part, b) =
      (msg ∷ now, later, held, ap (◌∷◌ msg) e, acts, left, part, b)

  -- From a buffer that begins with a whole message, as many rounds as there are bytes are enough.
  pub recv_loop-Loops :
      (fuel : ℕ) (s : S) (client : Client) (msgs : List (List ℕ)) (held rest : List ℕ)
      → All Good msgs
      → Buffered fd start held client
      → held ++ rest ≡ flatten msgs
      → has_message held ≡ true
      → length held ≤ fuel
      → Loops fd start step s msgs rest (recv_loop transfer fuel s client)
  unfolding flatten
  recv_loop-Loops fuel s client [] held rest a b e h l =
      absurd (omega (arith, ap length e, length-append held rest, has_message_long held h))
  recv_loop-Loops zero s client (msg ∷ msgs) held rest a b e h l =
      absurd (omega (arith, has_message_long held h))
  recv_loop-Loops (suc fuel) s client (msg ∷ msgs) held rest (m, a) b e h l =
      let (long, enough) = has_message_long held h in
      let same : len_field held ≡ len_field msg =
        front_len held rest msg (flatten msgs) e (omega arith) (omega (arith, (good msg m).long)) in
      let (behind, e', e'') =
        front_split held rest msg (flatten msgs) e (omega (arith, (good msg m).len_lem)) in
      let (client', b', round) = one_round fuel s client msg behind m (rw e' at b) in
      let acts : (transfer s client).0 ≡ step s msg =
        (passes.pass s client msg behind m (rw e' at b)).0 in
      rw round (elim (Bool-cases (has_message behind)) [
        | inl t ↦
            rw (t, acts)
              (after_one s msg msgs rest (recv_loop transfer fuel (step s msg) client') (
                recv_loop-Loops fuel (step s msg) client' msgs behind rest a b' e'' t
                  (omega (arith, ap length e', length-append msg behind, (good msg m).long))))
        | inr f ↦ rw (f, acts) (msg ∷ [], msgs, behind, refl, refl, e'', f, b')
      ])
