-- ===== src/Conn/Stream.antt =====
-- A stream of messages that arrives in parts of any size.
use txgg.Base.{
  ℕ, suc, ◌+◌, ◌-◌, ◌≤◌, ◌<◌, ◌≡◌, refl, sym, ap, ◌∙◌, min, false, Bool-cases, inl, inr, leb,
  leb→le, Option, none, some, List, [], ◌∷◌, ◌++◌, arith, length, take, drop, length-append,
  length-take, length-drop, take-append-drop, Code, ok, err, ==_ne, if◌then◌else◌,
}
use mathlib.Core.List.{append_assoc, flatten, foldl, foldl-append}
use txgg.Net.{
  Client, buf_size, buf_leave, is_complete, receive, proto_head_size, get_one_buf,
  max_buf_per_client,
}
use txgg.Net.Bytes.{len_field}
use txgg.Net.Frames.{Buffered, has_message, is_complete-Buffered, receive-Buffered}
use txgg.Conn.{recv_messages, recv_loop}
use txgg.Conn.Loop.{IsMessage, All, All-append, Passes, Drained, Loops, recv_loop-Loops, front_len}

-- The events of a connection on which `bytes` are still to come: at each, recv finds at most n + 1
-- bytes, and takes what fits into the buffer; there is no event while nothing has come. `none` is a
-- callback that does not return, or one that closes the connection.
unfoldable pub events {ℓ} :
    {S : Type ℓ}
    → (List ℕ → S → Client → Option (Code × S × Client))
    → List ℕ
    → List ℕ
    → S
    → Client
    → Option (S × Client × List ℕ)
events callback [] bytes s client = some (s, client, bytes)
events callback (n ∷ ns) [] s client = some (s, client, [])
events callback (n ∷ ns) (b ∷ bs) s client =
    let received = take (min (suc n) (buf_leave client)) (b ∷ bs) in
    elim (callback received s client) [
      | none ↦ none
      | some (ok r, s', client') ↦
          events callback ns (drop (min (suc n) (buf_leave client)) (b ∷ bs)) s' client'
      | some (err r, s', client') ↦ none
    ]

pub got :
    (received : List ℕ) (client : Client)
    → 0 < length received
    → get_one_buf received client
      ≡ (if is_complete (receive received client) then ok 0 else ok 1, receive received client)
unfolding get_one_buf
got received client h = rw (==_ne (length received) 0 (omega arith)) refl

module _ {S : Type 0} (fd start : ℕ) (step : S → List ℕ → S) where
  abbrev pub Event : S → List (List ℕ) → List ℕ → Option (Code × S × Client) → Type 0
  Event s msgs rest none = ⊥
  Event s msgs rest (some (err n, s', client')) = ⊥
  Event s msgs rest (some (ok n, s', client')) = Drained fd start step s msgs rest (s', client')

  -- After the events, some of the messages have been passed on, in order, and the buffer holds a part
  -- of the others, without a whole message. Each event has taken something, while there was something
  -- to take.
  abbrev pub Passed : S → List (List ℕ) → List ℕ → List ℕ → Option (S × Client × List ℕ) → Type 0
  Passed s msgs ns bytes none = ⊥
  Passed s msgs ns bytes (some (s', client', rest)) =
      Drained fd start step s msgs rest (s', client') × (length rest ≤ length bytes - length ns)

module _ {S : Type 0} (fd start least most : ℕ) (Good : List ℕ → Type 0)
    (good : (msg : List ℕ) → Good msg → IsMessage least most msg) (step : S → List ℕ → S)
    (transfer : S → Client → S × Client) (four : 4 ≤ least)
    (fits : start + most ≤ max_buf_per_client) (passes : Passes fd start Good step transfer) where
  looped :
      (s : S) (msgs : List (List ℕ)) (rest : List ℕ) (o : Option (S × Client))
      → Loops fd start step s msgs rest o
      → Event fd start step s msgs rest
          (elim o [ none ↦ none | some (s', client') ↦ some (ok 0, s', client') ])
  looped s msgs rest none l = l
  looped s msgs rest (some (s', client')) l = l

  -- One event.
  pub recv_messages-Event :
      (s : S) (client : Client) (msgs : List (List ℕ)) (held received rest : List ℕ)
      → All Good msgs
      → Buffered fd start held client
      → held ++ (received ++ rest) ≡ flatten msgs
      → 0 < length received
      → length received ≤ buf_leave client
      → Event fd start step s msgs rest (recv_messages transfer (get_one_buf received client) s)
  unfolding recv_messages
  recv_messages-Event s client msgs held received rest a b e some_come room =
      let client1 : Client = receive received client in
      let b' = receive-Buffered fd start client held received b room in
      let e' : (held ++ received) ++ rest ≡ flatten msgs = append_assoc held received rest ∙ e in
      let size : buf_size client1 ≡ length (held ++ received) = omega (arith, b'.begins, b'.ends) in
      rw (got received client some_come) (elim (Bool-cases (is_complete client1)) [
        | inl t ↦ rw t (
            looped s msgs rest (recv_loop transfer (buf_size client1) s client1) (
              recv_loop-Loops fd start least most Good good step transfer four passes
                (buf_size client1) s client1 msgs (held ++ received) rest a b' e'
                (sym (is_complete-Buffered fd start client1 (held ++ received) b') ∙ t)
                (omega (arith, size))))
        | inr f ↦ rw f (
          [],
          msgs,
          held ++ received,
          refl,
          refl,
          e',
          sym (is_complete-Buffered fd start client1 (held ++ received) b') ∙ f,
          b',
        )
      ])

  -- What is not yet passed on leaves room in the buffer.
  leaves_room :
      (client : Client) (msgs : List (List ℕ)) (held rest : List ℕ)
      → All Good msgs
      → Buffered fd start held client
      → held ++ rest ≡ flatten msgs
      → has_message held ≡ false
      → 0 < length rest
      → 0 < buf_leave client
  unfolding flatten
  leaves_room client [] held rest a b e part more =
      absurd (omega (arith, ap length e, length-append held rest))
  leaves_room client (msg ∷ msgs) held rest (m, a) b e part more =
      elim (Bool-cases (leb proto_head_size (length held))) [
        | inl t ↦
            let four_held : 4 ≤ length held = leb→le _ _ t in
            let same : len_field held ≡ len_field msg =
              front_len held rest msg (flatten msgs) e (omega arith)
                (omega (arith, (good msg m).long)) in
            ground (arith, part, same, (good msg m).len_lem, (good msg m).short)
        | inr f ↦ ground (arith, f, (good msg m).long, (good msg m).short)
      ]

  -- Later events add to what earlier ones passed on.
  then_Passed :
      (s s' : S) (msgs now later : List (List ℕ)) (ns : List ℕ) (n : ℕ) (bytes rest : List ℕ)
      (r : Option (S × Client × List ℕ))
      → msgs ≡ now ++ later
      → s' ≡ foldl step s now
      → length rest < length bytes
      → Passed fd start step s' later ns rest r
      → Passed fd start step s msgs (n ∷ ns) bytes r
  then_Passed s s' msgs now later ns n bytes rest none e acts less p = p
  then_Passed s s' msgs now later ns n bytes rest (some (s'', client, left)) e acts less
        ((now', later', held, e', acts', left_eq, part, b), count) =
      (
        (
          now ++ now',
          later',
          held,
          e ∙ ap (λ ms. now ++ ms) e' ∙ sym (append_assoc now now' later'),
          acts' ∙ ap (λ t. foldl step t now') acts ∙ sym (foldl-append step s now now'),
          left_eq,
          part,
          b,
        ),
        omega arith,
      )

  module _ (callback : List ℕ → S → Client → Option (Code × S × Client))
      (one_event : (s : S) (client : Client) (msgs : List (List ℕ)) (held received rest : List ℕ)
        → All Good msgs
        → Buffered fd start held client
        → held ++ (received ++ rest) ≡ flatten msgs
        → 0 < length received
        → length received ≤ buf_leave client
        → Event fd start step s msgs rest (callback received s client)) where
    next_Passed :
        (s : S) (msgs : List (List ℕ)) (ns : List ℕ) (n : ℕ) (bytes rest : List ℕ)
        (o : Option (Code × S × Client))
        → All Good msgs
        → length rest < length bytes
        → ((s' : S) (client' : Client) (later : List (List ℕ)) (held : List ℕ)
            → All Good later
            → Buffered fd start held client'
            → held ++ rest ≡ flatten later
            → has_message held ≡ false
            → Passed fd start step s' later ns rest (events callback ns rest s' client'))
        → Event fd start step s msgs rest o
        → Passed fd start step s msgs (n ∷ ns) bytes (elim o [
          | none ↦ none
          | some (ok r, s', client') ↦ events callback ns rest s' client'
          | some (err r, s', client') ↦ none
        ])
    next_Passed s msgs ns n bytes rest none a less go v = v
    next_Passed s msgs ns n bytes rest (some (err r, s', client')) a less go v = v
    next_Passed s msgs ns n bytes rest (some (ok r, s', client')) a less go
          (now, later, held, e, acts, left, part, b) =
        then_Passed s s' msgs now later ns n bytes rest (events callback ns rest s' client') e acts
          less (go s' client' later held (All-append Good now later (rw e at a)) b left part)

    pub events-Passed :
        (ns : List ℕ) (s : S) (client : Client) (msgs : List (List ℕ)) (held bytes : List ℕ)
        → All Good msgs
        → Buffered fd start held client
        → held ++ bytes ≡ flatten msgs
        → has_message held ≡ false
        → Passed fd start step s msgs ns bytes (events callback ns bytes s client)
    unfolding events
    events-Passed [] s client msgs held bytes a b e part =
        (([], msgs, held, refl, refl, e, part, b), omega arith)
    events-Passed (n ∷ ns) s client msgs held [] a b e part =
        (([], msgs, held, refl, refl, e, part, b), omega arith)
    events-Passed (n ∷ ns) s client msgs held (x ∷ xs) a b e part =
        let k : ℕ = min (suc n) (buf_leave client) in
        let room = leaves_room client msgs held (x ∷ xs) a b e part (omega arith) in
        let split = take-append-drop k (x ∷ xs) in
        next_Passed s msgs ns n (x ∷ xs) (drop k (x ∷ xs)) (callback (take k (x ∷ xs)) s client) a
          (omega (arith, length-drop k (x ∷ xs)))
          (λ s' client' later held' a' b' e' part'.
            events-Passed ns s' client' later held' (drop k (x ∷ xs)) a' b' e' part')
          (one_event s client msgs held (take k (x ∷ xs)) (drop k (x ∷ xs)) a b
            (ap (λ ys. held ++ ys) (sym split) ∙ e) (omega (arith, length-take k (x ∷ xs)))
            (omega (arith, length-take k (x ∷ xs))))
