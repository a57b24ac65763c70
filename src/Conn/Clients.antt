-- ===== src/Conn/Clients.antt =====
-- The two streams through the connection server: from a client to the game server and back.
use txgg.Base.{ℕ, ◌≤◌, ◌≡◌, sym, ap, ◌∙◌, true, Option, none, some, List, [], ◌∷◌, arith, length}
use mathlib.Core.List.{append-nil, flatten, foldl}
use txgg.Net.{Client}
use txgg.Net.Frames.{Buffered, has_message}
use txgg.Conn.{Conn}
use txgg.Conn.Loop.{IsMessage, All, All-append, has_message_front}
use txgg.Conn.Stream.{Passed}

-- All has been passed on once all has come.
module _ {S : Type 0} (fd start least most : ℕ) (Good : List ℕ → Type 0)
    (good : (msg : List ℕ) → Good msg → IsMessage least most msg) (step : S → List ℕ → S)
    (four : 4 ≤ least) where
  pub Passed-whole :
      (s : S) (msgs : List (List ℕ)) (ns bytes : List ℕ) (o : Option (S × Client × List ℕ))
      → All Good msgs
      → length bytes ≤ length ns
      → Passed fd start step s msgs ns bytes o
      → (client : Client) × Buffered fd start [] client × (o ≡ some (foldl step s msgs, client, []))
  unfolding flatten
  Passed-whole s msgs ns bytes none a enough p = absurd p
  Passed-whole s msgs ns bytes (some (s', client, x ∷ rest)) a enough (p, count) =
      absurd (omega arith)
  Passed-whole s msgs ns bytes (some (s', client, [])) a enough
        ((now, [], held, e, acts, left, part, b), count) =
      let none_held : held ≡ [] = sym (append-nil held) ∙ left in
      let all_now : now ≡ msgs = sym (e ∙ append-nil now) in
      (
        client,
        rw none_held at b,
        ap (λ t. some (t, client, [])) (acts ∙ ap (λ ms. foldl step s ms) all_now),
      )
  Passed-whole s msgs ns bytes (some (s', client, [])) a enough
        ((now, m ∷ later, held, e, acts, left, part, b), count) =
      let m_lem : IsMessage least most m = good m (All-append Good now (m ∷ later) (rw e at a)).0 in
      let whole : has_message held ≡ true =
        ap has_message (sym (append-nil held) ∙ left)
        ∙ has_message_front m (flatten later) (omega (arith, m_lem.long)) m_lem.len_lem in
      cc
