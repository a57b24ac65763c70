-- ===== src/Conn/RoundTrip.antt =====
-- To the game server and back.
use txgg.Base.{
  ℕ, ◌+◌, ◌/◌, ◌%◌, ◌≤◌, ◌<◌, ◌≡◌, refl, ◌∙◌, Bool, some, List, [], ◌∷◌, ◌++◌, arith, length, ok,
}
use txgg.Net.{Client}
use txgg.Net.Frames.{Buffered}
use txgg.Conn.{Conn, send, to_gameserver, transfer_to_gameserver, transfer_to_client}
use txgg.Conn.Loop.{IsMessage, All}
use txgg.Conn.Forward.{forwarded, transfer-forwarded}
use txgg.Conn.Reply.{IsPlain, receiver, stripped, transfer_to_client-Replies}

forwarded-IsMessage :
    (fd : ℕ) (msg : List ℕ) → IsMessage 4 65533 msg → IsMessage 6 65535 (forwarded fd msg)
forwarded-IsMessage fd (a ∷ b ∷ c ∷ d ∷ xs) m = record {
  long = omega arith;
  short = omega (arith, m.short);
  len_lem = omega arith;
}
forwarded-IsMessage fd [] m = absurd (omega (arith, m.long))
forwarded-IsMessage fd (a ∷ []) m = absurd (omega (arith, m.long))
forwarded-IsMessage fd (a ∷ b ∷ []) m = absurd (omega (arith, m.long))
forwarded-IsMessage fd (a ∷ b ∷ c ∷ []) m = absurd (omega (arith, m.long))

forwarded-IsPlain : (fd : ℕ) (msg : List ℕ) → IsPlain msg → IsPlain (forwarded fd msg)
forwarded-IsPlain fd (a ∷ b ∷ c ∷ d ∷ xs) p = p
forwarded-IsPlain fd [] p = p
forwarded-IsPlain fd (a ∷ []) p = p
forwarded-IsPlain fd (a ∷ b ∷ []) p = p
forwarded-IsPlain fd (a ∷ b ∷ c ∷ []) p = p

receiver-forwarded :
    (fd : ℕ) (msg : List ℕ) → fd < 65536 → 4 ≤ length msg → receiver (forwarded fd msg) ≡ fd
receiver-forwarded fd (a ∷ b ∷ c ∷ d ∷ xs) small long = omega arith
receiver-forwarded fd [] small long = absurd (omega arith)
receiver-forwarded fd (a ∷ []) small long = absurd (omega arith)
receiver-forwarded fd (a ∷ b ∷ []) small long = absurd (omega arith)
receiver-forwarded fd (a ∷ b ∷ c ∷ []) small long = absurd (omega arith)

stripped-forwarded :
    (fd : ℕ) (msg : List ℕ)
    → IsMessage 4 65533 msg
    → All (λ x. x < 256) msg
    → stripped (forwarded fd msg) ≡ msg
stripped-forwarded fd (a ∷ b ∷ c ∷ d ∷ xs) m (a_byte, (b_byte, more)) =
    let high : (length xs + 4) / 256 ≡ a = omega (arith, m.len_lem) in
    let low : (length xs + 4) % 256 ≡ b = omega (arith, m.len_lem) in rw (high, low) refl
stripped-forwarded fd [] m bytes = absurd (omega (arith, m.long))
stripped-forwarded fd (a ∷ []) m bytes = absurd (omega (arith, m.long))
stripped-forwarded fd (a ∷ b ∷ []) m bytes = absurd (omega (arith, m.long))
stripped-forwarded fd (a ∷ b ∷ c ∷ []) m bytes = absurd (omega (arith, m.long))

to_gameserver_connected :
    (s : Conn) (server : Client) (msg : List ℕ)
    → s.server ≡ some server
    → to_gameserver s msg ≡ send s server.fd msg
unfolding to_gameserver
to_gameserver_connected s server msg connected = ground arith

module _ (delivered : ℕ → List ℕ → Bool) (fd server_fd : ℕ) where
  -- A message of the client `fd` goes to the game server as one with the fd in its header; and where
  -- the game server sends that very message back, the client `fd` is sent the message that it sent,
  -- and nobody else is sent anything. The message is neither of the two that the game server sends to
  -- the connection server itself.
  pub transfer_to_client-transfer_to_gameserver :
      (s s' : Conn) (client server server' : Client) (msg rest rest' : List ℕ)
      → fd < 65536
      → IsMessage 4 65533 msg
      → All (λ x. x < 256) msg
      → IsPlain msg
      → s.server ≡ some server
      → Buffered fd 2 (msg ++ rest) client
      → Buffered server_fd 0 (forwarded fd msg ++ rest') server'
      → ((transfer_to_gameserver s client).0 ≡ send s server.fd (forwarded fd msg))
        × ((transfer_to_client delivered s' server').0 ≡ ok 0)
        × ((transfer_to_client delivered s' server').1 ≡ send s' fd msg)
  transfer_to_client-transfer_to_gameserver s s' client server server' msg rest rest' small m bytes
        p connected b b' =
      let out : (transfer_to_gameserver s client).0 ≡ to_gameserver s (forwarded fd msg) =
        (transfer-forwarded fd s client msg rest m b).0 in
      let (done, sent, _, _, _, _) =
        transfer_to_client-Replies delivered server_fd s' server' (forwarded fd msg) rest'
          (forwarded-IsMessage fd msg m) (forwarded-IsPlain fd msg p) b' in
      (
        out ∙ to_gameserver_connected s server (forwarded fd msg) connected,
        done,
        rw (sent, receiver-forwarded fd msg small m.long, stripped-forwarded fd msg m bytes) refl,
      )
