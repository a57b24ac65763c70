-- ===== src/Conn/Forward.antt =====
-- A client's message on its way to the game server, and the game server's message on its way back.
use txgg.Base.{
  ℕ, suc, ◌+◌, ◌*◌, ◌/◌, ◌%◌, ◌≤◌, ◌<◌, ◌≡◌, refl, ap, List, [], ◌∷◌, ◌++◌, arith, length,
}
use txgg.Net.{Client, window, read_net, write_net}
use txgg.Net.Bytes.{len_field, window_eq, window-split}
use txgg.Net.Frames.{Buffered}
use txgg.Conn.{Conn, to_gameserver, head_conn_buf, transfer_to_gameserver}
use txgg.Conn.Loop.{IsMessage, Passes}

-- The message to the game server that stands for a message of the client `fd`: two bytes more, the fd,
-- before the data.
abbrev pub forwarded : ℕ → List ℕ → List ℕ
forwarded fd (a ∷ b ∷ c ∷ d ∷ xs) =
    let len = length xs + 6 in len / 256 ∷ len % 256 ∷ c ∷ d ∷ fd % 256 ∷ fd / 256 % 256 ∷ xs
forwarded fd msg = []

module _ (buf : ℕ → ℕ) (fd a b c d : ℕ) (xs : List ℕ)
    (holds : window buf 2 (suc (suc (suc (suc (length xs))))) ≡ a ∷ b ∷ c ∷ d ∷ xs)
    (says : a * 256 + b ≡ suc (suc (suc (suc (length xs)))))
    (short : suc (suc (suc (suc (length xs)))) ≤ 65533) where
  head_says : read_net buf 2 ≡ suc (suc (suc (suc (length xs))))
  unfolding window
  head_says = ground arith

  rest_holds : window buf 6 (length xs) ≡ xs
  unfolding window
  rest_holds = cc

  conn_len : read_net (head_conn_buf buf 2 fd) 0 ≡ suc (suc (suc (suc (suc (suc (length xs))))))
  unfolding head_conn_buf
  conn_len = ground (arith, head_says)

  beyond : (j : ℕ) → head_conn_buf buf 2 fd (6 + j) ≡ buf (6 + j)
  unfolding head_conn_buf
  beyond j = ground arith

  high : head_conn_buf buf 2 fd 0 ≡ (length xs + 6) / 256
  unfolding head_conn_buf
  high = ground (arith, head_says)

  low : head_conn_buf buf 2 fd 1 ≡ (length xs + 6) % 256
  unfolding head_conn_buf
  low = ground (arith, head_says)

  id_high : head_conn_buf buf 2 fd 2 ≡ c
  unfolding head_conn_buf window
  id_high = cc

  id_low : head_conn_buf buf 2 fd 3 ≡ d
  unfolding head_conn_buf window
  id_low = cc

  fd_low : head_conn_buf buf 2 fd 4 ≡ fd % 256
  unfolding head_conn_buf
  fd_low = refl

  fd_high : head_conn_buf buf 2 fd 5 ≡ fd / 256 % 256
  unfolding head_conn_buf
  fd_high = refl

  packet :
      window (head_conn_buf buf 2 fd) 0 (read_net (head_conn_buf buf 2 fd) 0)
      ≡ forwarded fd (a ∷ b ∷ c ∷ d ∷ xs)
  unfolding window
  packet =
      rw
        (
          conn_len,
          high,
          low,
          id_high,
          id_low,
          fd_low,
          fd_high,
          window_eq (head_conn_buf buf 2 fd) buf 6 6 (length xs) (λ j l. beyond j),
          rest_holds,
        )
        refl

-- The buffer once the message has been sent, with its length written back.
restored :
    (buf : ℕ → ℕ) (fd a b c d n : ℕ) (zs : List ℕ)
    → window buf 2 (suc (suc (suc (suc (length zs))))) ≡ a ∷ b ∷ c ∷ d ∷ zs
    → window (write_net (head_conn_buf buf 2 fd) 2 n) 2 (suc (suc (suc (suc (length zs)))))
      ≡ n / 256 % 256 ∷ n % 256 ∷ fd % 256 ∷ fd / 256 % 256 ∷ zs
unfolding window head_conn_buf
restored buf fd a b c d n zs holds =
    let rest : window buf 6 (length zs) ≡ zs = cc in
    let same : (j : ℕ)
        → j < length zs
        → write_net (head_conn_buf buf 2 fd) 2 n (6 + j) ≡ buf (6 + j) =
      λ j l. ground arith in
    rw (window_eq (write_net (head_conn_buf buf 2 fd) 2 n) buf 6 6 (length zs) same, rest) refl

module _ (fd : ℕ) where
  abbrev pub gameserver_step : Conn → List ℕ → Conn
  gameserver_step s msg = to_gameserver s (forwarded fd msg)

  -- transfer_to_gameserver on a whole message of the client hands over that message with the fd.
  pub transfer-forwarded :
      (s : Conn) (client : Client) (msg rest : List ℕ)
      → IsMessage 4 65533 msg
      → Buffered fd 2 (msg ++ rest) client
      → ((transfer_to_gameserver s client).0 ≡ gameserver_step s msg)
        × (msg' : List ℕ) × (length msg' ≡ length msg)
        × (len_field msg' ≡ length msg)
        × Buffered fd 2 (msg' ++ rest) (transfer_to_gameserver s client).1
  unfolding transfer_to_gameserver
  transfer-forwarded s client [] rest m b = absurd (omega (arith, m.long))
  transfer-forwarded s client (a ∷ []) rest m b = absurd (omega (arith, m.long))
  transfer-forwarded s client (a ∷ b' ∷ []) rest m b = absurd (omega (arith, m.long))
  transfer-forwarded s client (a ∷ b' ∷ c ∷ []) rest m b = absurd (omega (arith, m.long))
  transfer-forwarded s client (a ∷ b' ∷ c ∷ d ∷ xs) rest m b =
      let len : ℕ = read_net client.buf 2 in
      let front = (window-split client.buf 2 (a ∷ b' ∷ c ∷ d ∷ xs) rest b.holds).0 in
      let says : len ≡ length (a ∷ b' ∷ c ∷ d ∷ xs) =
        head_says client.buf fd a b' c d xs front m.len_lem m.short in
      (
        rw (b.begins, b.fd_lem)
            (ap (to_gameserver s) (packet client.buf fd a b' c d xs front m.len_lem m.short)),
        len / 256 % 256 ∷ len % 256 ∷ fd % 256 ∷ fd / 256 % 256 ∷ xs,
        refl,
        omega (arith, m.short),
        record {
          fd_lem = b.fd_lem;
          begins = b.begins;
          ends = b.ends;
          fits = b.fits;
          holds =
              rw (b.begins, b.fd_lem) (restored client.buf fd a b' c d len (xs ++ rest) b.holds);
        },
      )

  pub transfer_to_gameserver-Passes :
      Passes fd 2 (IsMessage 4 65533) gameserver_step transfer_to_gameserver
  transfer_to_gameserver-Passes = record { pass = transfer-forwarded }
