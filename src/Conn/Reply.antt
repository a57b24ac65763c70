-- ===== src/Conn/Reply.antt =====
-- A message of the game server on its way to one client.
use txgg.Base.{
  ℕ, suc, ◌+◌, ◌*◌, ◌/◌, ◌%◌, ◌≤◌, ◌<◌, ◌≡◌, ◌≢◌, refl, Bool, Bool-cases, inl, inr, List, [], ◌∷◌,
  ◌++◌, arith, length, Code, ok, u16_mod, ==_ne,
}
use txgg.Net.{Client, window, read_net, write_net, read_host}
use txgg.Net.Bytes.{len_field, window_eq, window-split}
use txgg.Net.Frames.{Buffered}
use txgg.Conn.{
  Conn, send, head_buf, unicast, transfer_to_client, server_proto_broadcast,
  server_proto_kick_role_notify,
}
use txgg.Conn.Loop.{IsMessage}

-- The id of a message is neither that of a broadcast, which is compared as it stands, nor that of a
-- kick.
abbrev pub IsPlain : List ℕ → Type 0
IsPlain (a ∷ b ∷ c ∷ d ∷ xs) =
    (c + d * 256 ≢ server_proto_broadcast) × (c * 256 + d ≢ server_proto_kick_role_notify)
IsPlain msg = ⊥

-- The client that a message is for, and what it is to get: two bytes less, without the fd.
abbrev pub receiver : List ℕ → ℕ
receiver (a ∷ b ∷ c ∷ d ∷ e ∷ f ∷ xs) = e + f * 256
receiver msg = 0

abbrev pub stripped : List ℕ → List ℕ
stripped (a ∷ b ∷ c ∷ d ∷ e ∷ f ∷ xs) =
    let len = length xs + 4 in len / 256 ∷ len % 256 ∷ c ∷ d ∷ xs
stripped msg = []

module _ (buf : ℕ → ℕ) (a b c d e f : ℕ) (xs : List ℕ)
    (holds : window buf 0 (suc (suc (suc (suc (suc (suc (length xs)))))))
      ≡ a ∷ b ∷ c ∷ d ∷ e ∷ f ∷ xs)
    (says : a * 256 + b ≡ suc (suc (suc (suc (suc (suc (length xs))))))) where
  total_says : read_net buf 0 ≡ suc (suc (suc (suc (suc (suc (length xs))))))
  unfolding window
  total_says = ground arith

  id_high : buf 2 ≡ c
  unfolding window
  id_high = cc

  id_low : buf 3 ≡ d
  unfolding window
  id_low = cc

  fd_says : read_host buf 4 ≡ e + f * 256
  unfolding window
  fd_says = ground arith

  rest_holds : window buf 6 (length xs) ≡ xs
  unfolding window
  rest_holds = cc

  module _ (short : suc (suc (suc (suc (suc (suc (length xs)))))) < u16_mod) where
    len_says : read_net (head_buf buf) 2 ≡ suc (suc (suc (suc (length xs))))
    unfolding head_buf
    len_says = ground (arith, total_says)

    high : head_buf buf 2 ≡ (length xs + 4) / 256
    unfolding head_buf
    high = ground (arith, total_says)

    low : head_buf buf 3 ≡ (length xs + 4) % 256
    unfolding head_buf
    low = ground (arith, total_says)

    new_id_high : head_buf buf 4 ≡ c
    unfolding head_buf
    new_id_high = id_high

    new_id_low : head_buf buf 5 ≡ d
    unfolding head_buf
    new_id_low = id_low

    beyond : (j : ℕ) → head_buf buf (6 + j) ≡ buf (6 + j)
    unfolding head_buf
    beyond j = ground arith

    packet :
        window (head_buf buf) 2 (read_net (head_buf buf) 2) ≡ stripped (a ∷ b ∷ c ∷ d ∷ e ∷ f ∷ xs)
    unfolding window
    packet =
        rw
          (
            len_says,
            high,
            low,
            new_id_high,
            new_id_low,
            window_eq (head_buf buf) buf 6 6 (length xs) (λ j l. beyond j),
            rest_holds,
          )
          refl

-- The buffer after the message, delivered or not: what is behind the message is untouched.
module _ (buf : ℕ → ℕ) (a b c d e f : ℕ) (zs : List ℕ)
    (holds : window buf 0 (suc (suc (suc (suc (suc (suc (length zs)))))))
      ≡ a ∷ b ∷ c ∷ d ∷ e ∷ f ∷ zs) where
  undelivered :
      window (head_buf buf) 0 (suc (suc (suc (suc (suc (suc (length zs)))))))
      ≡ a ∷ b ∷ head_buf buf 2 ∷ head_buf buf 3 ∷ c ∷ d ∷ zs
  unfolding window head_buf
  undelivered =
      let same : (j : ℕ) → j < length zs → head_buf buf (6 + j) ≡ buf (6 + j) =
        λ j l. ground arith in
      let rest : window buf 6 (length zs) ≡ zs = cc in
      let first : buf 0 ≡ a = cc in
      let second : buf 1 ≡ b = cc in
      let third : buf 2 ≡ c = cc in
      let fourth : buf 3 ≡ d = cc in
      rw (window_eq (head_buf buf) buf 6 6 (length zs) same, rest, first, second, third, fourth)
        refl

  delivered_buf :
      (n m : ℕ)
      → window
          (write_net (write_net (head_buf buf) 0 n) 2 m)
          0
          (suc (suc (suc (suc (suc (suc (length zs)))))))
        ≡ n / 256 % 256 ∷ n % 256 ∷ m / 256 % 256 ∷ m % 256 ∷ c ∷ d ∷ zs
  unfolding window head_buf
  delivered_buf n m =
      let same : (j : ℕ)
          → j < length zs
          → write_net (write_net (head_buf buf) 0 n) 2 m (6 + j) ≡ buf (6 + j) =
        λ j l. ground arith in
      let rest : window buf 6 (length zs) ≡ zs = cc in
      let third : buf 2 ≡ c = cc in
      let fourth : buf 3 ≡ d = cc in
      rw
        (
          window_eq (write_net (write_net (head_buf buf) 0 n) 2 m) buf 6 6 (length zs) same,
          rest,
          third,
          fourth,
        )
        refl

module _ (delivered : ℕ → List ℕ → Bool) (fd : ℕ) where
  -- What transfer_to_client leaves of a message, with the bytes behind it.
  abbrev pub Replies : Conn → Client → List ℕ → List ℕ → Code × Conn × Client → Type 0
  Replies s client msg rest (code, s', client') =
      (code ≡ ok 0)
      × (s' ≡ send s (receiver msg) (stripped msg))
      × (msg' : List ℕ) × (length msg' ≡ length msg)
      × (len_field msg' ≡ length msg)
      × Buffered fd 0 (msg' ++ rest) client'

  unicast-Replies :
      (s : Conn) (client : Client) (msg rest : List ℕ)
      → IsMessage 6 65535 msg
      → Buffered fd 0 (msg ++ rest) client
      → Replies s client msg rest (unicast delivered s client)
  unfolding unicast
  unicast-Replies s client (a ∷ b ∷ c ∷ d ∷ e ∷ f ∷ xs) rest m h =
      let front = (window-split client.buf 0 (a ∷ b ∷ c ∷ d ∷ e ∷ f ∷ xs) rest h.holds).0 in
      let buf : ℕ → ℕ = client.buf in
      let len : ℕ = read_net buf 0 in
      let says : len ≡ length (a ∷ b ∷ c ∷ d ∷ e ∷ f ∷ xs) =
        total_says buf a b c d e f xs front m.len_lem in
      let to = fd_says buf a b c d e f xs front m.len_lem in
      let out = packet buf a b c d e f xs front m.len_lem (omega (arith, m.short)) in
      rw (==_ne len 0 (omega arith), to, out)
        (elim (Bool-cases (delivered (e + f * 256) (stripped (a ∷ b ∷ c ∷ d ∷ e ∷ f ∷ xs)))) [
          | inl t ↦ rw t (
            refl,
            refl,
            len / 256 % 256
                ∷ len % 256
                ∷ read_net buf 2 / 256 % 256
                ∷ read_net buf 2 % 256
                ∷ c
                ∷ d
                ∷ xs,
            refl,
            omega (arith, m.short),
            record {
              fd_lem = h.fd_lem;
              begins = h.begins;
              ends = h.ends;
              fits = h.fits;
              holds = delivered_buf buf a b c d e f (xs ++ rest) h.holds len (read_net buf 2);
            },
          )
          | inr t ↦ rw t (
            refl,
            refl,
            a ∷ b ∷ head_buf buf 2 ∷ head_buf buf 3 ∷ c ∷ d ∷ xs,
            refl,
            m.len_lem,
            record {
              fd_lem = h.fd_lem;
              begins = h.begins;
              ends = h.ends;
              fits = h.fits;
              holds = undelivered buf a b c d e f (xs ++ rest) h.holds;
            },
          )
        ])
  unicast-Replies s client [] rest m h = absurd (omega (arith, m.long))
  unicast-Replies s client (a ∷ []) rest m h = absurd (omega (arith, m.long))
  unicast-Replies s client (a ∷ b ∷ []) rest m h = absurd (omega (arith, m.long))
  unicast-Replies s client (a ∷ b ∷ c ∷ []) rest m h = absurd (omega (arith, m.long))
  unicast-Replies s client (a ∷ b ∷ c ∷ d ∷ []) rest m h = absurd (omega (arith, m.long))
  unicast-Replies s client (a ∷ b ∷ c ∷ d ∷ e ∷ []) rest m h = absurd (omega (arith, m.long))

  plain_ids :
      (buf : ℕ → ℕ) (msg rest : List ℕ)
      → 6 ≤ length msg
      → window buf 0 (length (msg ++ rest)) ≡ msg ++ rest
      → IsPlain msg
      → (read_host buf 2 ≢ server_proto_broadcast)
        × (read_net buf 2 ≢ server_proto_kick_role_notify)
  unfolding window
  plain_ids buf (a ∷ b ∷ c ∷ d ∷ xs) rest long holds (p, q) =
      let c_lem : buf 2 ≡ c = cc in let d_lem : buf 3 ≡ d = cc in rw (c_lem, d_lem) (p, q)
  plain_ids buf [] rest long holds p = absurd p
  plain_ids buf (a ∷ []) rest long holds p = absurd p
  plain_ids buf (a ∷ b ∷ []) rest long holds p = absurd p
  plain_ids buf (a ∷ b ∷ c ∷ []) rest long holds p = absurd p

  -- transfer_to_client on a whole message of the game server that is no broadcast and no kick: its
  -- client gets it without the fd and two bytes shorter, and its length and what is behind it stay
  -- readable in the buffer, whether the client takes it or not.
  pub transfer_to_client-Replies :
      (s : Conn) (client : Client) (msg rest : List ℕ)
      → IsMessage 6 65535 msg
      → IsPlain msg
      → Buffered fd 0 (msg ++ rest) client
      → Replies s client msg rest (transfer_to_client delivered s client)
  unfolding transfer_to_client
  transfer_to_client-Replies s client msg rest m p h =
      let (host, net) = plain_ids client.buf msg rest m.long h.holds p in
      rw (==_ne _ _ host, ==_ne _ _ net) (unicast-Replies s client msg rest m h)
