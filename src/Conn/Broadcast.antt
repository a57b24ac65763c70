-- ===== src/Conn/Broadcast.antt =====
-- A message that the game server sends to several clients at once.
use txgg.Base.{
  ℕ, ◌+◌, ◌*◌, ◌/◌, ◌%◌, ◌≤◌, ◌<◌, ◌≡◌, refl, sym, ap, ◌∙◌, Bool, true, List, [], ◌∷◌, ◌++◌, arith,
  length, Code, ok, err, if◌then◌else◌, ==_iff, u16_mod, ◌==◌,
}
use mathlib.Core.List.{foldl}
use txgg.Net.{Client, window, read_net, read_host}
use txgg.Net.Bytes.{len_field, window-split, len_field-window}
use txgg.Net.Frames.{Buffered}
use txgg.Conn.{Conn, send, broadcast_loop, broadcast_to_client, transfer_to_client}
use txgg.Conn.Loop.{IsMessage, All}

-- The fds as they stand behind the message, in the order of the host.
abbrev pub fd_bytes : List ℕ → List ℕ
fd_bytes [] = []
fd_bytes (fd ∷ fds) = fd % 256 ∷ fd / 256 ∷ fd_bytes fds

-- The message to the connection server: the id 1000 in the order of the host, the number of the fds,
-- a byte that is not used, the message and the fds.
abbrev pub broadcast_msg : ℕ → List ℕ → List ℕ → List ℕ
broadcast_msg unused msg fds =
    let len = length msg + length (fd_bytes fds) + 6 in
    len / 256 ∷ len % 256 ∷ 232 ∷ 3 ∷ length fds ∷ unused ∷ (msg ++ fd_bytes fds)

length-fd_bytes : (fds : List ℕ) → length (fd_bytes fds) ≡ 2 * length fds
length-fd_bytes [] = refl
length-fd_bytes (fd ∷ fds) = omega (arith, length-fd_bytes fds)

module _ (delivered : ℕ → List ℕ → Bool) where
  -- Zero if every client takes the message, else -1.
  abbrev pub all_taken : List ℕ → List ℕ → Code → Code
  all_taken msg [] ret = ret
  all_taken msg (fd ∷ fds) ret = all_taken msg fds (if delivered fd msg then ret else err 1)

  loop_sends :
      (buf : ℕ → ℕ) (msg : List ℕ) (s : Conn) (i : ℕ) (fds : List ℕ) (ret : Code)
      → All (λ fd. fd < 65536) fds
      → window buf i (length (fd_bytes fds)) ≡ fd_bytes fds
      → broadcast_loop delivered buf msg s i (length fds) ret
        ≡ (all_taken msg fds ret, foldl (λ t fd. send t fd msg) s fds)
  unfolding broadcast_loop window
  loop_sends buf msg s i [] ret small holds = refl
  loop_sends buf msg s i (fd ∷ fds) ret (lt, small) holds =
      let first : buf i ≡ fd % 256 = cc in
      let second : buf (i + 1) ≡ fd / 256 = cc in
      let to : read_host buf i ≡ fd = omega arith in
      let at : i + 1 + 1 ≡ i + 2 = omega arith in
      let rest : window buf (i + 1 + 1) (length (fd_bytes fds)) ≡ fd_bytes fds = cc in
      rw (to, broadcast_loop)
        (loop_sends buf msg (send s fd msg) (i + 2) fds (if delivered fd msg then ret else err 1)
          small (rw (← at) rest))

  broadcast_sends :
      (s : Conn) (client : Client) (unused : ℕ) (msg fds : List ℕ)
      → IsMessage 4 65535 msg
      → All (λ fd. fd < 65536) fds
      → length msg + length (fd_bytes fds) + 6 ≤ 65535
      → window client.buf 0 (length (broadcast_msg unused msg fds)) ≡ broadcast_msg unused msg fds
      → broadcast_to_client delivered s client
        ≡ (all_taken msg fds (ok 0), foldl (λ t fd. send t fd msg) s fds)
  unfolding broadcast_to_client window
  broadcast_sends s client unused msg fds m small short front =
      let buf : ℕ → ℕ = client.buf in
      let tail : window buf 6 (length (msg ++ fd_bytes fds)) ≡ msg ++ fd_bytes fds = cc (front) in
      let (body, ends) = window-split buf 6 msg (fd_bytes fds) tail in
      let many : buf 4 ≡ length fds = cc (front) in
      let total : read_net buf 0 ≡ length msg + length (fd_bytes fds) + 6 = ground (arith, front) in
      let real : read_net buf 6 ≡ length msg =
        sym (len_field-window buf 6 (length msg) (omega (arith, m.long)))
        ∙ ap len_field body
        ∙ m.len_lem in
      let offset : (length msg + 6) % u16_mod ≡ 6 + length msg = omega arith in
      let agrees : (6 + length msg + 2 * length fds == length msg + length (fd_bytes fds) + 6)
          ≡ true =
        (==_iff _ _).1 (omega (arith, length-fd_bytes fds)) in
      rw
        (
          real,
          many,
          total,
          offset,
          agrees,
          body,
          loop_sends buf msg s (6 + length msg) fds (ok 0) small ends,
        )
        refl

  -- A broadcast of the game server, as broadcast_to_scene sends it, to at most 255 clients: each of
  -- them is sent the message, in the order of the list, and nothing else is sent; the result is 0 if
  -- each takes it whole, else -1.
  pub transfer_to_client_broadcast :
      (s : Conn) (client : Client) (server_fd unused : ℕ) (msg fds rest : List ℕ)
      → IsMessage 4 65535 msg
      → All (λ fd. fd < 65536) fds
      → length fds < 256
      → length msg + length (fd_bytes fds) + 6 ≤ 65535
      → Buffered server_fd 0 (broadcast_msg unused msg fds ++ rest) client
      → transfer_to_client delivered s client
        ≡ (all_taken msg fds (ok 0), foldl (λ t fd. send t fd msg) s fds, client)
  unfolding transfer_to_client window
  transfer_to_client_broadcast s client server_fd unused msg fds rest m small few short b =
      let buf : ℕ → ℕ = client.buf in
      let front = (window-split buf 0 (broadcast_msg unused msg fds) rest b.holds).0 in
      let host : read_host buf 2 ≡ 1000 = ground (arith, front) in
      rw (host, broadcast_sends s client unused msg fds m small short front) refl
