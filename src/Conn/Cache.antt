-- ===== src/Conn/Cache.antt =====
-- The messages that come while no game server is connected.
use txgg.Base.{
  ℕ, zero, suc, ◌+◌, ◌≤◌, ◌≡◌, refl, sym, ap, ◌∙◌, Bool, true, none, some, List, [], ◌∷◌, ◌++◌, map,
  arith, length, length-append, take-append, drop-append, ok,
}
use mathlib.Core.List.{append_assoc, append-nil, flatten, foldl}
use txgg.Net.{Client}
use txgg.Net.Bytes.{len_field}
use txgg.Conn.{
  Conn, send, cache_to_gamesrv_buf, to_gameserver, send_cached, send_all_cached_gamesrv_buf,
  server_connects, max_cached_buf_size,
}
use txgg.Conn.Loop.{IsMessage, All, len_field-append}

to_gameserver_cached :
    (s : Conn) (msg : List ℕ)
    → s.server ≡ none
    → length s.cached + length msg ≤ max_cached_buf_size
    → to_gameserver s msg ≡ record s { cached = s.cached ++ msg }
unfolding to_gameserver cache_to_gamesrv_buf
to_gameserver_cached s msg none_there room = ground arith

-- What is cached is the messages, one behind the other.
all_cached :
    (msgs : List (List ℕ)) (s : Conn)
    → s.server ≡ none
    → length s.cached + length (flatten msgs) ≤ max_cached_buf_size
    → foldl to_gameserver s msgs ≡ record s { cached = s.cached ++ flatten msgs }
unfolding flatten
all_cached [] s none_there room = ap (λ c. record s { cached = c }) (sym (append-nil s.cached))
all_cached (m ∷ ms) s none_there room =
    let first = to_gameserver_cached s m none_there (omega (arith, length-append m (flatten ms))) in
    rw first (
      all_cached ms (record s { cached = s.cached ++ m }) none_there
        (omega (arith, length-append m (flatten ms), length-append s.cached m))
      ∙ ap (λ c. record s { cached = c }) (append_assoc s.cached m (flatten ms)))

module _ (delivered : ℕ → List ℕ → Bool) (fd : ℕ) where
  sends_each :
      (fuel : ℕ) (s : Conn) (msgs : List (List ℕ))
      → All (IsMessage 4 65535) msgs
      → All (λ m. delivered fd m ≡ true) msgs
      → length (flatten msgs) ≤ fuel
      → send_cached delivered fuel s fd (flatten msgs)
        ≡ some (ok 0, record s { sent = s.sent ++ map (λ m. (fd, m)) msgs })
  unfolding send_cached flatten
  sends_each zero s [] a d l =
      ap (λ t. some (ok 0, record s { sent = t })) (sym (append-nil s.sent))
  sends_each (suc fuel) s [] a d l =
      ap (λ t. some (ok 0, record s { sent = t })) (sym (append-nil s.sent))
  sends_each fuel s ([] ∷ ms) a d l = absurd (omega (arith, a.0.long))
  sends_each zero s ((b ∷ bs) ∷ ms) a d l = absurd (omega arith)
  sends_each (suc fuel) s ((b ∷ bs) ∷ ms) (m, a) (took, d) l =
      let says : len_field (b ∷ (bs ++ flatten ms)) ≡ length (b ∷ bs) =
        len_field-append (b ∷ bs) (flatten ms) (omega (arith, m.long)) ∙ m.len_lem in
      let first = take-append (b ∷ bs) (flatten ms) in
      let behind = drop-append (b ∷ bs) (flatten ms) in
      let ih =
        sends_each fuel (send s fd (b ∷ bs)) ms a d
          (omega (arith, length-append bs (flatten ms))) in
      rw (says, first, behind, took, ih)
        (ap (λ t. some (ok 0, record s { sent = t }))
          (append_assoc s.sent ((fd, b ∷ bs) ∷ []) (map (λ p. (fd, p)) ms)))

  sends_bytes :
      (s : Conn) (bytes : List ℕ) (msgs : List (List ℕ))
      → bytes ≡ flatten msgs
      → All (IsMessage 4 65535) msgs
      → All (λ m. delivered fd m ≡ true) msgs
      → send_cached delivered (length bytes) s fd bytes
        ≡ some (ok 0, record s { sent = s.sent ++ map (λ m. (fd, m)) msgs })
  sends_bytes s bytes msgs e a took =
      rw e (sends_each (length (flatten msgs)) s msgs a took (omega arith))

  sends_cached :
      (s : Conn) (msgs : List (List ℕ))
      → s.cached ≡ flatten msgs
      → All (IsMessage 4 65535) msgs
      → All (λ m. delivered fd m ≡ true) msgs
      → send_all_cached_gamesrv_buf delivered s fd
        ≡ some (ok 0, record s { cached = []; sent = s.sent ++ map (λ m. (fd, m)) msgs })
  unfolding send_all_cached_gamesrv_buf
  sends_cached s msgs e a took =
      rw (sends_bytes s s.cached msgs e a took, send_all_cached_gamesrv_buf) refl

  -- Messages that come while no game server is connected, as long as they fit into the 10 MB of the
  -- cache, are all sent, in the order in which they came and each once, to the game server that
  -- connects next, if it takes each; then the cache is empty.
  pub server_connects-sent :
      (s : Conn) (msgs : List (List ℕ))
      → s.server ≡ none
      → s.cached ≡ []
      → All (IsMessage 4 65535) msgs
      → length (flatten msgs) ≤ max_cached_buf_size
      → All (λ m. delivered fd m ≡ true) msgs
      → (server : Client) × (server.fd ≡ fd)
        × (server_connects delivered (foldl to_gameserver s msgs) fd
            ≡ some (record s { server = some server; sent = s.sent ++ map (λ m. (fd, m)) msgs }))
  unfolding server_connects
  server_connects-sent s msgs none_there empty a room took =
      let server : Client = record { fd = fd; pos_begin = 0; pos_end = 0; buf = λ i. 0 } in
      let kept : foldl to_gameserver s msgs ≡ record s { cached = flatten msgs } =
        all_cached msgs s none_there (omega (arith, ap length empty))
        ∙ ap (λ c. record s { cached = c ++ flatten msgs }) empty in
      (
        server,
        refl,
        rw
            (
              kept,
              none_there,
              sends_cached (record s { server = some server; cached = flatten msgs }) msgs refl a
                  took,
            )
            (ap
              (λ c. some (record s {
                server = some server;
                cached = c;
                sent = s.sent ++ map (λ m. (fd, m)) msgs;
              }))
              (sym empty)),
      )
