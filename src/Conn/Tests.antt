-- ===== src/Conn/Tests.antt =====
-- A client that sends two messages, a game server that sends one back, and the theorems applied to
-- them.
use txgg.Base.{
  ℕ, ◌≡◌, refl, Bool, Option, none, some, List, [], ◌∷◌, ◌++◌, map, arith, ok, ◌==◌, not,
  if◌then◌else◌,
}
use mathlib.Core.List.{flatten, foldl}
use txgg.Net.{Client, window, receive, remove_one_buf}
use txgg.Net.Frames.{Buffered}
use txgg.Conn.{
  Conn, send, to_gameserver, transfer_to_gameserver, transfer_to_client, conn_cb_client_recv,
  conn_cb_server_recv, server_connects,
}
use txgg.Conn.Loop.{IsMessage}
use txgg.Conn.Forward.{forwarded}
use txgg.Conn.RoundTrip.{transfer_to_client-transfer_to_gameserver}
use txgg.Conn.Stream.{Passed, events}
use txgg.Conn.Servers.{client_step, conn_cb_server_recv-Passed}
use txgg.Conn.Cache.{server_connects-sent}
use txgg.Conn.Broadcast.{broadcast_msg, all_taken, transfer_to_client_broadcast}

abbrev login : List ℕ
login = 0 ∷ 6 ∷ 0 ∷ 3 ∷ 8 ∷ 9 ∷ []

abbrev walk : List ℕ
walk = 0 ∷ 5 ∷ 0 ∷ 7 ∷ 1 ∷ []

abbrev both : List (List ℕ)
both = login ∷ walk ∷ []

abbrev fresh : Client
fresh = record { fd = 7; pos_begin = 2; pos_end = 2; buf = λ i. 0 }

abbrev server : Client
server = record { fd = 3; pos_begin = 0; pos_end = 0; buf = λ i. 0 }

abbrev alone : Conn
alone = record {
  clients = λ fd. if fd == 7 then some fresh else none;
  server = none;
  cached = [];
  sent = [];
}

abbrev joined : Conn
joined = record alone { server = some server }

abbrev parts : List ℕ
parts = 2 ∷ 0 ∷ 4 ∷ 9 ∷ []

abbrev bytewise : List ℕ
bytewise = 0 ∷ 0 ∷ 0 ∷ 0 ∷ 0 ∷ 0 ∷ 0 ∷ 0 ∷ 0 ∷ 0 ∷ 0 ∷ []

-- The buffer that holds these bytes from an index on.
holding : ℕ → ℕ → List ℕ → Client
unfolding receive
holding fd start bytes =
    receive bytes (record { fd = fd; pos_begin = start; pos_end = start; buf = λ i. 0 })

abbrev but_nine : ℕ → List ℕ → Bool
but_nine fd msg = not (fd == 9)

login-IsMessage : IsMessage 4 65533 login
login-IsMessage = record { long = omega arith; short = omega arith; len_lem = refl }

abbrev sent_and_left : Option (Conn × Client × List ℕ) → Option (List (ℕ × List ℕ) × List ℕ)
sent_and_left none = none
sent_and_left (some (s, client, rest)) = some (s.sent, rest)

-- Where the parts of the two messages end does not show in what is sent.
sent_in_parts :
    sent_and_left (events conn_cb_client_recv parts (flatten both) joined fresh)
    ≡ some ((3, 0 ∷ 8 ∷ 0 ∷ 3 ∷ 7 ∷ 0 ∷ 8 ∷ 9 ∷ []) ∷ (3, 0 ∷ 7 ∷ 0 ∷ 7 ∷ 7 ∷ 0 ∷ 1 ∷ []) ∷ [], [])
unfolding events conn_cb_client_recv flatten window remove_one_buf
sent_in_parts = refl

login_held : Buffered 7 2 (login ++ walk) (holding 7 2 (login ++ walk))
unfolding holding window
login_held = record { fd_lem = refl; begins = refl; ends = refl; fits = omega arith; holds = refl }

answer_held :
    Buffered 3 0 (forwarded 7 login ++ (0 ∷ [])) (holding 3 0 (forwarded 7 login ++ (0 ∷ [])))
unfolding holding window
answer_held = record { fd_lem = refl; begins = refl; ends = refl; fits = omega arith; holds = refl }

transfer_to_client-transfer_to_gameserver_example :
    ((transfer_to_gameserver joined (holding 7 2 (login ++ walk))).0
      ≡ send joined 3 (forwarded 7 login))
    × ((transfer_to_client but_nine joined (holding 3 0 (forwarded 7 login ++ (0 ∷ [])))).0 ≡ ok 0)
    × ((transfer_to_client but_nine joined (holding 3 0 (forwarded 7 login ++ (0 ∷ [])))).1
        ≡ send joined 7 login)
transfer_to_client-transfer_to_gameserver_example =
    transfer_to_client-transfer_to_gameserver but_nine 7 3 joined joined
      (holding 7 2 (login ++ walk)) server (holding 3 0 (forwarded 7 login ++ (0 ∷ []))) login walk
      (0 ∷ []) (omega arith) login-IsMessage (omega arith) (omega arith) refl login_held answer_held

server_connects-sent_example :
    (server' : Client) × (server'.fd ≡ 3)
    × (server_connects but_nine (foldl to_gameserver alone both) 3
        ≡ some (record alone { server = some server'; sent = map (λ m. (3, m)) both }))
unfolding flatten
server_connects-sent_example =
    server_connects-sent but_nine 3 alone both refl refl
      (
        record { long = omega arith; short = omega arith; len_lem = refl },
        (record { long = omega arith; short = omega arith; len_lem = refl }, tt),
      )
      (omega arith) (refl, (refl, tt))

abbrev to_two : List ℕ
to_two = broadcast_msg 0 walk (7 ∷ 9 ∷ [])

two_held : Buffered 3 0 (to_two ++ (1 ∷ [])) (holding 3 0 (to_two ++ (1 ∷ [])))
unfolding holding window
two_held = record { fd_lem = refl; begins = refl; ends = refl; fits = omega arith; holds = refl }

transfer_to_client_broadcast_example :
    transfer_to_client but_nine joined (holding 3 0 (to_two ++ (1 ∷ []))) ≡ (
      all_taken but_nine walk (7 ∷ 9 ∷ []) (ok 0),
      foldl (λ t fd. send t fd walk) joined (7 ∷ 9 ∷ []),
      holding 3 0 (to_two ++ (1 ∷ [])),
    )
transfer_to_client_broadcast_example =
    transfer_to_client_broadcast but_nine joined (holding 3 0 (to_two ++ (1 ∷ []))) 3 0 walk
      (7 ∷ 9 ∷ []) (1 ∷ []) (record { long = omega arith; short = omega arith; len_lem = refl })
      (omega arith) (omega arith) (omega arith) two_held

abbrev replies : List (List ℕ)
replies = forwarded 7 login ∷ forwarded 9 walk ∷ []

server-Buffered : Buffered 3 0 [] server
unfolding window
server-Buffered = record {
  fd_lem = refl;
  begins = refl;
  ends = refl;
  fits = omega arith;
  holds = refl;
}

conn_cb_server_recv-Passed_example :
    Passed 3 0 client_step joined replies parts
      (flatten replies)
      (events (conn_cb_server_recv but_nine) parts (flatten replies) joined server)
conn_cb_server_recv-Passed_example =
    conn_cb_server_recv-Passed but_nine 3 parts joined server replies
      (
        (record { long = omega arith; short = omega arith; len_lem = refl }, omega arith),
        ((record { long = omega arith; short = omega arith; len_lem = refl }, omega arith), tt),
      )
      server-Buffered
