-- ===== src/Conn/Servers.antt =====
-- The stream from the game server to the clients.
use txgg.Base.{ℕ, refl, Bool, Option, none, some, List, [], arith, Code, ok, err}
use mathlib.Core.List.{flatten}
use txgg.Net.{Client, get_one_buf}
use txgg.Net.Frames.{Buffered}
use txgg.Conn.{Conn, send, recv_messages, conn_cb_server_recv, transfer_to_client}
use txgg.Conn.Loop.{IsMessage, All, Passes}
use txgg.Conn.Reply.{IsPlain, receiver, stripped, transfer_to_client-Replies}
use txgg.Conn.Stream.{Event, Passed, events, recv_messages-Event, events-Passed}

-- A message of the game server to one client.
abbrev pub IsReply : List ℕ → Type 0
IsReply msg = IsMessage 6 65535 msg × IsPlain msg

abbrev pub client_step : Conn → List ℕ → Conn
client_step s msg = send s (receiver msg) (stripped msg)

module _ (delivered : ℕ → List ℕ → Bool) (fd : ℕ) where
  abbrev transfer : Conn → Client → Conn × Client
  transfer s client =
      let (code, s', client') = transfer_to_client delivered s client in (s', client')

  transfer-Passes : Passes fd 0 IsReply client_step transfer
  transfer-Passes = record {
    pass = λ s client msg rest good b.
        let r = transfer_to_client-Replies delivered fd s client msg rest good.0 good.1 b in
        (r.1, r.2, r.3, r.4, r.5);
  }

  server_event :
      (s : Conn) (msgs : List (List ℕ)) (rest : List ℕ) (o : Option (Code × Conn × Client))
      → Event fd 0 client_step s msgs rest o
      → Event fd 0 client_step s msgs rest (elim o [
        | none ↦ none
        | some (ok n, s', client') ↦ some (ok n, s', client')
        | some (err n, s', client') ↦ some (err 10, s', client')
      ])
  server_event s msgs rest none v = v
  server_event s msgs rest (some (ok n, s', client')) v = v
  server_event s msgs rest (some (err n, s', client')) v = v

  -- The messages that the game server sends to single clients are handed to their receivers in order,
  -- each once and without the fd, in whatever parts the stream arrives and whatever the clients take:
  -- at every moment some have been handed over and the buffer holds the beginning of the rest, without
  -- a whole message. The receive callback always returns, and never closes the connection.
  pub conn_cb_server_recv-Passed :
      (ns : List ℕ) (s : Conn) (client : Client) (msgs : List (List ℕ))
      → All IsReply msgs
      → Buffered fd 0 [] client
      → Passed fd 0 client_step s msgs ns
          (flatten msgs)
          (events (conn_cb_server_recv delivered) ns (flatten msgs) s client)
  unfolding conn_cb_server_recv
  conn_cb_server_recv-Passed ns s client msgs a b =
      events-Passed fd 0 6 65535 IsReply (λ msg good. good.0) client_step transfer (omega arith)
        (omega arith) transfer-Passes (conn_cb_server_recv delivered)
        (λ s' client' msgs' held received rest a' b' e some_come room.
          server_event s' msgs' rest (recv_messages transfer (get_one_buf received client') s') (
            recv_messages-Event fd 0 6 65535 IsReply (λ msg good. good.0) client_step transfer
              (omega arith) (omega arith) transfer-Passes s' client' msgs' held received rest a' b'
              e some_come room))
        ns s client msgs [] (flatten msgs) a b refl refl
