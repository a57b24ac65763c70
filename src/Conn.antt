-- ===== src/Conn.antt =====
-- server/conn_srv/conn_srv.c with the event callbacks of common-lib/lib/game_event.c: the connection
-- server, between the clients and one game server. The map of the clients, which is a red-black tree
-- (ClientMap), is here a function from an fd to the connection. `sent` records what is handed to
-- send_one_msg, the receiver's fd and the message, in order; whether a call takes the whole message
-- is the parameter `delivered`, and Net models the call itself. A message of the connection server
-- itself, or the header of a message from the game server, begins at index 0 of the buffer.
pub mod Forward
pub mod Reply
pub mod RoundTrip
pub mod Hang
pub mod Loop
pub mod Stream
pub mod Clients
pub mod Servers
pub mod Cache
pub mod Broadcast
mod Tests
use txgg.Base.{
  ℕ, zero, suc, ◌+◌, ◌-◌, ◌*◌, ◌/◌, ◌%◌, Bool, true, false, Option, none, some, List, [], ◌∷◌, ◌++◌,
  ltb, leb, ◌==◌, if◌then◌else◌, length, take, drop, Code, ok, err, u16_mod,
}
use txgg.Idx.{update}
use txgg.Net.{
  Client, read_net, write_net, read_host, write_host, copy_field, window, get_one_buf,
  remove_one_buf, buf_size,
}
use txgg.Net.Bytes.{len_field}

-- MAX_CACHED_BUF_SIZE
abbrev pub max_cached_buf_size : ℕ
max_cached_buf_size = 10485760

-- SERVER_PROTO_BROADCAST, SERVER_PROTO_KICK_ROLE_NOTIFY and CS__MESSAGE__ID__LOGOUT_REQUEST
abbrev pub server_proto_broadcast : ℕ
server_proto_broadcast = 1000

abbrev pub server_proto_kick_role_notify : ℕ
server_proto_kick_role_notify = 1007

abbrev pub logout_request : ℕ
logout_request = 4

pub record Conn : Type 0 where
  pub clients : ℕ → Option Client
  pub server : Option Client
  pub cached : List ℕ
  pub sent : List (ℕ × List ℕ)

abbrev pub send : Conn → ℕ → List ℕ → Conn
send s fd msg = record s { sent = s.sent ++ ((fd, msg) ∷ []) }

-- cache_to_gamesrv_buf: `cached` is the first cached_len bytes of cached_buf.
pub cache_to_gamesrv_buf : Conn → List ℕ → Code × Conn
cache_to_gamesrv_buf s msg =
    if ltb (max_cached_buf_size - length s.cached) (length msg)
    then (err 1, s)
    else (ok 0, record s { cached = s.cached ++ msg })

-- The end of transfer_to_gameserver and of send_logout_request: the message goes to the game server,
-- or to the cache while there is none.
pub to_gameserver : Conn → List ℕ → Conn
unfolding cache_to_gamesrv_buf
to_gameserver s msg = elim s.server [
  | none ↦ (cache_to_gamesrv_buf s msg).1
  | some server ↦ send s server.fd msg
]

-- The buffer of transfer_to_gameserver once the header for the game server is written.
pub head_conn_buf : (ℕ → ℕ) → ℕ → ℕ → ℕ → ℕ
head_conn_buf buf pos_begin fd =
    let with_len = write_net buf 0 ((read_net buf pos_begin + 2) % u16_mod) in
    let with_id = copy_field with_len 2 (pos_begin + 2) in write_host with_id 4 fd

-- transfer_to_gameserver
pub transfer_to_gameserver : Conn → Client → Conn × Client
unfolding head_conn_buf to_gameserver
transfer_to_gameserver s client =
    let buf = head_conn_buf client.buf client.pos_begin client.fd in
    (
      to_gameserver s (window buf 0 (read_net buf 0)),
      record client { buf = write_net buf client.pos_begin (read_net client.buf client.pos_begin) },
    )

-- send_logout_request
pub send_logout_request : Conn → Client → Conn
unfolding to_gameserver
send_logout_request s client =
    to_gameserver s
      (0 ∷ 10 ∷ 0 ∷ logout_request ∷ client.fd % 256 ∷ client.fd / 256 % 256 ∷ 0 ∷ 0 ∷ 0 ∷ 0 ∷ [])

-- remove_listen_callback_event on a client: its socket is closed and cb_release, that is
-- release_client_client_map, takes it off the map.
pub remove_listen_callback_event : Conn → Client → Conn
remove_listen_callback_event s client =
    if client.fd == 0 then s else record s { clients = update s.clients client.fd none }

-- kick_role
pub kick_role : Conn → Client → Conn
unfolding remove_listen_callback_event
kick_role s client = elim (s.clients (read_host client.buf 4)) [
  | none ↦ s
  | some kicked ↦ remove_listen_callback_event s kicked
]

-- The buffer of transfer_to_client with the client's header.
pub head_buf : (ℕ → ℕ) → ℕ → ℕ
head_buf buf =
    let with_id = copy_field buf 4 2 in
    write_net with_id 2 ((read_net buf 0 + u16_mod - 2) % u16_mod)

module _ (delivered : ℕ → List ℕ → Bool) where
  -- The loop of broadcast_to_client, over the fds from an index on.
  unfoldable pub broadcast_loop : (ℕ → ℕ) → List ℕ → Conn → ℕ → ℕ → Code → Code × Conn
  broadcast_loop buf msg s at_fd zero ret = (ret, s)
  broadcast_loop buf msg s at_fd (suc n) ret =
      let fd = read_host buf at_fd in
      broadcast_loop buf msg (send s fd msg) (at_fd + 2) n (if delivered fd msg then ret else err 1)

  -- broadcast_to_client
  pub broadcast_to_client : Conn → Client → Code × Conn
  unfolding broadcast_loop
  broadcast_to_client s client =
      let real_len = read_net client.buf 6 in
      let fd_offset = (real_len + 6) % u16_mod in
      let num_fd = client.buf 4 in
      if fd_offset + 2 * num_fd == read_net client.buf 0
      then broadcast_loop client.buf (window client.buf 6 real_len) s fd_offset num_fd (ok 0)
      else (err 1, s)

  -- The end of transfer_to_client: a message to one client.
  pub unicast : Conn → Client → Code × Conn × Client
  unfolding head_buf
  unicast s client =
      let fd = read_host client.buf 4 in
      let old_len = read_net client.buf 0 in
      let old_msgid = read_net client.buf 2 in
      let buf = head_buf client.buf in
      let msg = window buf 2 (read_net buf 2) in
      if old_len == 0
      then (err 1, s, record client { buf = buf })
      else if delivered fd msg
      then (
        ok 0,
        send s fd msg,
        record client { buf = write_net (write_net buf 0 old_len) 2 old_msgid },
      )
      else (ok 0, send s fd msg, record client { buf = buf })

  -- transfer_to_client. The id of a broadcast is compared as it stands.
  pub transfer_to_client : Conn → Client → Code × Conn × Client
  unfolding broadcast_to_client kick_role unicast
  transfer_to_client s client =
      if read_host client.buf 2 == server_proto_broadcast
      then (let (code, s') = broadcast_to_client s client in (code, s', client))
      else if read_net client.buf 2 == server_proto_kick_role_notify
      then (ok 0, kick_role s client, client)
      else unicast s client

  -- send_all_cached_gamesrv_buf to the connection `fd`. `none` is a loop out of fuel; each message
  -- is at least one byte long, so as many rounds as there are bytes are enough.
  unfoldable pub send_cached : ℕ → Conn → ℕ → List ℕ → Option (Code × Conn)
  send_cached zero s fd [] = some (ok 0, s)
  send_cached zero s fd (b ∷ bs) = none
  send_cached (suc fuel) s fd [] = some (ok 0, s)
  send_cached (suc fuel) s fd (b ∷ bs) =
      let len = len_field (b ∷ bs) in
      let msg = take len (b ∷ bs) in
      let rest = send_cached fuel (send s fd msg) fd (drop len (b ∷ bs)) in
      if delivered fd msg then rest else some (err 1, send s fd msg)

  abbrev pub clear_cached : Code × Conn → Code × Conn
  clear_cached (code, s) = (code, record s { cached = [] })

  pub send_all_cached_gamesrv_buf : Conn → ℕ → Option (Code × Conn)
  unfolding send_cached
  send_all_cached_gamesrv_buf s fd = elim (send_cached (length s.cached) s fd s.cached) [
    | none ↦ none
    | some r ↦ some (clear_cached r)
  ]

  -- The game server connects: get_server_client_map and conn_cb_server_listen_after, as cb_listen
  -- calls them. A second game server is refused.
  pub server_connects : Conn → ℕ → Option Conn
  unfolding send_all_cached_gamesrv_buf
  server_connects s fd = elim s.server [
    | some server ↦ some s
    | none ↦
        let client : Client = record { fd = fd; pos_begin = 0; pos_end = 0; buf = λ i. 0 } in
        elim (send_all_cached_gamesrv_buf (record s { server = some client }) fd) [
          | none ↦ none
          | some (code, s') ↦ some s'
        ]
  ]

-- The endless loop of conn_cb_client_recv and of conn_cb_server_recv: each whole message is passed on
-- and cut off. `none` is a failed assert of remove_one_buf, or a loop out of fuel.
unfoldable pub recv_loop {ℓ} :
    {S : Type ℓ} → (S → Client → S × Client) → ℕ → S → Client → Option (S × Client)
recv_loop transfer zero s client = none
recv_loop transfer (suc fuel) s client =
    let (s', client') = transfer s client in
    elim (remove_one_buf client') [
      | none ↦ none
      | some (more, client'') ↦ elim more [
        | true ↦ recv_loop transfer fuel s' client''
        | false ↦ some (s', client'')
      ]
    ]

-- What both callbacks do with the result of get_one_buf. Each message is at least four bytes long,
-- so as many rounds as there are bytes are enough.
unfoldable pub recv_messages {ℓ} :
    {S : Type ℓ} → (S → Client → S × Client) → Code × Client → S → Option (Code × S × Client)
unfolding recv_loop
recv_messages transfer (err n, client) s = some (err n, s, client)
recv_messages transfer (ok (suc n), client) s = some (ok 0, s, client)
recv_messages transfer (ok zero, client) s = elim (recv_loop transfer (buf_size client) s client) [
  | none ↦ none
  | some (s', client') ↦ some (ok 0, s', client')
]

-- conn_cb_client_recv on the connection that get_client_map_by_fd finds; `received` is what recv gives.
pub conn_cb_client_recv : List ℕ → Conn → Client → Option (Code × Conn × Client)
unfolding recv_messages get_one_buf transfer_to_gameserver send_logout_request
conn_cb_client_recv received s client =
    elim (recv_messages transfer_to_gameserver (get_one_buf received client) s) [
      | none ↦ none
      | some (ok n, s', client') ↦ some (ok n, s', client')
      | some (err n, s', client') ↦ some (err 1, send_logout_request s' client', client')
    ]

-- conn_cb_server_recv on the game server's connection.
pub conn_cb_server_recv :
    (ℕ → List ℕ → Bool) → List ℕ → Conn → Client → Option (Code × Conn × Client)
unfolding recv_messages get_one_buf transfer_to_client
conn_cb_server_recv delivered received s client =
    elim (recv_messages
      (λ s' client'.
        let (code, s'', client'') = transfer_to_client delivered s' client' in (s'', client''))
      (get_one_buf received client) s) [
        | none ↦ none
        | some (ok n, s', client') ↦ some (ok n, s', client')
        | some (err n, s', client') ↦ some (err 10, s', client')
      ]
