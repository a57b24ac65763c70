-- ===== src/Net.antt =====
-- common-lib/lib/game_net.c, client_map.h and server_proto.h: the buffer of a connection, and the
-- messages that are cut from it. A message is a header of two 16-bit fields, its whole length and its
-- id, both in network order, and its data. `buf` is the array of a CLIENT_MAP by its index; a byte is
-- a number below 256. A connection's own fd is written in the order of the host, which is taken to be
-- little-endian, as the code needs for htons to be its own inverse that swaps.
pub mod Bytes
pub mod Frames
pub mod Send
mod Tests
use txgg.Base.{
  ℕ, zero, suc, ◌+◌, ◌-◌, ◌*◌, ◌/◌, ◌%◌, min, Bool, true, false, ◌&&◌, Option, none, some, List, [],
  ◌∷◌, ◌++◌, ltb, leb, ◌==◌, if◌then◌else◌, length, take, drop, Code, ok, err, add16, u16_mod,
}
use txgg.Idx.{update}

-- MAX_BUF_PER_CLIENT
abbrev pub max_buf_per_client : ℕ
max_buf_per_client = 65535

-- sizeof(PROTO_HEAD)
abbrev pub proto_head_size : ℕ
proto_head_size = 4

-- The fields of a CLIENT_MAP that these files use.
pub record Client : Type 0 where
  pub fd : ℕ
  pub pos_begin : ℕ
  pub pos_end : ℕ
  pub buf : ℕ → ℕ

-- A 16-bit field at an index: read and written through htons, or as it stands.
abbrev pub read_net : (ℕ → ℕ) → ℕ → ℕ
read_net buf i = buf i * 256 + buf (i + 1)

abbrev pub write_net : (ℕ → ℕ) → ℕ → ℕ → ℕ → ℕ
write_net buf i v = update (update buf i (v / 256 % 256)) (i + 1) (v % 256)

abbrev pub read_host : (ℕ → ℕ) → ℕ → ℕ
read_host buf i = buf i + buf (i + 1) * 256

abbrev pub write_host : (ℕ → ℕ) → ℕ → ℕ → ℕ → ℕ
write_host buf i v = update (update buf i (v % 256)) (i + 1) (v / 256 % 256)

-- Copies the 16-bit field at `src` to `dst`.
abbrev pub copy_field : (ℕ → ℕ) → ℕ → ℕ → ℕ → ℕ
copy_field buf dst src = update (update buf dst (buf src)) (dst + 1) (buf (src + 1))

-- The `n` bytes from an index on.
unfoldable pub window : (ℕ → ℕ) → ℕ → ℕ → List ℕ
window buf i zero = []
window buf i (suc n) = buf i ∷ window buf (i + 1) n

-- What recv does to the buffer.
unfoldable pub put_bytes : (ℕ → ℕ) → ℕ → List ℕ → ℕ → ℕ
put_bytes buf i [] = buf
put_bytes buf i (b ∷ bs) = put_bytes (update buf i b) (i + 1) bs

-- memmove within the buffer.
unfoldable pub memmove : (ℕ → ℕ) → ℕ → ℕ → ℕ → ℕ → ℕ
memmove buf dst src n j = if leb dst j && ltb j (dst + n) then buf (src + (j - dst)) else buf j

-- CLIENT_MAP_BUF_SIZE and CLIENT_MAP_BUF_LEAVE
abbrev pub buf_size : Client → ℕ
buf_size client = client.pos_end - client.pos_begin

abbrev pub buf_leave : Client → ℕ
buf_leave client = max_buf_per_client - client.pos_end

-- htons(head->len) of the first message in the buffer.
abbrev pub head_len : Client → ℕ
head_len client = read_net client.buf client.pos_begin

-- A whole message stands in the buffer.
unfoldable pub is_complete : Client → Bool
is_complete client =
    leb proto_head_size (buf_size client) && leb (head_len client) (buf_size client)

-- The buffer and pos_end after recv.
unfoldable pub receive : List ℕ → Client → Client
unfolding put_bytes
receive received client = record client {
  buf = put_bytes client.buf client.pos_end received;
  pos_end = add16 client.pos_end (length received);
}

-- get_one_buf. `received` is what recv put into the buffer, empty where it returned 0 or less.
unfoldable pub get_one_buf : List ℕ → Client → Code × Client
unfolding receive is_complete
get_one_buf received client =
    let client' = receive received client in
    if length received == 0
    then (err 1, client)
    else (if is_complete client' then ok 0 else ok 1, client')

-- The buffer after the first message is cut off.
unfoldable pub remove_front : Client → Client
unfolding memmove
remove_front client = record client {
  buf =
      memmove client.buf client.pos_begin (client.pos_begin + head_len client)
        (buf_size client - head_len client);
  pos_end = client.pos_end - head_len client;
}

-- remove_one_buf: whether a further message is complete. `none` is an assert that fails.
unfoldable pub remove_one_buf : Client → Option (Bool × Client)
unfolding remove_front is_complete
remove_one_buf client =
    if is_complete client
    then some (is_complete (remove_front client), remove_front client)
    else none

-- What send finds: room for so many bytes, none for now (EAGAIN), or a broken connection.
pub data Reply : Type 0 where
  room : ℕ → Reply
  again : Reply
  broken : Reply

-- Whether send_one_msg has returned the length, has returned an error, or is still in its loop.
pub data Outcome : Type 0 where
  done : ℕ → Outcome
  failed : Outcome
  waiting : Outcome

-- The loop of send_one_msg, from the bytes that are left: the outcome, and what went out.
unfoldable pub send_loop : Bool → List Reply → List ℕ → ℕ → Outcome × List ℕ
send_loop force [] p total = (waiting, [])
send_loop force (room n ∷ replies) p total =
    let ret = min n (length p) in
    let (outcome, wire) = send_loop force replies (drop ret p) total in
    if ret == length p then (done total, p) else (outcome, take ret p ++ wire)
send_loop force (again ∷ replies) p total =
    let rest = send_loop force replies p total in if force then (failed, []) else rest
send_loop force (broken ∷ replies) p total = (failed, [])

-- send_one_msg
pub send_one_msg : Bool → List Reply → List ℕ → Outcome × List ℕ
unfolding send_loop
send_one_msg force replies msg = send_loop force replies msg (length msg)
