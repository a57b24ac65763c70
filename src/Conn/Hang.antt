-- ===== src/Conn/Hang.antt =====
-- A header that gives the length 0.
use txgg.Base.{ℕ, ◌+◌, ◌≤◌, ◌≡◌, true, some}
use txgg.Net.{Client, read_net, remove_front, remove_one_buf}
use txgg.Conn.{Conn, transfer_to_gameserver, recv_loop}

-- The buffer begins with such a header.
record IsStuck (client : Client) : Type 0 where
  begins : client.pos_begin ≡ 2
  ends : 6 ≤ client.pos_end
  says : read_net client.buf 2 ≡ 0

-- One round of the loop, whose remove_one_buf does not fail its assert and asks for another round.
next_round : Conn → Client → Conn × Client
next_round s client =
    let (s', client') = transfer_to_gameserver s client in (s', remove_front client')

-- The loop is still in it: the assert holds, and a whole message seems to be left.
abbrev pub Continues : Conn → Client → Type 0
Continues s client =
    (client' : Client) × (remove_one_buf (transfer_to_gameserver s client).1 ≡ some (true, client'))
    × (client'.pos_begin ≡ client.pos_begin)
    × (client'.pos_end ≡ client.pos_end)

-- After `n` rounds the loop stands at a state from which it goes on, with as many bytes in the buffer.
abbrev pub RunsOn : Conn → Client → ℕ → Type 0
RunsOn s client n =
    (s' : Conn) × (client' : Client) × ((fuel : ℕ)
      → recv_loop transfer_to_gameserver (n + fuel) s client
        ≡ recv_loop transfer_to_gameserver fuel s' client')
    × Continues s' client'
    × (client'.pos_begin ≡ client.pos_begin)
    × (client'.pos_end ≡ client.pos_end)
