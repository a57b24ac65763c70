-- ===== src/Net/Tests.antt =====
-- A socket that takes a message in two parts, and the theorems on send_one_msg applied to it.
use txgg.Base.{ℕ, ◌≡◌, refl, true, false, List, [], ◌∷◌, arith, length}
use txgg.Net.{Reply, room, again, done, failed, send_one_msg}
use txgg.Net.Send.{Sends, send_one_msg-Sends, send_one_msg_finishes}

abbrev msg : List ℕ
msg = 0 ∷ 6 ∷ 0 ∷ 3 ∷ 8 ∷ 9 ∷ []

abbrev slow : List Reply
slow = room 4 ∷ again ∷ room 9 ∷ []

-- With `force`, a socket that is full after a part of the message leaves that part on the wire.
torn : send_one_msg true slow msg ≡ (failed, 0 ∷ 6 ∷ 0 ∷ 3 ∷ [])
unfolding send_one_msg
torn = refl

send_one_msg-Sends_example : Sends slow msg (length msg) (send_one_msg true slow msg)
send_one_msg-Sends_example = send_one_msg-Sends true slow msg

send_one_msg_finishes_example : send_one_msg false slow msg ≡ (done 6, msg)
send_one_msg_finishes_example =
    send_one_msg_finishes false slow msg (refl, tt) (omega arith) (omega arith)
